-- ===== src/Common.antt =====
-- include/cfdp_common.h: the constants and enumerations of the protocol. A C variable of an
-- enumeration can hold any value of its underlying unsigned type, and decoded codes are cast
-- from the wire unchecked, so an enumeration is a number and its members are constants.
pub mod DirectiveCode
pub mod ConditionCode
pub mod Enumeration
use embedded_cfdp.Base.{ℕ, ◌≤◌, ◌≡◌, ◌⊎◌, inl, inr, if◌then◌else◌, ◌==◌, bool_cases, arith}

abbrev pub protocol_version : ℕ
protocol_version = 1

abbrev pub id_len_min : ℕ
id_len_min = 1

abbrev pub id_len_max : ℕ
id_len_max = 8

abbrev pub pdu_header_fixed_len : ℕ
pdu_header_fixed_len = 4

abbrev pub pdu_crc_len : ℕ
pdu_crc_len = 2

abbrev pub segment_metadata_max_len : ℕ
segment_metadata_max_len = 63

-- `cfdp_pdu_type_t`
abbrev pub pdu_type_directive : ℕ
pdu_type_directive = 0

abbrev pub pdu_type_file_data : ℕ
pdu_type_file_data = 1

-- `cfdp_direction_t`
abbrev pub direction_toward_receiver : ℕ
direction_toward_receiver = 0

-- `cfdp_transmission_mode_t`
abbrev pub trans_mode_unacknowledged : ℕ
trans_mode_unacknowledged = 1

-- `cfdp_crc_flag_t`
abbrev pub crc_present : ℕ
crc_present = 1

-- `cfdp_large_file_flag_t`
abbrev pub file_size_small : ℕ
file_size_small = 0

abbrev pub file_size_large : ℕ
file_size_large = 1

-- `cfdp_seg_ctrl_t`
abbrev pub seg_ctrl_boundaries_not_preserved : ℕ
seg_ctrl_boundaries_not_preserved = 0

-- `cfdp_seg_metadata_flag_t`
abbrev pub seg_metadata_absent : ℕ
seg_metadata_absent = 0

abbrev pub seg_metadata_present : ℕ
seg_metadata_present = 1

-- `cfdp_record_continuation_t`
abbrev pub record_cont_neither : ℕ
record_cont_neither = 0

-- `cfdp_checksum_type_t`
abbrev pub checksum_modular : ℕ
checksum_modular = 0

abbrev pub checksum_null : ℕ
checksum_null = 15

-- `cfdp_file_size_octets`
unfoldable pub file_size_octets : ℕ → ℕ
file_size_octets large_file_flag = if large_file_flag == file_size_large then 8 else 4

-- The lengths that an entity identifier or a sequence number may have.
abbrev pub IsIdLen : ℕ → Type 0
IsIdLen len = (id_len_min ≤ len) × (len ≤ id_len_max)

pub file_size_octets_cases : (flag : ℕ) → (file_size_octets flag ≡ 4) ⊎ (file_size_octets flag ≡ 8)
unfolding file_size_octets
file_size_octets_cases flag = elim (bool_cases (flag == file_size_large)) [
  | inl e ↦ inr (rw e)
  | inr e ↦ inl (rw e)
]

pub file_size_octets-le : (flag : ℕ) → file_size_octets flag ≤ 8
file_size_octets-le flag = elim (file_size_octets_cases flag) [
  | inl e ↦ omega (arith, e)
  | inr e ↦ omega (arith, e)
]
