-- ===== src/Pdu/Header.antt =====
-- The fixed PDU header: `cfdp_pdu_header_t` and its codec.
pub mod Flags
pub mod Layout
pub mod Fields
pub mod RoundTrip
pub mod Accepted
pub mod Decoded
pub mod Local
pub mod Bytes
use embedded_cfdp.Base.{
  ℕ, ◌+◌, ◌*◌, List, Option, none, some, Bool, true, false, not, ◌&&◌, ◌||◌, ltb, leb, ◌==◌, ◌!=◌,
  if◌then◌else◌, deref, set, get_or, drop, bit_and, bit_or, u8, u16, u32, ◌<<◌, ◌>>◌,
}
use embedded_cfdp.Buffer.{Pointer, put_uint, get_uint}
use embedded_cfdp.Common.{
  protocol_version, id_len_min, id_len_max, pdu_header_fixed_len, pdu_type_file_data,
}

-- `cfdp_pdu_header_t`
pub record Header : Type 0 where
  pub version : ℕ
  pub pdu_type : ℕ
  pub direction : ℕ
  pub transmission_mode : ℕ
  pub crc_flag : ℕ
  pub large_file_flag : ℕ
  pub data_field_length : ℕ
  pub segmentation_control : ℕ
  pub segment_metadata_flag : ℕ
  pub entity_id_length : ℕ
  pub transaction_seq_length : ℕ
  pub source_entity_id : ℕ
  pub transaction_seq_number : ℕ
  pub destination_entity_id : ℕ

-- A local `cfdp_pdu_header_t` before anything is stored in it; no result depends on it.
abbrev pub blank_header : Header
blank_header = record {
  version = 0;
  pdu_type = 0;
  direction = 0;
  transmission_mode = 0;
  crc_flag = 0;
  large_file_flag = 0;
  data_field_length = 0;
  segmentation_control = 0;
  segment_metadata_flag = 0;
  entity_id_length = 0;
  transaction_seq_length = 0;
  source_entity_id = 0;
  transaction_seq_number = 0;
  destination_entity_id = 0;
}

-- `cfdp_id_len_valid`
unfoldable pub id_len_valid : ℕ → Bool
id_len_valid len = leb id_len_min len && leb len id_len_max

-- `cfdp_pdu_header_size`
unfoldable pub header_size : Option Header → ℕ
header_size none = 0
header_size (some hdr) =
    if not (id_len_valid hdr.entity_id_length) || not (id_len_valid hdr.transaction_seq_length)
    then 0
    else pdu_header_fixed_len + 2 * hdr.entity_id_length + hdr.transaction_seq_length

-- `cfdp_pack_octet0`
unfoldable pub pack_octet0 : Header → ℕ
pack_octet0 hdr = u8 (
    bit_or
      (bit_or
        (bit_or
          (bit_or (bit_or (bit_and hdr.version 0x7 << 5) (bit_and (u8 hdr.pdu_type) 0x1 << 4))
            (bit_and (u8 hdr.direction) 0x1 << 3))
          (bit_and (u8 hdr.transmission_mode) 0x1 << 2))
        (bit_and (u8 hdr.crc_flag) 0x1 << 1))
      (bit_and (u8 hdr.large_file_flag) 0x1))

-- Table 5-1: the segment flags count in File Data PDUs only.
abbrev pub segment_flags_mask : ℕ → ℕ
segment_flags_mask pdu_type = if pdu_type == pdu_type_file_data then 0x1 else 0x0

-- `x - 1U` on an octet, which C does in 32 bits.
abbrev pub less_one : ℕ → ℕ
less_one x = u32 (x + 0xFFFF_FFFF)

-- `cfdp_pack_octet3`
unfoldable pub pack_octet3 : Header → ℕ
pack_octet3 hdr =
    let mask = segment_flags_mask hdr.pdu_type in
    u8 (
      bit_or
        (bit_or
          (bit_or (bit_and (u8 hdr.segmentation_control) mask << 7)
            (bit_and (less_one hdr.entity_id_length) 0x7 << 4))
          (bit_and (u8 hdr.segment_metadata_flag) mask << 3))
        (bit_and (less_one hdr.transaction_seq_length) 0x7))

-- What `cfdp_pdu_header_serialize` writes once its arguments have passed.
unfoldable pub header_write : Header → List ℕ → List ℕ
header_write hdr buf =
    let flags = set buf 0 (pack_octet0 hdr) in
    let sized = put_uint flags 1 hdr.data_field_length 2 in
    let fixed = set sized 3 (pack_octet3 hdr) in
    let source = put_uint fixed pdu_header_fixed_len hdr.source_entity_id hdr.entity_id_length in
    let seq_pos = pdu_header_fixed_len + hdr.entity_id_length in
    let numbered = put_uint source seq_pos hdr.transaction_seq_number hdr.transaction_seq_length in
    let dest_pos = seq_pos + hdr.transaction_seq_length in
    put_uint numbered dest_pos hdr.destination_entity_id hdr.entity_id_length

-- `cfdp_pdu_header_serialize`
unfoldable pub header_serialize : Option Header → Pointer → ℕ → ℕ × Pointer
header_serialize (some hdr) (some buf) buf_len =
    let size = header_size (some hdr) in
    if hdr.version != protocol_version
    then (0, some buf)
    else if size == 0 || ltb buf_len size
    then (0, some buf)
    else (size, some (header_write hdr buf))
header_serialize _ buf _ = (0, buf)

-- `cfdp_unpack_flags`
unfoldable pub unpack_flags : List ℕ → Header → Header
unpack_flags buf hdr =
    let o0 = get_or buf 0 0 in
    let o3 = get_or buf 3 0 in
    let pdu_type = bit_and (o0 >> 4) 0x1 in
    let mask = segment_flags_mask pdu_type in
    record hdr {
      version = u8 (bit_and (o0 >> 5) 0x7);
      pdu_type = pdu_type;
      direction = bit_and (o0 >> 3) 0x1;
      transmission_mode = bit_and (o0 >> 2) 0x1;
      crc_flag = bit_and (o0 >> 1) 0x1;
      large_file_flag = bit_and o0 0x1;
      data_field_length = u16 (get_uint buf 1 2);
      segmentation_control = bit_and (o3 >> 7) mask;
      entity_id_length = u8 (bit_and (o3 >> 4) 0x7 + 1);
      segment_metadata_flag = bit_and (o3 >> 3) mask;
      transaction_seq_length = u8 (bit_and o3 0x7 + 1);
    }

-- The identifiers that `cfdp_pdu_header_deserialize` reads behind the fixed part.
unfoldable pub read_ids : List ℕ → Header → Header
read_ids buf hdr =
    let seq_pos = pdu_header_fixed_len + hdr.entity_id_length in
    let dest_pos = seq_pos + hdr.transaction_seq_length in
    record hdr {
      source_entity_id = get_uint buf pdu_header_fixed_len hdr.entity_id_length;
      transaction_seq_number = get_uint buf seq_pos hdr.transaction_seq_length;
      destination_entity_id = get_uint buf dest_pos hdr.entity_id_length;
    }

-- `cfdp_pdu_header_deserialize`; the header may be partly written on an error.
unfoldable pub header_deserialize : Pointer → ℕ → Option Header → ℕ × Option Header
header_deserialize (some buf) buf_len (some hdr) =
    let flags = unpack_flags buf hdr in
    let size = header_size (some flags) in
    if ltb buf_len pdu_header_fixed_len
    then (0, some hdr)
    else if flags.version != protocol_version
    then (0, some flags)
    else if size == 0 || ltb buf_len size
    then (0, some flags)
    else (size, some (read_ids buf flags))
header_deserialize _ _ hdr = (0, hdr)
