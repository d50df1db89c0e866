-- ===== src/Pdu/Header/Flags.antt =====
-- The two octets of flags, as sums of their fields.
use embedded_cfdp.Base.{
  ℕ, ◌+◌, ◌*◌, ◌%◌, ◌<◌, ◌-◌, ◌≡◌, ◌∙◌, inl, inr, bool_cases, arith, bit_and, bit_or, u8, ◌<<◌,
  ◌==◌, if◌then◌else◌,
}
use embedded_cfdp.Common.{IsIdLen, pdu_type_file_data}
use embedded_cfdp.Base.Bits.{bit_and-mask, bit_and-zero, bit_or_disjoint}
use embedded_cfdp.Pdu.Header.{Header, pack_octet0, pack_octet3, segment_flags_mask, less_one}

pub pack_octet0_sum :
    (h : Header)
    → pack_octet0 h
      ≡ h.version % 8 * 32
        + h.pdu_type % 2 * 16
        + h.direction % 2 * 8
        + h.transmission_mode % 2 * 4
        + h.crc_flag % 2 * 2
        + h.large_file_flag % 2
unfolding pack_octet0
pack_octet0_sum h = ground (
  arith,
  bit_and-mask 3 v,
  bit_and-mask 1 (u8 t),
  bit_and-mask 1 (u8 d),
  bit_and-mask 1 (u8 m),
  bit_and-mask 1 (u8 c),
  bit_and-mask 1 (u8 l),
  bit_or_disjoint 5 (v % 8 * 32) (t % 2 * 16),
  bit_or_disjoint 4 (v % 8 * 32 + t % 2 * 16) (d % 2 * 8),
  bit_or_disjoint 3 (v % 8 * 32 + t % 2 * 16 + d % 2 * 8) (m % 2 * 4),
  bit_or_disjoint 2 (v % 8 * 32 + t % 2 * 16 + d % 2 * 8 + m % 2 * 4) (c % 2 * 2),
  bit_or_disjoint 1 (v % 8 * 32 + t % 2 * 16 + d % 2 * 8 + m % 2 * 4 + c % 2 * 2) (l % 2),
)
  where
    open h use {
      version as v, pdu_type as t, direction as d, transmission_mode as m, crc_flag as c,
      large_file_flag as l,
    }

-- A segment flag as it goes on the wire: zero in a File Directive.
abbrev pub segment_flag : ℕ → ℕ → ℕ
segment_flag pdu_type flag = if pdu_type == pdu_type_file_data then flag % 2 else 0

pub masked_flag :
    (pdu_type x : ℕ) → bit_and x (segment_flags_mask pdu_type) ≡ segment_flag pdu_type x
masked_flag pdu_type x = elim (bool_cases (pdu_type == pdu_type_file_data)) [
  | inl e ↦ rw e (bit_and-mask 1 x)
  | inr e ↦ rw e (bit_and-zero x)
]

segment_flag-lt : (pdu_type x : ℕ) → segment_flag pdu_type x < 2
segment_flag-lt pdu_type x = ground arith

pub segment_flag-u8 : (pdu_type x : ℕ) → segment_flag pdu_type (u8 x) ≡ segment_flag pdu_type x
segment_flag-u8 pdu_type x = ground arith

four_fields :
    (a b c d : ℕ)
    → a < 2
    → b < 8
    → c < 2
    → d < 8
    → u8 (bit_or (bit_or (bit_or (a << 7) (b << 4)) (c << 3)) d) ≡ a * 128 + b * 16 + c * 8 + d
four_fields a b c d ha hb hc hd = ground (
  arith,
  bit_or_disjoint 7 (a * 128) (b * 16),
  bit_or_disjoint 4 (a * 128 + b * 16) (c * 8),
  bit_or_disjoint 3 (a * 128 + b * 16 + c * 8) d,
)

pub pack_octet3_sum :
    (h : Header)
    → IsIdLen h.entity_id_length
    → IsIdLen h.transaction_seq_length
    → pack_octet3 h
      ≡ segment_flag h.pdu_type h.segmentation_control * 128
        + (h.entity_id_length - 1) * 16
        + segment_flag h.pdu_type h.segment_metadata_flag * 8
        + (h.transaction_seq_length - 1)
unfolding pack_octet3
pack_octet3_sum h ke kt =
    rw (control, metadata, id, seq)
      (four_fields (segment_flag p c) (e - 1) (segment_flag p m) (t - 1) (segment_flag-lt p c)
        (omega arith) (segment_flag-lt p m) (omega arith))
  where
    open h use {
      pdu_type as p, segmentation_control as c, segment_metadata_flag as m, entity_id_length as e,
      transaction_seq_length as t,
    }

    control : bit_and (u8 c) (segment_flags_mask p) ≡ segment_flag p c
    control = masked_flag p (u8 c) ∙ segment_flag-u8 p c

    metadata : bit_and (u8 m) (segment_flags_mask p) ≡ segment_flag p m
    metadata = masked_flag p (u8 m) ∙ segment_flag-u8 p m

    id : bit_and (less_one e) 0x7 ≡ e - 1
    id = omega (arith, bit_and-mask 3 (less_one e))

    seq : bit_and (less_one t) 0x7 ≡ t - 1
    seq = omega (arith, bit_and-mask 3 (less_one t))
