-- ===== src/Pdu/Header/Accepted.antt =====
-- What the header decoder accepts, on any octets.
use native.Mathlib.Decide.{ℕ_discrete, dec_le}
use embedded_cfdp.Base.{
  ℕ, ◌+◌, ◌^◌, ◌≤◌, ◌<◌, ◌≡◌, ◌≢◌, ◌⊎◌, inl, inr, refl, ap, sym, ◌∙◌, arith, List, some, length,
  drop, drop-All, length-drop, All, IsByte, bit_and, ◌>>◌, get_or,
}
use embedded_cfdp.Base.Bits.{bit_and-mask}
use embedded_cfdp.Common.{IsIdLen}
use embedded_cfdp.Endian.Read.{read_uint-lt}
use embedded_cfdp.Buffer.{get_uint}
use embedded_cfdp.Pdu.Header.{
  Header, header_deserialize, unpack_flags, read_ids, segment_flags_mask,
}
use embedded_cfdp.Pdu.Header.Flags.{segment_flag, masked_flag}
use embedded_cfdp.Pdu.Header.Layout.{IsHeader, size_of, header_size_lem}
use embedded_cfdp.Pdu.Header.RoundTrip.{canonical, header_deserialize_accepts}

-- The flags that any two octets decode to are in range.
record InRange (h : Header) : Type 0 where
  pdu_type : h.pdu_type < 2
  direction : h.direction < 2
  transmission_mode : h.transmission_mode < 2
  crc_flag : h.crc_flag < 2
  large_file_flag : h.large_file_flag < 2
  data_field_length : h.data_field_length < 2 ^ 16
  segmentation_control : h.segmentation_control ≡ segment_flag h.pdu_type h.segmentation_control
  segment_metadata_flag : h.segment_metadata_flag ≡ segment_flag h.pdu_type h.segment_metadata_flag
  entity_id_length : IsIdLen h.entity_id_length
  transaction_seq_length : IsIdLen h.transaction_seq_length

stays_masked : (t x : ℕ) → segment_flag t x ≡ segment_flag t (segment_flag t x)
stays_masked t x = ground arith

unpack_flags-InRange : (buf : List ℕ) (old : Header) → InRange (unpack_flags buf old)
unfolding unpack_flags
unpack_flags-InRange buf old = record {
  pdu_type = omega (arith, bit_and-mask 1 (get_or buf 0 0 >> 4));
  direction = omega (arith, bit_and-mask 1 (get_or buf 0 0 >> 3));
  transmission_mode = omega (arith, bit_and-mask 1 (get_or buf 0 0 >> 2));
  crc_flag = omega (arith, bit_and-mask 1 (get_or buf 0 0 >> 1));
  large_file_flag = omega (arith, bit_and-mask 1 (get_or buf 0 0));
  data_field_length = omega arith;
  segmentation_control = masked (get_or buf 3 0 >> 7);
  segment_metadata_flag = masked (get_or buf 3 0 >> 3);
  entity_id_length = omega (arith, bit_and-mask 3 (get_or buf 3 0 >> 4));
  transaction_seq_length = omega (arith, bit_and-mask 3 (get_or buf 3 0));
}
  where
    masked :
        (x : ℕ)
        → bit_and x (segment_flags_mask (bit_and (get_or buf 0 0 >> 4) 0x1))
          ≡ segment_flag
              (bit_and (get_or buf 0 0 >> 4) 0x1)
              (bit_and x (segment_flags_mask (bit_and (get_or buf 0 0 >> 4) 0x1)))
    masked x =
        let t = bit_and (get_or buf 0 0 >> 4) 0x1 in
        masked_flag t x ∙ stays_masked t x ∙ ap (segment_flag t) (sym (masked_flag t x))

segment_flag-lt : (t x : ℕ) → x ≡ segment_flag t x → x < 2
segment_flag-lt t x e = ground arith

refuses :
    (buf : List ℕ) (buf_len : ℕ) (old : Header)
    → ((unpack_flags buf old).version ≢ 1) ⊎ (buf_len < size_of (unpack_flags buf old))
    → (header_deserialize (some buf) buf_len (some old)).0 ≡ 0
unfolding header_deserialize
refuses buf buf_len old bad =
    let r = unpack_flags-InRange buf old in
    ground
      (arith, header_size_lem (unpack_flags buf old) r.entity_id_length r.transaction_seq_length)

number_read :
    (buf : List ℕ) (pos n : ℕ)
    → pos + n ≤ length buf
    → n ≤ 8
    → All IsByte buf
    → get_uint buf pos n < 256 ^ n
number_read buf pos n h k bytes =
    read_uint-lt (drop pos buf) n (omega (arith, length-drop {0} pos buf)) k
      (drop-All IsByte pos buf bytes)

read_ids-IsHeader :
    (buf : List ℕ) (h : Header)
    → InRange h
    → h.version ≡ 1
    → size_of h ≤ length buf
    → All IsByte buf
    → IsHeader (read_ids buf h)
unfolding read_ids size_of
read_ids-IsHeader buf h r v room bytes = record {
  version = v;
  pdu_type = r.pdu_type;
  direction = r.direction;
  transmission_mode = r.transmission_mode;
  crc_flag = r.crc_flag;
  large_file_flag = r.large_file_flag;
  data_field_length = r.data_field_length;
  segmentation_control = segment_flag-lt h.pdu_type _ r.segmentation_control;
  segment_metadata_flag = segment_flag-lt h.pdu_type _ r.segment_metadata_flag;
  entity_id_length = r.entity_id_length;
  transaction_seq_length = r.transaction_seq_length;
  source_entity_id = number_read buf 4 e (omega arith) r.entity_id_length.1 bytes;
  transaction_seq_number = number_read buf (4 + e) t (omega arith) r.transaction_seq_length.1 bytes;
  destination_entity_id = number_read buf (4 + e + t) e (omega arith) r.entity_id_length.1 bytes;
}
  where
    open h use {entity_id_length as e, transaction_seq_length as t}

canonical-read_ids :
    (buf : List ℕ) (h : Header) → InRange h → canonical (read_ids buf h) ≡ read_ids buf h
unfolding canonical read_ids
canonical-read_ids buf h r =
    let c = sym r.segmentation_control in
    let m = sym r.segment_metadata_flag in
    λ i. record (read_ids buf h) { segmentation_control = c i; segment_metadata_flag = m i }

-- On any octets, `buf_len` of which are in the buffer, the decoder either answers 0, or
-- consumes the size of the header that it stores, which lies within the octets given, can be
-- sent, and has no segment flag in a File Directive.
pub header_deserialize_cases :
    (buf : List ℕ) (buf_len : ℕ) (old : Header)
    → buf_len ≤ length buf
    → All IsByte buf
    → ((header_deserialize (some buf) buf_len (some old)).0 ≡ 0)
      ⊎ ((h : Header) × (header_deserialize (some buf) buf_len (some old) ≡ (size_of h, some h))
          × IsHeader h
          × (size_of h ≤ buf_len)
          × (canonical h ≡ h))
unfolding read_ids size_of
header_deserialize_cases buf buf_len old inside bytes = elim (ℕ_discrete flags.version 1) [
  | no other ↦ inl (refuses buf buf_len old (inl other))
  | yes v ↦ elim (dec_le (size_of flags) buf_len) [
    | no cut ↦ inl (refuses buf buf_len old (inr (omega arith)))
    | yes room ↦ inr (
      read_ids buf flags,
      header_deserialize_accepts buf buf_len (size_of flags) old flags refl v
          (header_size_lem flags ranges.entity_id_length ranges.transaction_seq_length)
          (omega arith) room,
      read_ids-IsHeader buf flags ranges v (omega arith) bytes,
      room,
      canonical-read_ids buf flags ranges,
    )
  ]
]
  where
    flags : Header
    flags = unpack_flags buf old

    ranges : InRange flags
    ranges = unpack_flags-InRange buf old
