-- ===== src/Pdu/Header/Decoded.antt =====
-- Where the header decoder finds the fields that it stores.
use embedded_cfdp.Base.{
  ℕ, ◌+◌, ◌*◌, ◌/◌, ◌%◌, ◌^◌, ◌≤◌, ◌<◌, ◌≡◌, ◌≢◌, ap, sym, ◌∙◌, arith, List, some, deref, length,
  length-drop, take, drop, drop-All, get_or, get_or-All, All, IsByte, bit_and, u16, ◌>>◌,
}
use embedded_cfdp.Base.Bits.{bit_and-mask}
use embedded_cfdp.Buffer.{get_uint}
use embedded_cfdp.Endian.Octets.{be_octets}
use embedded_cfdp.Endian.Read.{read_uint-lt, be_octets-read_uint}
use embedded_cfdp.Pdu.Header.{
  Header, header_deserialize, unpack_flags, read_ids, segment_flags_mask,
}
use embedded_cfdp.Pdu.Header.Flags.{masked_flag}
use mathlib.Core.Path.{subst}
use native.Mathlib.Decide.{ℕ_discrete}
use embedded_cfdp.Pdu.Header.Layout.{size_of}

-- A header that stands in octets: each bit of the first and of the fourth octet in its place, the
-- segment flags only in a File Data PDU, whose type is 1, and the numbers most significant first.
pub record IsIn (buf : List ℕ) (h : Header) : Type 0 where
  pub first :
      get_or buf 0 0
      ≡ h.version * 32
        + h.pdu_type * 16
        + h.direction * 8
        + h.transmission_mode * 4
        + h.crc_flag * 2
        + h.large_file_flag
  pub data_field_length : be_octets 2 h.data_field_length ≡ take 2 (drop 1 buf)
  pub segmentation_control : h.segmentation_control ≡ h.pdu_type * (get_or buf 3 0 / 128 % 2)
  pub entity_id_length : h.entity_id_length ≡ get_or buf 3 0 / 16 % 8 + 1
  pub segment_metadata_flag : h.segment_metadata_flag ≡ h.pdu_type * (get_or buf 3 0 / 8 % 2)
  pub transaction_seq_length : h.transaction_seq_length ≡ get_or buf 3 0 % 8 + 1
  pub source_entity_id :
      be_octets h.entity_id_length h.source_entity_id ≡ take h.entity_id_length (drop 4 buf)
  pub transaction_seq_number :
      be_octets h.transaction_seq_length h.transaction_seq_number
      ≡ take h.transaction_seq_length (drop (4 + h.entity_id_length) buf)
  pub destination_entity_id :
      be_octets h.entity_id_length h.destination_entity_id
      ≡ take h.entity_id_length (drop (4 + h.entity_id_length + h.transaction_seq_length) buf)

flag_read : (t x : ℕ) → t < 2 → bit_and x (segment_flags_mask t) ≡ t * (x % 2)
flag_read t x h = masked_flag t x ∙ elim (ℕ_discrete t 1) [
  | yes is ↦ rw is (omega arith)
  | no other ↦ let none_set : t ≡ 0 = omega arith in rw none_set (omega arith)
]

stored :
    (buf : List ℕ) (buf_len : ℕ) (old : Header)
    → let (n, out) = header_deserialize (some buf) buf_len (some old) in
      n ≢ 0 → deref old out ≡ read_ids buf (unpack_flags buf old)
unfolding header_deserialize
stored buf buf_len old ne = ground arith

module _ (buf : List ℕ) (bytes : All IsByte buf) where
  number :
      (pos n : ℕ)
      → pos + n ≤ length buf
      → n ≤ 8
      → (be_octets n (get_uint buf pos n) ≡ take n (drop pos buf)) × (get_uint buf pos n < 256 ^ n)
  number pos n room small =
      let have : n ≤ length (drop pos buf) = omega (arith, length-drop {0} pos buf) in
      let octets = drop-All IsByte pos buf bytes in
      (
        be_octets-read_uint (drop pos buf) n have small octets,
        read_uint-lt (drop pos buf) n have small octets,
      )

  read_ids-IsIn :
      (old : Header)
      → size_of (unpack_flags buf old) ≤ length buf
      → IsIn buf (read_ids buf (unpack_flags buf old))
  unfolding unpack_flags read_ids size_of
  read_ids-IsIn old room =
      let o0 = get_or buf 0 0 in
      let o3 = get_or buf 3 0 in
      let b0 = get_or-All IsByte buf 0 0 bytes (omega arith) in
      let (octets, bound) = number 1 2 (omega arith) (omega arith) in
      let narrow : u16 (get_uint buf 1 2) ≡ get_uint buf 1 2 = omega (arith, bound) in
      let type = bit_and-mask 1 (o0 >> 4) in
      let entity = bit_and-mask 3 (o3 >> 4) in
      let seq = bit_and-mask 3 o3 in
      record {
        first = omega (
          arith,
          b0,
          bit_and-mask 3 (o0 >> 5),
          type,
          bit_and-mask 1 (o0 >> 3),
          bit_and-mask 1 (o0 >> 2),
          bit_and-mask 1 (o0 >> 1),
          bit_and-mask 1 o0,
        );
        data_field_length = ap (be_octets 2) narrow ∙ octets;
        segmentation_control = flag_read _ (o3 >> 7) (omega (arith, type));
        entity_id_length = omega (arith, entity);
        segment_metadata_flag = flag_read _ (o3 >> 3) (omega (arith, type));
        transaction_seq_length = omega (arith, seq);
        source_entity_id = (number 4 _ (omega arith) (omega (arith, entity))).0;
        transaction_seq_number = (number _ _ (omega arith) (omega (arith, seq))).0;
        destination_entity_id = (number _ _ (omega arith) (omega (arith, entity))).0;
      }

  pub decoded-IsIn :
      (buf_len : ℕ) (old h : Header)
      → header_deserialize (some buf) buf_len (some old) ≡ (size_of h, some h)
      → size_of h ≤ length buf
      → IsIn buf h
  unfolding read_ids size_of
  decoded-IsIn buf_len old h e room =
      let flags = unpack_flags buf old in
      let same : h ≡ read_ids buf flags =
        sym (ap (λ r. deref old r.1) e)
        ∙ stored buf buf_len old (λ none_read. omega (arith, ap (λ r. r.0) e)) in
      let sizes : size_of h ≡ size_of flags = ap size_of same in
      subst (IsIn buf) (sym same) (read_ids-IsIn old (omega (arith, sizes)))
