-- ===== src/Pdu/Header/Layout.antt =====
-- The octets of a header as table 5-1 lays them out, and that they are what is written.
use mathlib.Core.Path.{subst₂}
use embedded_cfdp.Base.{
  ℕ, ◌+◌, ◌-◌, ◌*◌, ◌^◌, ◌≤◌, ◌<◌, ◌≡◌, ◌≢◌, ◌⊎◌, ◌∙◌, arith, List, [], ◌∷◌, ◌++◌, some, length,
  length-append,
}
use embedded_cfdp.Common.{protocol_version, IsIdLen}
use embedded_cfdp.Endian.Octets.{be_octets, length-be_octets}
use embedded_cfdp.Buffer.Overlay.{overlay, Wrote, Wrote-nothing, Wrote-octet, Wrote-uint}
use embedded_cfdp.Pdu.Header.{
  Header, id_len_valid, pack_octet0, pack_octet3, header_size, header_write, header_serialize,
}
use embedded_cfdp.Pdu.Header.Flags.{pack_octet0_sum, pack_octet3_sum, segment_flag}

-- A header that can be sent: every field fits its place on the wire.
pub record IsHeader (h : Header) : Type 0 where
  pub version : h.version ≡ protocol_version
  pub pdu_type : h.pdu_type < 2
  pub direction : h.direction < 2
  pub transmission_mode : h.transmission_mode < 2
  pub crc_flag : h.crc_flag < 2
  pub large_file_flag : h.large_file_flag < 2
  pub data_field_length : h.data_field_length < 2 ^ 16
  pub segmentation_control : h.segmentation_control < 2
  pub segment_metadata_flag : h.segment_metadata_flag < 2
  pub entity_id_length : IsIdLen h.entity_id_length
  pub transaction_seq_length : IsIdLen h.transaction_seq_length
  pub source_entity_id : h.source_entity_id < 256 ^ h.entity_id_length
  pub transaction_seq_number : h.transaction_seq_number < 256 ^ h.transaction_seq_length
  pub destination_entity_id : h.destination_entity_id < 256 ^ h.entity_id_length

unfoldable pub first_octet : Header → ℕ
first_octet h =
    h.version * 32
    + h.pdu_type * 16
    + h.direction * 8
    + h.transmission_mode * 4
    + h.crc_flag * 2
    + h.large_file_flag

unfoldable pub fourth_octet : Header → ℕ
fourth_octet h =
    segment_flag h.pdu_type h.segmentation_control * 128
    + (h.entity_id_length - 1) * 16
    + segment_flag h.pdu_type h.segment_metadata_flag * 8
    + (h.transaction_seq_length - 1)

abbrev pub octets_with : ℕ → ℕ → Header → List ℕ
octets_with first fourth h =
    (first ∷ [])
    ++ be_octets 2 h.data_field_length
    ++ (fourth ∷ [])
    ++ be_octets h.entity_id_length h.source_entity_id
    ++ be_octets h.transaction_seq_length h.transaction_seq_number
    ++ be_octets h.entity_id_length h.destination_entity_id

unfoldable pub header_octets : Header → List ℕ
header_octets h = octets_with (first_octet h) (fourth_octet h) h

unfoldable pub size_of : Header → ℕ
size_of h = 4 + 2 * h.entity_id_length + h.transaction_seq_length

pub length-header_octets : (h : Header) → length (header_octets h) ≡ size_of h
unfolding header_octets size_of
length-header_octets h =
    let fixed = (first_octet h ∷ be_octets 2 h.data_field_length) ++ (fourth_octet h ∷ []) in
    let source = be_octets h.entity_id_length h.source_entity_id in
    let number = be_octets h.transaction_seq_length h.transaction_seq_number in
    let destination = be_octets h.entity_id_length h.destination_entity_id in
    omega (
      arith,
      length-append {0} (fixed ++ source ++ number) destination,
      length-append {0} (fixed ++ source) number,
      length-append {0} fixed source,
      length-append {0} (be_octets 2 h.data_field_length) (fourth_octet h ∷ []),
      length-be_octets 2 h.data_field_length,
      length-be_octets h.entity_id_length h.source_entity_id,
      length-be_octets h.transaction_seq_length h.transaction_seq_number,
      length-be_octets h.entity_id_length h.destination_entity_id,
    )

pub header_size_lem :
    (h : Header)
    → IsIdLen h.entity_id_length
    → IsIdLen h.transaction_seq_length
    → header_size (some h) ≡ size_of h
unfolding header_size id_len_valid size_of
header_size_lem h k l = ground arith

first_octet_lem : (h : Header) → IsHeader h → pack_octet0 h ≡ first_octet h
unfolding first_octet
first_octet_lem h ok = omega (arith, pack_octet0_sum h)

module _ (h : Header) (buf : List ℕ) (ok : IsHeader h) (room : size_of h ≤ length buf) where
  packed-Wrote :
      Wrote buf (octets_with (pack_octet0 h) (pack_octet3 h) h) (size_of h) (header_write h buf)
  unfolding header_write size_of
  packed-Wrote =
      let fixed =
        Wrote-octet (pack_octet3 h)
          (Wrote-uint h.data_field_length 2
            (Wrote-octet (pack_octet0 h) (Wrote-nothing buf) (omega arith)) (omega arith))
          (omega arith) in
      let ids =
        Wrote-uint h.destination_entity_id h.entity_id_length
          (Wrote-uint h.transaction_seq_number h.transaction_seq_length
            (Wrote-uint h.source_entity_id h.entity_id_length fixed (omega arith)) (omega arith))
          (omega arith) in
      record { count = ids.count ∙ omega arith; fits = room; octets = ids.octets }

  header_write-Wrote : Wrote buf (header_octets h) (size_of h) (header_write h buf)
  unfolding header_octets fourth_octet
  header_write-Wrote =
      subst₂ (λ a b. Wrote buf (octets_with a b h) (size_of h) (header_write h buf))
        (first_octet_lem h ok) (pack_octet3_sum h ok.entity_id_length ok.transaction_seq_length)
        packed-Wrote

-- A header that can be sent, and a buffer with room for it: the serialiser answers the header's
-- size and lays its octets out as the standard does, leaving what stands behind them alone.
pub header_serialize-octets :
    (h : Header) (buf : List ℕ) (buf_len : ℕ)
    → IsHeader h
    → size_of h ≤ buf_len
    → buf_len ≤ length buf
    → header_serialize (some h) (some buf) buf_len
      ≡ (size_of h, some (overlay (header_octets h) buf))
unfolding header_serialize size_of
header_serialize-octets h buf buf_len ok room inside = ground (
  arith,
  header_size_lem h ok.entity_id_length ok.transaction_seq_length,
  (header_write-Wrote h buf ok (omega arith)).octets,
)

-- A header with a version other than 1, an identifier length outside 1 to 8, or a buffer that
-- is too small is answered with 0, and the memory stays as it was.
pub header_serialize_refuses :
    (h : Header) (buf : List ℕ) (buf_len : ℕ)
    → (h.version ≢ protocol_version)
      ⊎ ¬ (IsIdLen h.entity_id_length)
      ⊎ ¬ (IsIdLen h.transaction_seq_length)
      ⊎ (buf_len < size_of h)
    → header_serialize (some h) (some buf) buf_len ≡ (0, some buf)
unfolding header_serialize header_size id_len_valid size_of
header_serialize_refuses h buf buf_len bad = ground arith
