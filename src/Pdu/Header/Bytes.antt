-- ===== src/Pdu/Header/Bytes.antt =====
-- A header that can be sent is laid out in octets.
use embedded_cfdp.Base.{arith, List, [], ◌∷◌, ◌++◌, All, All-append, IsByte}
use embedded_cfdp.Base.{ℕ}
use embedded_cfdp.Endian.Octets.{be_octets, be_octets-IsByte}
use embedded_cfdp.Pdu.Header.{Header}
use embedded_cfdp.Pdu.Header.Layout.{IsHeader, first_octet, fourth_octet, header_octets}

first_octet-IsByte : (h : Header) → IsHeader h → IsByte (first_octet h)
unfolding first_octet
first_octet-IsByte h ok = omega (
  arith, ok.version, ok.pdu_type, ok.direction, ok.transmission_mode, ok.crc_flag,
  ok.large_file_flag,
)

fourth_octet-IsByte : (h : Header) → IsHeader h → IsByte (fourth_octet h)
unfolding fourth_octet
fourth_octet-IsByte h ok = ground (
  arith, ok.segmentation_control, ok.segment_metadata_flag, ok.entity_id_length,
  ok.transaction_seq_length,
)

abbrev fixed_part : Header → List ℕ
fixed_part h = (first_octet h ∷ be_octets 2 h.data_field_length) ++ (fourth_octet h ∷ [])

fixed_part-IsByte : (h : Header) → IsHeader h → All IsByte (fixed_part h)
fixed_part-IsByte h ok =
    All-append IsByte (first_octet h ∷ be_octets 2 h.data_field_length) (fourth_octet h ∷ [])
      (first_octet-IsByte h ok, be_octets-IsByte 2 h.data_field_length)
      (fourth_octet-IsByte h ok, tt)

append_number : (n v : ℕ) (xs : List ℕ) → All IsByte xs → All IsByte (xs ++ be_octets n v)
append_number n v xs h = All-append IsByte xs (be_octets n v) h (be_octets-IsByte n v)

pub header_octets-IsByte : (h : Header) → IsHeader h → All IsByte (header_octets h)
unfolding header_octets
header_octets-IsByte h ok =
    let source = fixed_part h ++ be_octets h.entity_id_length h.source_entity_id in
    let numbered = source ++ be_octets h.transaction_seq_length h.transaction_seq_number in
    append_number h.entity_id_length h.destination_entity_id numbered (
      append_number h.transaction_seq_length h.transaction_seq_number source (
        append_number h.entity_id_length h.source_entity_id (fixed_part h)
          (fixed_part-IsByte h ok)))
