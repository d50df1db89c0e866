-- ===== src/Pdu/Header/Fields.antt =====
-- The fields of a header, taken out of its two octets of flags.
use embedded_cfdp.Base.{◌+◌, ◌≡◌, ap, ◌∙◌, arith, u8, bit_and, ◌>>◌}
use embedded_cfdp.Base.Bits.{bit_and-mask}
use embedded_cfdp.Pdu.Header.{Header, segment_flags_mask}
use embedded_cfdp.Pdu.Header.Flags.{segment_flag, masked_flag}
use embedded_cfdp.Pdu.Header.Layout.{IsHeader, first_octet, fourth_octet}

module _ (h : Header) (ok : IsHeader h) where
  pub version_field : u8 (bit_and (first_octet h >> 5) 0x7) ≡ h.version
  unfolding first_octet
  version_field = omega (arith, bit_and-mask 3 (first_octet h >> 5))

  pub pdu_type_field : bit_and (first_octet h >> 4) 0x1 ≡ h.pdu_type
  unfolding first_octet
  pdu_type_field = omega (arith, bit_and-mask 1 (first_octet h >> 4))

  pub direction_field : bit_and (first_octet h >> 3) 0x1 ≡ h.direction
  unfolding first_octet
  direction_field = omega (arith, bit_and-mask 1 (first_octet h >> 3))

  pub transmission_mode_field : bit_and (first_octet h >> 2) 0x1 ≡ h.transmission_mode
  unfolding first_octet
  transmission_mode_field = omega (arith, bit_and-mask 1 (first_octet h >> 2))

  pub crc_flag_field : bit_and (first_octet h >> 1) 0x1 ≡ h.crc_flag
  unfolding first_octet
  crc_flag_field = omega (arith, bit_and-mask 1 (first_octet h >> 1))

  pub large_file_flag_field : bit_and (first_octet h) 0x1 ≡ h.large_file_flag
  unfolding first_octet
  large_file_flag_field = omega (arith, bit_and-mask 1 (first_octet h))

  pub segmentation_control_field :
      bit_and (fourth_octet h >> 7) (segment_flags_mask (bit_and (first_octet h >> 4) 0x1))
      ≡ segment_flag h.pdu_type h.segmentation_control
  unfolding fourth_octet
  segmentation_control_field =
      ap (λ t. bit_and (fourth_octet h >> 7) (segment_flags_mask t)) pdu_type_field
      ∙ masked_flag h.pdu_type (fourth_octet h >> 7)
      ∙ ground (arith, ok.entity_id_length, ok.transaction_seq_length)

  pub segment_metadata_flag_field :
      bit_and (fourth_octet h >> 3) (segment_flags_mask (bit_and (first_octet h >> 4) 0x1))
      ≡ segment_flag h.pdu_type h.segment_metadata_flag
  unfolding fourth_octet
  segment_metadata_flag_field =
      ap (λ t. bit_and (fourth_octet h >> 3) (segment_flags_mask t)) pdu_type_field
      ∙ masked_flag h.pdu_type (fourth_octet h >> 3)
      ∙ ground (arith, ok.entity_id_length, ok.transaction_seq_length)

  pub entity_id_length_field : u8 (bit_and (fourth_octet h >> 4) 0x7 + 1) ≡ h.entity_id_length
  unfolding fourth_octet
  entity_id_length_field =
      ground (
        arith,
        bit_and-mask 3 (fourth_octet h >> 4),
        ok.entity_id_length,
        ok.transaction_seq_length,
      )

  pub transaction_seq_length_field :
      u8 (bit_and (fourth_octet h) 0x7 + 1) ≡ h.transaction_seq_length
  unfolding fourth_octet
  transaction_seq_length_field =
      ground
        (arith, bit_and-mask 3 (fourth_octet h), ok.entity_id_length, ok.transaction_seq_length)
