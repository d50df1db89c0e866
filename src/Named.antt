-- ===== src/Named.antt =====
-- Codes that a decoder stores in a field of an enumeration are values of its members.
use native.Mathlib.Decide.{ℕ_discrete}
use embedded_cfdp.Base.{
  ℕ, ◌^◌, ◌≤◌, ◌<◌, ◌≡◌, ◌⊎◌, inl, inr, bool_cases, ltb, ◌||◌, ◌!=◌, refl, ap, sym, arith, List,
  some, true, deref, length, All, IsByte, get_or, ◌>>◌,
}
use embedded_cfdp.Base.Bits.{bit_and-mask}
use embedded_cfdp.Common.Enumeration.{Named, covered-Named}
use embedded_cfdp.Common.Enumeration.Flags.{
  PduType, Direction, TransmissionMode, CrcFlag, LargeFileFlag, SegCtrl, SegMetadataFlag,
  pdu_type_enumeration, direction_enumeration, transmission_mode_enumeration, crc_flag_enumeration,
  large_file_flag_enumeration, seg_ctrl_enumeration, seg_metadata_flag_enumeration,
  record_continuation_enumeration,
}
use embedded_cfdp.Common.DirectiveCode
use embedded_cfdp.Common.Enumeration.Codes.{
  Directive, Condition, eof, finished, directive_enumeration, condition_enumeration,
}
use embedded_cfdp.Common.Enumeration.Outcomes.{
  DeliveryCode, FileStatus, TransactionStatus, PromptResponse, delivery_code_enumeration,
  file_status_enumeration, transaction_status_enumeration, prompt_response_enumeration,
}
use embedded_cfdp.Tlv.Codes.{FaultHandlerCode, fault_handler_code_enumeration}
use embedded_cfdp.Tlv.FaultHandler.{fault_handler_tlv_deserialize}
use embedded_cfdp.Tlv.FaultHandler.RoundTrip.{fault_handler_tlv_deserialize_cases}
use embedded_cfdp.Directive.Ack.{Ack, ack_directive_valid, ack_deserialize}
use embedded_cfdp.Directive.Ack.RoundTrip.{ack_deserialize_cases}
use embedded_cfdp.Directive.Prompt.{prompt_deserialize}
use embedded_cfdp.Directive.Finished.{Finished, finished_read, finished_deserialize}
use embedded_cfdp.Directive.Finished.Invariant.{finished_deserialize-IsState}
use embedded_cfdp.Pdu.Header.{Header, header_deserialize}
use embedded_cfdp.Pdu.Header.Layout.{IsHeader}
use embedded_cfdp.Pdu.Header.Decoded.{IsIn, decoded-IsIn}
use embedded_cfdp.Pdu.Header.Accepted.{header_deserialize_cases}

-- Every enumerated field of the header names a member.
pub record NamedHeader (h : Header) : Type 0 where
  pub pdu_type : Named PduType h.pdu_type
  pub direction : Named Direction h.direction
  pub transmission_mode : Named TransmissionMode h.transmission_mode
  pub crc_flag : Named CrcFlag h.crc_flag
  pub large_file_flag : Named LargeFileFlag h.large_file_flag
  pub segmentation_control : Named SegCtrl h.segmentation_control
  pub segment_metadata_flag : Named SegMetadataFlag h.segment_metadata_flag

IsHeader-NamedHeader : (h : Header) → IsHeader h → NamedHeader h
IsHeader-NamedHeader h ok = record {
  pdu_type = covered-Named 2 h.pdu_type refl ok.pdu_type;
  direction = covered-Named 2 h.direction refl ok.direction;
  transmission_mode = covered-Named 2 h.transmission_mode refl ok.transmission_mode;
  crc_flag = covered-Named 2 h.crc_flag refl ok.crc_flag;
  large_file_flag = covered-Named 2 h.large_file_flag refl ok.large_file_flag;
  segmentation_control = covered-Named 2 h.segmentation_control refl ok.segmentation_control;
  segment_metadata_flag = covered-Named 2 h.segment_metadata_flag refl ok.segment_metadata_flag;
}

-- Octets, buf_len of which are in the buffer: the header decoder answers 0, or the header that it
-- stores stands in the octets: each flag is the bit of the first or the fourth octet that has its
-- place, the segment flags are 0 in a File Directive, the lengths of identifiers are one more
-- than their bits, and the numbers are the octets behind, most significant first; and each flag
-- is the value of a member of its enumeration.
pub header_deserialize-NamedHeader :
    (buf : List ℕ) (buf_len : ℕ) (old : Header)
    → buf_len ≤ length buf
    → All IsByte buf
    → let (n, out) = header_deserialize (some buf) buf_len (some old) in
      (n ≡ 0) ⊎ (NamedHeader (deref old out) × IsIn buf (deref old out))
header_deserialize-NamedHeader buf buf_len old inside bytes =
    elim (header_deserialize_cases buf buf_len old inside bytes) [
      | inl refused ↦ inl refused
      | inr (h, e, ok, room, _) ↦
          let found = decoded-IsIn buf bytes buf_len old h e (omega arith) in
          inr (rw e (IsHeader-NamedHeader h ok, found))
    ]

acknowledged-Named : (code : ℕ) → ack_directive_valid code ≡ true → Named Directive code
unfolding ack_directive_valid
acknowledged-Named code valid = elim (ℕ_discrete code 4) [
  | yes is ↦ (eof, sym is)
  | no other ↦ (finished, ground arith)
]

ack-Named :
    (buf : List ℕ) (buf_len : ℕ) (old : Ack)
    → buf_len ≤ length buf
    → All IsByte buf
    → let (n, out) = ack_deserialize (some buf) buf_len (some old) in
      (n ≡ 0)
      ⊎ (Named Directive (deref old out).ack_directive_code
          × Named TransactionStatus (deref old out).transaction_status)
ack-Named buf buf_len old inside bytes = elim (ack_deserialize_cases buf buf_len old inside bytes) [
  | inl (refused, _) ↦ inl (ap (λ r. r.0) refused)
  | inr accepted ↦
      let (ack, e, ok, _, _) = accepted in
      inr (
        rw e (
          acknowledged-Named ack.ack_directive_code ok.ack_directive_code,
          covered-Named 4 ack.transaction_status refl ok.transaction_status,
        ))
]

prompt-Named :
    (buf : List ℕ) (buf_len old : ℕ)
    → let (n, out) = prompt_deserialize (some buf) buf_len (some old) in
      (n ≡ 0) ⊎ Named PromptResponse (deref old out)
unfolding prompt_deserialize
prompt-Named buf buf_len old =
    elim (bool_cases (ltb buf_len 2 || get_or buf 0 0 != DirectiveCode.prompt)) [
      | inl refused ↦ inl (rw refused refl)
      | inr accepted ↦ inr (
          rw accepted
            (covered-Named 2 _ refl (omega (arith, bit_and-mask 1 (get_or buf 1 0 >> 7)))))
    ]

override-Named :
    (buf : List ℕ) (buf_len old older : ℕ)
    → buf_len ≤ length buf
    → All IsByte buf
    → let (n, condition, handler) =
        fault_handler_tlv_deserialize (some buf) buf_len (some old) (some older) in
      (n ≡ 0)
      ⊎ (Named Condition (deref old condition) × Named FaultHandlerCode (deref older handler))
override-Named buf buf_len old older inside bytes =
    elim (fault_handler_tlv_deserialize_cases buf buf_len old older inside bytes) [
      | inl (refused, _) ↦ inl (ap (λ r. r.0) refused)
      | inr accepted ↦
          let (condition, handler, e, ok) = accepted in
          inr (
            rw e (
              covered-Named 12 condition refl (omega (arith, ok.condition)),
              covered-Named 5 handler refl (omega (arith, ok.handler)),
            ))
    ]

finished_stores :
    (buf : List ℕ) (buf_len : ℕ) (old : Finished)
    → let r = finished_deserialize (some buf) buf_len (some old) in r ≡ (r.0, some (deref old r.1))
unfolding finished_deserialize
finished_stores buf buf_len old = ground arith

finished-Named :
    (buf : List ℕ) (buf_len : ℕ) (old : Finished)
    → buf_len ≤ length buf
    → All IsByte buf
    → buf_len < 2 ^ 16
    → let (n, out) = finished_deserialize (some buf) buf_len (some old) in
      (n ≡ 0)
      ⊎ (Named DeliveryCode (deref old out).delivery_code
          × Named FileStatus (deref old out).file_status)
unfolding finished_read
finished-Named buf buf_len old inside bytes small =
    let (n, out) = finished_deserialize (some buf) buf_len (some old) in
    elim (ℕ_discrete n 0) [
      | yes none_read ↦ inl none_read
      | no ne ↦
          let (_, i) =
            finished_deserialize-IsState buf buf_len old (deref old out) n inside bytes small
              (finished_stores buf buf_len old) ne in
          let (_, delivery, status) = i.fixed in
          inr (
            covered-Named 2 _ refl (omega (arith, delivery, bit_and-mask 1 (get_or buf 1 0 >> 2))),
            covered-Named 4 _ refl (omega (arith, status, bit_and-mask 2 (get_or buf 1 0))),
          )
    ]

-- Octets, `buf_len` of which are in the buffer, fewer than 2 ^ 16: each of the decoders of the
-- ACK, the Prompt and the Finished PDU and of the Fault Handler Override answers 0, or the codes
-- that it stores, the condition codes of ACK and Finished apart, are values of members of their
-- enumerations.
pub decoded_codes-Named :
    (buf : List ℕ) (buf_len : ℕ) (ack : Ack) (fin : Finished) (old older : ℕ)
    → buf_len ≤ length buf
    → All IsByte buf
    → buf_len < 2 ^ 16
    → (let (n, out) = ack_deserialize (some buf) buf_len (some ack) in
        (n ≡ 0)
        ⊎ (Named Directive (deref ack out).ack_directive_code
            × Named TransactionStatus (deref ack out).transaction_status))
      × (let (n, out) = prompt_deserialize (some buf) buf_len (some old) in
          (n ≡ 0) ⊎ Named PromptResponse (deref old out))
      × (let (n, out) = finished_deserialize (some buf) buf_len (some fin) in
          (n ≡ 0)
          ⊎ (Named DeliveryCode (deref fin out).delivery_code
              × Named FileStatus (deref fin out).file_status))
      × (let (n, condition, handler) =
            fault_handler_tlv_deserialize (some buf) buf_len (some old) (some older) in
          (n ≡ 0)
          ⊎ (Named Condition (deref old condition) × Named FaultHandlerCode (deref older handler)))
decoded_codes-Named buf buf_len ack fin old older inside bytes small = (
  ack-Named buf buf_len ack inside bytes,
  prompt-Named buf buf_len old,
  finished-Named buf buf_len fin inside bytes small,
  override-Named buf buf_len old older inside bytes,
)
