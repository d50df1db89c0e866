-- ===== src/Tlv/FaultHandler.antt =====
-- The Fault Handler Override TLV.
pub mod RoundTrip
use embedded_cfdp.Base.{
  ℕ, ◌+◌, List, [], Option, none, some, Bool, not, ◌&&◌, ◌||◌, ltb, leb, ◌==◌, ◌!=◌, if◌then◌else◌,
  deref, set, get_or, bit_and, bit_or, u8, ◌<<◌, ◌>>◌,
}
use embedded_cfdp.Buffer.{Pointer}
use embedded_cfdp.Common.ConditionCode
use embedded_cfdp.Tlv.{blank_tlv, tlv_header_len, tlv_deserialize}
use embedded_cfdp.Tlv.TlvType

-- `cfdp_fault_handler_code_t`
abbrev pub handler_notice_of_cancellation : ℕ
handler_notice_of_cancellation = 1

abbrev pub handler_abandon_transaction : ℕ
handler_abandon_transaction = 4

-- `cfdp_fault_condition_valid`
unfoldable pub fault_condition_valid : ℕ → Bool
fault_condition_valid condition_code =
    leb ConditionCode.positive_ack_limit_reached condition_code
    && leb condition_code ConditionCode.unsupported_checksum_type

-- `cfdp_fault_handler_valid`
unfoldable pub fault_handler_valid : ℕ → Bool
fault_handler_valid handler_code =
    leb handler_notice_of_cancellation handler_code && leb handler_code handler_abandon_transaction

-- `cfdp_fault_handler_tlv_serialize`
unfoldable pub fault_handler_tlv_serialize : ℕ → ℕ → Pointer → ℕ → ℕ × Pointer
fault_handler_tlv_serialize condition_code handler_code none buf_len = (0, none)
fault_handler_tlv_serialize condition_code handler_code (some buf) buf_len =
    let headed = set (set buf 0 TlvType.fault_handler_override) 1 1 in
    let codes =
      u8 (bit_or (bit_and (u8 condition_code) 0xF << 4) (bit_and (u8 handler_code) 0xF)) in
    if ltb buf_len (tlv_header_len + 1)
      || not (fault_condition_valid condition_code)
      || not (fault_handler_valid handler_code)
    then (0, some buf)
    else (tlv_header_len + 1, some (set headed 2 codes))

-- `cfdp_fault_handler_tlv_deserialize`
unfoldable pub fault_handler_tlv_deserialize :
    Pointer → ℕ → Option ℕ → Option ℕ → ℕ × Option ℕ × Option ℕ
fault_handler_tlv_deserialize buf buf_len (some condition_code) (some handler_code) =
    let (n, out) = tlv_deserialize buf buf_len (some blank_tlv) in
    let tlv = deref blank_tlv out in
    let codes = get_or (deref [] tlv.value) 0 0 in
    let condition = bit_and (codes >> 4) 0xF in
    let handler = bit_and codes 0xF in
    if n == 0 || tlv.type != TlvType.fault_handler_override || tlv.length != 1
    then (0, some condition_code, some handler_code)
    else if not (fault_condition_valid condition) || not (fault_handler_valid handler)
    then (0, some condition_code, some handler_code)
    else (tlv_header_len + 1, some condition, some handler)
fault_handler_tlv_deserialize _ _ condition_code handler_code = (0, condition_code, handler_code)
