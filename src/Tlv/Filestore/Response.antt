-- ===== src/Tlv/Filestore/Response.antt =====
-- The Filestore Response TLV: `cfdp_filestore_response_t` and its codec.
pub mod RoundTrip
pub mod Answers
pub mod Accepted
use embedded_cfdp.Base.{
  ℕ, ◌+◌, ◌-◌, List, [], Option, none, some, not, ◌||◌, ltb, ◌==◌, ◌!=◌, if◌then◌else◌, deref, set,
  get_or, drop, bit_and, bit_or, u8, ◌<<◌,
}
use embedded_cfdp.Buffer.{Pointer, put_back}
use embedded_cfdp.Tlv.{blank_tlv, tlv_header_len, tlv_deserialize, lv_serialize, lv_deserialize}
use embedded_cfdp.Tlv.TlvType
use embedded_cfdp.Tlv.Filestore.{
  filestore_action_valid, filestore_action_has_second_filename, filestore_tlv_action, Names,
  no_names, filestore_names_serialize, filestore_names_deserialize, filestore_tlv_finish,
}

-- `cfdp_filestore_response_t`
pub record FilestoreResponse : Type 0 where
  pub action_code : ℕ
  pub status_code : ℕ
  pub first_filename : Pointer
  pub first_filename_len : ℕ
  pub second_filename : Pointer
  pub second_filename_len : ℕ
  pub message : Pointer
  pub message_len : ℕ

-- `cfdp_filestore_response_tlv_serialize`
unfoldable pub filestore_response_tlv_serialize :
    Option FilestoreResponse → Pointer → ℕ → ℕ × Pointer
filestore_response_tlv_serialize (some resp) (some buf) buf_len =
    let codes =
      u8 (bit_or (bit_and (u8 resp.action_code) 0xF << 4) (bit_and (u8 resp.status_code) 0xF)) in
    let action = set buf 2 codes in
    let (n, tail) =
      filestore_names_serialize resp.first_filename resp.first_filename_len resp.second_filename
        resp.second_filename_len (filestore_action_has_second_filename resp.action_code)
        (drop 3 action) (buf_len - 3) in
    let named = put_back action 3 (some tail) in
    let pos = 3 + n in
    let (m, message_tail) =
      lv_serialize resp.message resp.message_len (some (drop pos named)) (buf_len - pos) in
    let whole = put_back named pos message_tail in
    let (end_pos, out) = filestore_tlv_finish whole TlvType.filestore_response (pos + m) in
    if ltb buf_len (tlv_header_len + 1) || not (filestore_action_valid resp.action_code)
    then (0, some buf)
    else if n == 0
    then (0, some named)
    else if m == 0
    then (0, some whole)
    else (end_pos, some out)
filestore_response_tlv_serialize _ buf _ = (0, buf)

-- The response with the codes, the names and the message that were read.
abbrev pub response_with : ℕ → ℕ → Names → Pointer → ℕ → FilestoreResponse
response_with action_code status_code names message message_len = record {
  action_code = action_code;
  status_code = status_code;
  first_filename = names.first;
  first_filename_len = names.first_len;
  second_filename = names.second;
  second_filename_len = names.second_len;
  message = message;
  message_len = message_len;
}

-- `cfdp_filestore_response_tlv_deserialize`
unfoldable pub filestore_response_tlv_deserialize :
    Pointer → ℕ → Option FilestoreResponse → ℕ × Option FilestoreResponse
filestore_response_tlv_deserialize buf buf_len none = (0, none)
filestore_response_tlv_deserialize buf buf_len (some resp) =
    let (k, out) = tlv_deserialize buf buf_len (some blank_tlv) in
    let tlv = deref blank_tlv out in
    let value = deref [] tlv.value in
    let action_code = filestore_tlv_action tlv in
    let status_code = bit_and (get_or value 0 0) 0xF in
    let (pos, names) =
      filestore_names_deserialize (drop 1 value) (tlv.length - 1)
        (filestore_action_has_second_filename action_code) no_names in
    let named = response_with action_code status_code names none 0 in
    let (n, message, message_len) =
      lv_deserialize (some (drop (1 + pos) value)) (tlv.length - 1 - pos) (some named.message)
        (some named.message_len) in
    let read =
      response_with action_code status_code names (deref none message) (deref 0 message_len) in
    if k == 0
      || tlv.type != TlvType.filestore_response
      || ltb tlv.length 1
      || not (filestore_action_valid action_code)
    then (0, some resp)
    else if pos == 0
    then (0, some named)
    else if n == 0 || pos + n + 1 != tlv.length
    then (0, some read)
    else (tlv.length + tlv_header_len, some read)
