-- ===== src/Tlv/Filestore/Request.antt =====
-- The Filestore Request TLV: `cfdp_filestore_request_t` and its codec.
pub mod RoundTrip
pub mod Answers
pub mod Accepted
use embedded_cfdp.Base.{
  ℕ, ◌+◌, ◌-◌, List, [], Option, none, some, not, ◌||◌, ltb, ◌==◌, ◌!=◌, if◌then◌else◌, deref, set,
  drop, bit_and, u8, ◌<<◌,
}
use embedded_cfdp.Buffer.{Pointer, put_back}
use embedded_cfdp.Tlv.{blank_tlv, tlv_header_len, tlv_deserialize}
use embedded_cfdp.Tlv.TlvType
use embedded_cfdp.Tlv.Filestore.{
  filestore_action_valid, filestore_action_has_second_filename, filestore_tlv_action, Names,
  no_names, filestore_names_serialize, filestore_names_deserialize, filestore_tlv_finish,
}

-- `cfdp_filestore_request_t`
pub record FilestoreRequest : Type 0 where
  pub action_code : ℕ
  pub first_filename : Pointer
  pub first_filename_len : ℕ
  pub second_filename : Pointer
  pub second_filename_len : ℕ

-- `cfdp_filestore_request_tlv_serialize`
unfoldable pub filestore_request_tlv_serialize : Option FilestoreRequest → Pointer → ℕ → ℕ × Pointer
filestore_request_tlv_serialize (some req) (some buf) buf_len =
    let action = set buf 2 (u8 (bit_and (u8 req.action_code) 0xF << 4)) in
    let (n, tail) =
      filestore_names_serialize req.first_filename req.first_filename_len req.second_filename
        req.second_filename_len (filestore_action_has_second_filename req.action_code)
        (drop 3 action) (buf_len - 3) in
    let named = put_back action 3 (some tail) in
    let (end_pos, out) = filestore_tlv_finish named TlvType.filestore_request (3 + n) in
    if ltb buf_len (tlv_header_len + 1) || not (filestore_action_valid req.action_code)
    then (0, some buf)
    else if n == 0
    then (0, some named)
    else (end_pos, some out)
filestore_request_tlv_serialize _ buf _ = (0, buf)

-- The request with the names that were read.
abbrev pub request_with : ℕ → Names → FilestoreRequest
request_with action_code names = record {
  action_code = action_code;
  first_filename = names.first;
  first_filename_len = names.first_len;
  second_filename = names.second;
  second_filename_len = names.second_len;
}

-- `cfdp_filestore_request_tlv_deserialize`
unfoldable pub filestore_request_tlv_deserialize :
    Pointer → ℕ → Option FilestoreRequest → ℕ × Option FilestoreRequest
filestore_request_tlv_deserialize buf buf_len none = (0, none)
filestore_request_tlv_deserialize buf buf_len (some req) =
    let (m, out) = tlv_deserialize buf buf_len (some blank_tlv) in
    let tlv = deref blank_tlv out in
    let action_code = filestore_tlv_action tlv in
    let (n, names) =
      filestore_names_deserialize (drop 1 (deref [] tlv.value)) (tlv.length - 1)
        (filestore_action_has_second_filename action_code) no_names in
    let read = request_with action_code names in
    if m == 0
      || tlv.type != TlvType.filestore_request
      || ltb tlv.length 1
      || not (filestore_action_valid action_code)
    then (0, some req)
    else if n == 0 || n + 1 != tlv.length
    then (0, some read)
    else (tlv.length + tlv_header_len, some read)
