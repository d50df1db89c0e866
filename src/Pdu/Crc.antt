-- ===== src/Pdu/Crc.antt =====
-- `cfdp_pdu_payload_size`, `cfdp_pdu_crc_append` and `cfdp_pdu_crc_verify`.
pub mod Residue
pub mod Append
pub mod Corruption
use embedded_cfdp.Base.{
  ℕ, ◌+◌, ◌-◌, List, Option, none, some, Bool, true, false, ◌||◌, ltb, ◌==◌, ◌!=◌, if◌then◌else◌,
  deref, u16, u64,
}
use embedded_cfdp.Buffer.{Pointer, put_uint, get_uint}
use embedded_cfdp.Common.{pdu_crc_len, crc_present}
use embedded_cfdp.Crc.{crc_compute}
use embedded_cfdp.Pdu.Header.{Header, blank_header, header_size, header_deserialize}

-- `cfdp_pdu_payload_size`
unfoldable pub payload_size : Option Header → ℕ
payload_size none = 0
payload_size (some hdr) =
    if hdr.crc_flag != crc_present
    then hdr.data_field_length
    else if ltb hdr.data_field_length pdu_crc_len
    then 0
    else hdr.data_field_length - pdu_crc_len

-- `cfdp_pdu_crc_append`
unfoldable pub crc_append : Pointer → ℕ → ℕ → ℕ × Pointer
crc_append none pdu_len buf_len = (0, none)
crc_append (some buf) pdu_len buf_len =
    let (hsize, out) = header_deserialize (some buf) pdu_len (some blank_header) in
    let hdr = deref blank_header out in
    let complete = u64 (pdu_len + pdu_crc_len) in
    let described = header_size (some hdr) + hdr.data_field_length in
    if hsize == 0 || hdr.crc_flag != crc_present || ltb buf_len complete
    then (0, some buf)
    else if described != complete
    then (0, some buf)
    else (complete, some (put_uint buf pdu_len (crc_compute (some buf) pdu_len) pdu_crc_len))

-- The last tests of `cfdp_pdu_crc_verify`, on a PDU of `total` octets with the CRC flag set.
unfoldable pub crc_matches : List ℕ → ℕ → Bool
crc_matches buf total =
    let protected_len = total - pdu_crc_len in
    let expected = crc_compute (some buf) protected_len in
    let received = u16 (get_uint buf protected_len pdu_crc_len) in expected == received

-- `cfdp_pdu_crc_verify`
unfoldable pub crc_verify : Pointer → ℕ → Bool
crc_verify none buf_len = false
crc_verify (some buf) buf_len =
    let (hsize, out) = header_deserialize (some buf) buf_len (some blank_header) in
    let hdr = deref blank_header out in
    let total = hsize + hdr.data_field_length in
    if hsize == 0
    then false
    else if ltb buf_len total
    then false
    else if hdr.crc_flag != crc_present
    then true
    else if ltb hdr.data_field_length pdu_crc_len
    then false
    else crc_matches buf total
