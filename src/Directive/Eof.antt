-- ===== src/Directive/Eof.antt =====
-- The EOF PDU: `cfdp_eof_pdu_t` and its codec.
pub mod RoundTrip
pub mod Accepted
use embedded_cfdp.Base.{
  ℕ, ◌+◌, ◌-◌, List, Option, none, some, Bool, not, ◌&&◌, ◌||◌, ltb, ◌==◌, ◌!=◌, if◌then◌else◌,
  deref, set, get_or, drop, bit_and, u8, u32, ◌<<◌, ◌>>◌,
}
use embedded_cfdp.Buffer.{Pointer, put_uint, put_back, get_uint}
use embedded_cfdp.Common.{file_size_octets}
use embedded_cfdp.Common.DirectiveCode
use embedded_cfdp.Common.ConditionCode
use embedded_cfdp.Tlv.EntityId.{entity_id_tlv_serialize, entity_id_tlv_deserialize}

-- `cfdp_eof_pdu_t`
pub record Eof : Type 0 where
  pub condition_code : ℕ
  pub file_checksum : ℕ
  pub file_size : ℕ
  pub fault_location_entity_id : ℕ
  pub fault_location_len : ℕ

-- What `cfdp_eof_serialize` writes before the fault location.
unfoldable pub eof_write : Eof → ℕ → List ℕ → List ℕ
eof_write eof fs buf =
    let code = set buf 0 DirectiveCode.eof in
    let condition = set code 1 (u8 (bit_and (u8 eof.condition_code) 0xF << 4)) in
    put_uint (put_uint condition 2 eof.file_checksum 4) 6 eof.file_size fs

-- `cfdp_eof_serialize`
unfoldable pub eof_serialize : Option Eof → ℕ → Pointer → ℕ → ℕ × Pointer
eof_serialize (some eof) large_file_flag (some buf) buf_len =
    let with_fault_location = eof.condition_code != ConditionCode.no_error in
    let fs = file_size_octets large_file_flag in
    let size = fs + 6 in
    let fixed = eof_write eof fs buf in
    let (n, tail) =
      entity_id_tlv_serialize eof.fault_location_entity_id eof.fault_location_len
        (some (drop size fixed)) (buf_len - size) in
    let located = put_back fixed size tail in
    if (with_fault_location && (eof.fault_location_len == 0)) || ltb buf_len size
    then (0, some buf)
    else if not with_fault_location
    then (size, some fixed)
    else if n == 0
    then (0, some located)
    else (size + n, some located)
eof_serialize _ _ buf _ = (0, buf)

-- The fields that `cfdp_eof_deserialize` stores before it looks for a fault location.
unfoldable pub eof_read : List ℕ → ℕ → Eof
eof_read buf fs = record {
  condition_code = bit_and (get_or buf 1 0 >> 4) 0xF;
  file_checksum = u32 (get_uint buf 2 4);
  file_size = get_uint buf 6 fs;
  fault_location_entity_id = 0;
  fault_location_len = 0;
}

-- `cfdp_eof_deserialize`
unfoldable pub eof_deserialize : Pointer → ℕ → ℕ → Option Eof → ℕ × Option Eof
eof_deserialize (some buf) buf_len large_file_flag (some eof) =
    let fs = file_size_octets large_file_flag in
    let size = fs + 6 in
    let fixed = eof_read buf fs in
    let (n, entity_id, id_len) =
      entity_id_tlv_deserialize (some (drop size buf)) (buf_len - size)
        (some fixed.fault_location_entity_id) (some fixed.fault_location_len) in
    let located = record fixed {
      fault_location_entity_id = deref 0 entity_id;
      fault_location_len = deref 0 id_len;
    } in
    if ltb buf_len size || get_or buf 0 0 != DirectiveCode.eof
    then (0, some eof)
    else if buf_len == size
    then (size, some fixed)
    else if n == 0
    then (0, some located)
    else (size + n, some located)
eof_deserialize _ _ _ eof = (0, eof)
