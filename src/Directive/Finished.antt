-- ===== src/Directive/Finished.antt =====
-- The Finished PDU: `cfdp_finished_pdu_t` and its codec. The loop over the TLV chain runs on
-- fuel; as each round consumes at least two octets, `buf_len` rounds are always enough.
pub mod Layout
pub mod Fuel
pub mod Chain
pub mod Reading
pub mod Parsing
pub mod RoundTrip
pub mod Rounds
pub mod Accepted
pub mod Invariant
pub mod Termination
use embedded_cfdp.Base.{
  ℕ, zero, suc, ◌+◌, ◌-◌, List, [], Option, none, some, Bool, true, false, not, ◌&&◌, ◌||◌, ltb,
  ◌==◌, ◌!=◌, if◌then◌else◌, is_null, deref, set, get_or, drop, bit_and, bit_or, u8, u16, ◌<<◌,
  ◌>>◌,
}
use embedded_cfdp.Buffer.{Pointer, put_octets, put_back}
use embedded_cfdp.Common.DirectiveCode
use embedded_cfdp.Common.ConditionCode
use embedded_cfdp.Tlv.{Tlv, blank_tlv, tlv_deserialize}
use embedded_cfdp.Tlv.TlvType
use embedded_cfdp.Tlv.EntityId.{entity_id_tlv_serialize, entity_id_tlv_deserialize}

-- `cfdp_finished_pdu_t`
pub record Finished : Type 0 where
  pub condition_code : ℕ
  pub delivery_code : ℕ
  pub file_status : ℕ
  pub filestore_responses : Pointer
  pub filestore_responses_len : ℕ
  pub fault_location_entity_id : ℕ
  pub fault_location_len : ℕ

-- `cfdp_fault_location_required`
unfoldable pub fault_location_required : ℕ → Bool
fault_location_required condition_code =
    condition_code != ConditionCode.no_error
    && condition_code != ConditionCode.unsupported_checksum_type

-- The two octets that `cfdp_finished_serialize` writes first.
unfoldable pub finished_write : Finished → List ℕ → List ℕ
finished_write fin buf = set (set buf 0 DirectiveCode.finished) 1 (
    u8 (
      bit_or
        (bit_or (bit_and (u8 fin.condition_code) 0xF << 4)
          (bit_and (u8 fin.delivery_code) 0x1 << 2))
        (bit_and (u8 fin.file_status) 0x3)))

-- `cfdp_finished_serialize`
unfoldable pub finished_serialize : Option Finished → Pointer → ℕ → ℕ × Pointer
finished_serialize (some fin) (some buf) buf_len =
    let len = fin.filestore_responses_len in
    let with_fault_location = fault_location_required fin.condition_code in
    let fixed = finished_write fin buf in
    let copied =
      if ltb 0 len then put_octets fixed 2 (deref [] fin.filestore_responses) len else fixed in
    let pos = 2 + len in
    let (n, tail) =
      entity_id_tlv_serialize fin.fault_location_entity_id fin.fault_location_len
        (some (drop pos copied)) (buf_len - pos) in
    let located = put_back copied pos tail in
    if ltb buf_len 2 || (is_null fin.filestore_responses && ltb 0 len)
    then (0, some buf)
    else if with_fault_location && (fin.fault_location_len == 0)
    then (0, some buf)
    else if ltb buf_len (2 + len)
    then (0, some buf)
    else if not with_fault_location
    then (pos, some copied)
    else if n == 0
    then (0, some located)
    else (pos + n, some located)
finished_serialize _ buf _ = (0, buf)

-- What one round of the loop in `cfdp_finished_parse_tlvs` does with the TLV at `pos`, which
-- takes `n` octets: whether the loop goes on, and the structure.
pub finished_tlv : List ℕ → ℕ → ℕ → ℕ → Tlv → Finished → Bool × Finished
finished_tlv buf buf_len pos n tlv fin =
    let (m, entity_id, id_len) =
      entity_id_tlv_deserialize (some (drop pos buf)) (buf_len - pos)
        (some fin.fault_location_entity_id) (some fin.fault_location_len) in
    let located = record fin {
      fault_location_entity_id = deref 0 entity_id;
      fault_location_len = deref 0 id_len;
    } in
    let responded = record fin {
      filestore_responses = some (drop 2 buf);
      filestore_responses_len = u16 (pos + n - 2);
    } in
    if tlv.type == TlvType.filestore_response
    then if ltb 0 fin.fault_location_len then (false, fin) else (true, responded)
    else if tlv.type == TlvType.entity_id
    then if m == 0 then (false, located) else (true, located)
    else (false, fin)

-- The loop of `cfdp_finished_parse_tlvs`.
pub finished_parse_tlvs : ℕ → List ℕ → ℕ → ℕ → Finished → ℕ × Finished
finished_parse_tlvs zero buf buf_len pos fin = (0, fin)
finished_parse_tlvs (suc fuel) buf buf_len pos fin =
    let (n, out) = tlv_deserialize (some (drop pos buf)) (buf_len - pos) (some blank_tlv) in
    let (more, next) = finished_tlv buf buf_len pos n (deref blank_tlv out) fin in
    let rest = finished_parse_tlvs fuel buf buf_len (pos + n) next in
    if not (ltb pos buf_len)
    then (pos, fin)
    else if n == 0
    then (0, fin)
    else if not more
    then (0, next)
    else rest

-- The fields that `cfdp_finished_deserialize` stores before it reads the chain.
unfoldable pub finished_read : List ℕ → Finished
finished_read buf =
    let codes = get_or buf 1 0 in
    record {
      condition_code = bit_and (codes >> 4) 0xF;
      delivery_code = bit_and (codes >> 2) 0x1;
      file_status = bit_and codes 0x3;
      filestore_responses = none;
      filestore_responses_len = 0;
      fault_location_entity_id = 0;
      fault_location_len = 0;
    }

-- `cfdp_finished_deserialize`
unfoldable pub finished_deserialize : Pointer → ℕ → Option Finished → ℕ × Option Finished
finished_deserialize (some buf) buf_len (some fin) =
    let (n, out) = finished_parse_tlvs buf_len buf buf_len 2 (finished_read buf) in
    if ltb buf_len 2 || get_or buf 0 0 != DirectiveCode.finished
    then (0, some fin)
    else (n, some out)
finished_deserialize _ _ fin = (0, fin)
