-- ===== src/Tlv/EntityId.antt =====
-- The Entity ID TLV, which carries a fault location.
pub mod RoundTrip
use embedded_cfdp.Base.{
  ℕ, ◌+◌, List, [], Option, none, some, ◌||◌, ltb, ◌==◌, ◌!=◌, if◌then◌else◌, deref, set,
}
use embedded_cfdp.Buffer.{Pointer, put_uint}
use embedded_cfdp.Endian.{read_uint}
use embedded_cfdp.Common.{id_len_min, id_len_max}
use embedded_cfdp.Tlv.{Tlv, blank_tlv, tlv_header_len, tlv_deserialize}
use embedded_cfdp.Tlv.TlvType

-- `cfdp_entity_id_tlv_serialize`
unfoldable pub entity_id_tlv_serialize : ℕ → ℕ → Pointer → ℕ → ℕ × Pointer
entity_id_tlv_serialize entity_id id_len none buf_len = (0, none)
entity_id_tlv_serialize entity_id id_len (some buf) buf_len =
    if ltb id_len id_len_min || ltb id_len_max id_len || ltb buf_len (id_len + tlv_header_len)
    then (0, some buf)
    else let headed = set (set buf 0 TlvType.entity_id) 1 id_len in
      (id_len + tlv_header_len, some (put_uint headed tlv_header_len entity_id id_len))

-- `cfdp_entity_id_tlv_deserialize`
unfoldable pub entity_id_tlv_deserialize :
    Pointer → ℕ → Option ℕ → Option ℕ → ℕ × Option ℕ × Option ℕ
entity_id_tlv_deserialize buf buf_len (some entity_id) (some id_len) =
    let (n, out) = tlv_deserialize buf buf_len (some blank_tlv) in
    let tlv = deref blank_tlv out in
    if n == 0
      || tlv.type != TlvType.entity_id
      || ltb tlv.length id_len_min
      || ltb id_len_max tlv.length
    then (0, some entity_id, some id_len)
    else (
      tlv.length + tlv_header_len,
      some (read_uint (deref [] tlv.value) tlv.length),
      some tlv.length,
    )
entity_id_tlv_deserialize _ _ entity_id id_len = (0, entity_id, id_len)
