-- ===== src/Tlv.antt =====
-- src/cfdp_tlv.c, the LV and TLV objects. A serialiser returns its result with the memory behind
-- `buf`, a deserialiser with what its out parameters then point to. A read outside an object
-- would give 0; `buf_len - pos` is taken only where `pos` is at most `buf_len`.
pub mod TlvType
pub mod Lv
pub mod Object
pub mod EntityId
pub mod FaultHandler
pub mod Filestore
pub mod Bounds
pub mod Codes
use embedded_cfdp.Base.{
  ℕ, ◌+◌, List, [], ◌∷◌, Option, none, some, Bool, true, false, ◌&&◌, ◌||◌, ltb, ◌==◌,
  if◌then◌else◌, is_null, deref, get_or, set, drop,
}
use embedded_cfdp.Buffer.{Pointer, put_octets}

abbrev pub lv_header_len : ℕ
lv_header_len = 1

abbrev pub tlv_header_len : ℕ
tlv_header_len = 2

-- `cfdp_tlv_t`
pub record Tlv : Type 0 where
  pub type : ℕ
  pub length : ℕ
  pub value : Pointer

-- A local `cfdp_tlv_t` before anything is stored in it; no result depends on it.
abbrev pub blank_tlv : Tlv
blank_tlv = record { type = 0; length = 0; value = none }

-- `cfdp_lv_serialize`
pub lv_serialize : Pointer → ℕ → Pointer → ℕ → ℕ × Pointer
lv_serialize value value_len none buf_len = (0, none)
lv_serialize value value_len (some buf) buf_len =
    if (is_null value && ltb 0 value_len) || ltb buf_len (value_len + lv_header_len)
    then (0, some buf)
    else let headed = set buf 0 value_len in
      let whole = put_octets headed lv_header_len (deref [] value) value_len in
      (value_len + lv_header_len, some (if ltb 0 value_len then whole else headed))

-- `cfdp_lv_deserialize`
pub lv_deserialize : Pointer → ℕ → Option Pointer → Option ℕ → ℕ × Option Pointer × Option ℕ
lv_deserialize (some buf) buf_len (some value) (some value_len) =
    let len = get_or buf 0 0 in
    if ltb buf_len lv_header_len
    then (0, some value, some value_len)
    else if ltb buf_len (len + lv_header_len)
    then (0, some value, some value_len)
    else (
      len + lv_header_len,
      some (if ltb 0 len then some (drop lv_header_len buf) else none),
      some len,
    )
lv_deserialize _ _ value value_len = (0, value, value_len)

-- `cfdp_tlv_serialize`
pub tlv_serialize : Option Tlv → Pointer → ℕ → ℕ × Pointer
tlv_serialize (some tlv) (some buf) buf_len =
    if (is_null tlv.value && ltb 0 tlv.length) || ltb buf_len (tlv.length + tlv_header_len)
    then (0, some buf)
    else let headed = set (set buf 0 tlv.type) 1 tlv.length in
      let whole = put_octets headed tlv_header_len (deref [] tlv.value) tlv.length in
      (tlv.length + tlv_header_len, some (if ltb 0 tlv.length then whole else headed))
tlv_serialize _ buf _ = (0, buf)

-- `cfdp_tlv_deserialize`
pub tlv_deserialize : Pointer → ℕ → Option Tlv → ℕ × Option Tlv
tlv_deserialize (some buf) buf_len (some tlv) =
    let length = get_or buf 1 0 in
    if ltb buf_len tlv_header_len
    then (0, some tlv)
    else if ltb buf_len (length + tlv_header_len)
    then (0, some tlv)
    else (
      length + tlv_header_len,
      some (record {
        type = get_or buf 0 0;
        length = length;
        value = if ltb 0 length then some (drop tlv_header_len buf) else none;
      }),
    )
tlv_deserialize _ _ tlv = (0, tlv)
