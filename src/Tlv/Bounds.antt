-- ===== src/Tlv/Bounds.antt =====
-- The serialisers of src/cfdp_tlv.c write inside the buffer that they are given.
use embedded_cfdp.Base.{ℕ, ◌+◌, ◌≤◌, arith, List, [], some, not, ◌||◌, ltb, deref, length}
use embedded_cfdp.Buffer.{Pointer}
use embedded_cfdp.Buffer.Frame.{
  Frame-same, Frame-set, Frame-put_uint, Frame-put_octets, Frame-if, Contained, done, refused,
}
use embedded_cfdp.Tlv.{Tlv, lv_serialize, tlv_serialize}
use embedded_cfdp.Tlv.EntityId.{entity_id_tlv_serialize}
use embedded_cfdp.Tlv.FaultHandler.{
  fault_condition_valid, fault_handler_valid, fault_handler_tlv_serialize,
}

pub lv-size :
    (value : Pointer) (value_len : ℕ) (buf : List ℕ) (buf_len : ℕ)
    → (lv_serialize value value_len (some buf) buf_len).0 ≤ value_len + 1
unfolding lv_serialize
lv-size value value_len buf buf_len = ground arith

module _ (buf : List ℕ) (buf_len : ℕ) (inside : buf_len ≤ length buf) where
  pub lv-Contained :
      (value : Pointer) (value_len : ℕ)
      → Contained buf_len buf (lv_serialize value value_len (some buf) buf_len)
  unfolding lv_serialize
  lv-Contained value value_len = refused _ (Frame-same buf_len buf) λ passed.
      let room : value_len + 1 ≤ buf_len = ground arith in
      let headed = Frame-set 0 value_len (Frame-same buf_len buf) (omega arith) in
      done _ _ room (
        Frame-if (ltb 0 value_len)
          (Frame-put_octets 1 (deref [] value) value_len headed (omega arith) inside) headed)

  pub tlv-Contained :
      (tlv : Tlv) → Contained buf_len buf (tlv_serialize (some tlv) (some buf) buf_len)
  unfolding tlv_serialize
  tlv-Contained tlv = refused _ (Frame-same buf_len buf) λ passed.
      let room : tlv.length + 2 ≤ buf_len = ground arith in
      let headed =
        Frame-set 1 tlv.length (Frame-set 0 tlv.type (Frame-same buf_len buf) (omega arith))
          (omega arith) in
      done _ _ room (
        Frame-if (ltb 0 tlv.length)
          (Frame-put_octets 2 (deref [] tlv.value) tlv.length headed (omega arith) inside) headed)

  pub entity_id_tlv-Contained :
      (entity_id id_len : ℕ)
      → Contained buf_len buf (entity_id_tlv_serialize entity_id id_len (some buf) buf_len)
  unfolding entity_id_tlv_serialize
  entity_id_tlv-Contained entity_id id_len = refused _ (Frame-same buf_len buf) λ passed.
      let room : id_len + 2 ≤ buf_len = ground arith in
      done _ _ room (
        Frame-put_uint 2 entity_id id_len
          (Frame-set 1 id_len (Frame-set 0 6 (Frame-same buf_len buf) (omega arith)) (omega arith))
          (omega arith) inside)

  pub fault_handler_tlv-Contained :
      (condition_code handler_code : ℕ)
      → Contained buf_len buf
          (fault_handler_tlv_serialize condition_code handler_code (some buf) buf_len)
  unfolding fault_handler_tlv_serialize
  fault_handler_tlv-Contained condition_code handler_code =
      refused
        (ltb buf_len 3
          || not (fault_condition_valid condition_code)
          || not (fault_handler_valid handler_code))
        (Frame-same buf_len buf)
        λ passed.
          let room : 3 ≤ buf_len = ground arith in
          done _ _ room (
            Frame-set 2 _
              (Frame-set 1 1 (Frame-set 0 4 (Frame-same buf_len buf) (omega arith)) (omega arith))
              (omega arith))
