-- ===== src/Tlv/Lv.antt =====
-- LV objects: what is written, and that it is read back.
pub mod Within
pub mod Accepted
use embedded_cfdp.Base.{
  ℕ, zero, suc, ◌+◌, ◌≤◌, ◌≡◌, refl, ◌∙◌, arith, List, [], ◌∷◌, ◌++◌, none, some, deref, length,
  drop, take-append, length-take,
}
use embedded_cfdp.Buffer.{Pointer, contents}
use embedded_cfdp.Buffer.Overlay.{
  pointer_to, contents-pointer_to, overlay, Wrote-nothing, Wrote-octet, Wrote-octets,
}
use embedded_cfdp.Tlv.{lv_serialize, lv_deserialize}

-- The layout of an LV: one octet of length, and the value.
unfoldable pub lv_octets : Pointer → ℕ → List ℕ
lv_octets value value_len = value_len ∷ contents value value_len

-- With room and a value that is there, the serialiser writes the layout and nothing else.
pub lv_serialize_lem :
    (value : Pointer) (value_len : ℕ) (buf : List ℕ) (buf_len : ℕ)
    → value_len ≤ length (deref [] value)
    → value_len + 1 ≤ buf_len
    → buf_len ≤ length buf
    → lv_serialize value value_len (some buf) buf_len
      ≡ (value_len + 1, some (overlay (lv_octets value value_len) buf))
unfolding lv_serialize lv_octets
lv_serialize_lem none zero buf buf_len h k l =
    ground (arith, (Wrote-octet 0 (Wrote-nothing buf) (omega arith)).octets)
lv_serialize_lem none (suc n) buf buf_len h k l = absurd (omega arith)
lv_serialize_lem (some v) zero buf buf_len h k l =
    ground (arith, (Wrote-octet 0 (Wrote-nothing buf) (omega arith)).octets)
lv_serialize_lem (some v) (suc n) buf buf_len h k l = ground (
  arith,
  (Wrote-octets v (suc n) (Wrote-octet (suc n) (Wrote-nothing buf) (omega arith)) (omega arith)
      h).octets,
)

-- An LV that fits what is there is read whole, whatever follows it.
pub lv_deserialize_lem :
    (buf : List ℕ) (buf_len n : ℕ) (body : List ℕ) (value : Pointer) (value_len : ℕ)
    → buf ≡ n ∷ body
    → n + 1 ≤ buf_len
    → lv_deserialize (some buf) buf_len (some value) (some value_len)
      ≡ (n + 1, some (pointer_to body n), some n)
unfolding lv_deserialize
lv_deserialize_lem buf buf_len n body value value_len e h = rw e (ground arith)

-- A value that is there, written as an LV into a buffer with room for it, is read back: its
-- length, the same octets, and as many octets consumed as were produced.
pub lv_round_trip :
    (value : Pointer) (value_len : ℕ) (buf : List ℕ) (buf_len : ℕ) (old : Pointer) (old_len : ℕ)
    → value_len ≤ length (deref [] value)
    → value_len + 1 ≤ buf_len
    → buf_len ≤ length buf
    → let (n, out) = lv_serialize value value_len (some buf) buf_len in
      let (m, value', len') = lv_deserialize out n (some old) (some old_len) in
      (n ≡ value_len + 1)
      × (m ≡ n)
      × (len' ≡ some value_len)
      × (contents (deref none value') value_len ≡ contents value value_len)
unfolding overlay lv_octets
lv_round_trip value value_len buf buf_len old old_len h k l =
    rw (lv_serialize_lem value value_len buf buf_len h k l) (
      rw
        (lv_deserialize_lem (overlay (lv_octets value value_len) buf) (value_len + 1) value_len
          (contents value value_len ++ drop (length (lv_octets value value_len)) buf) old old_len
          refl (omega arith))
        (
          refl,
          refl,
          refl,
          contents-pointer_to _ value_len
              ∙ take-append value_len (contents value value_len) _
                  (length-take value_len (deref [] value) h),
        ))
