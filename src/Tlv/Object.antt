-- ===== src/Tlv/Object.antt =====
-- TLV objects: what is written, what is accepted, and that each undoes the other.
use native.Mathlib.Decide.{dec_le}
use native.Mathlib.Numerals.{add-two}
use embedded_cfdp.Base.{
  ℕ, zero, suc, ◌+◌, ◌≤◌, ◌<◌, ◌≡◌, ◌⊎◌, inl, inr, refl, ap, sym, ◌∙◌, arith, List, [], ◌∷◌, ◌++◌,
  none, some, deref, length, take, drop, get_or, take-append, length-take,
}
use embedded_cfdp.Buffer.{Pointer, contents}
use embedded_cfdp.Buffer.Overlay.{overlay, Wrote-nothing, Wrote-octet, Wrote-octets}
use embedded_cfdp.Tlv.{Tlv, blank_tlv, tlv_serialize, tlv_deserialize}
use embedded_cfdp.Buffer.Overlay.{pointer_to, contents-pointer_to}

-- The layout of a TLV: its type, its length, its value.
unfoldable pub tlv_octets : Tlv → List ℕ
tlv_octets tlv = tlv.type ∷ tlv.length ∷ contents tlv.value tlv.length

pub tlv_serialize_lem :
    (type n : ℕ) (value : Pointer) (buf : List ℕ) (buf_len : ℕ)
    → n ≤ length (deref [] value)
    → n + 2 ≤ buf_len
    → buf_len ≤ length buf
    → tlv_serialize (some (record { type = type; length = n; value = value })) (some buf) buf_len
      ≡ (n + 2, some (overlay (type ∷ n ∷ contents value n) buf))
unfolding tlv_serialize
tlv_serialize_lem type zero none buf buf_len h k l = ground (
  arith,
  (Wrote-octet 0 (Wrote-octet type (Wrote-nothing buf) (omega arith)) (omega arith)).octets,
)
tlv_serialize_lem type (suc n) none buf buf_len h k l = absurd (omega arith)
tlv_serialize_lem type zero (some v) buf buf_len h k l = ground (
  arith,
  (Wrote-octet 0 (Wrote-octet type (Wrote-nothing buf) (omega arith)) (omega arith)).octets,
)
tlv_serialize_lem type (suc n) (some v) buf buf_len h k l = ground (
  arith,
  (Wrote-octets v (suc n)
      (Wrote-octet (suc n) (Wrote-octet type (Wrote-nothing buf) (omega arith)) (omega arith))
      (omega arith) h).octets,
)

pub tlv_deserialize_lem :
    (buf : List ℕ) (buf_len type n : ℕ) (body : List ℕ) (tlv : Tlv)
    → buf ≡ type ∷ n ∷ body
    → n + 2 ≤ buf_len
    → tlv_deserialize (some buf) buf_len (some tlv)
      ≡ (n + 2, some (record { type = type; length = n; value = pointer_to body n }))
unfolding tlv_deserialize
tlv_deserialize_lem buf buf_len type n body tlv e h = rw e (ground arith)

-- With fewer octets than the header, or than the header announces, nothing is decoded.
pub too_short :
    (buf : List ℕ) (buf_len : ℕ) (tlv : Tlv)
    → buf_len < get_or buf 1 0 + 2
    → tlv_deserialize (some buf) buf_len (some tlv) ≡ (0, some tlv)
unfolding tlv_deserialize
too_short buf buf_len tlv h = ground arith

-- What the decoder may answer on memory that has `buf_len` octets: nothing consumed and nothing
-- stored, or a TLV that lies within the `buf_len` octets and whose layout is exactly the octets
-- consumed.
pub tlv_deserialize_cases :
    (buf : List ℕ) (buf_len : ℕ) (tlv : Tlv)
    → buf_len ≤ length buf
    → (tlv_deserialize (some buf) buf_len (some tlv) ≡ (0, some tlv))
      ⊎ ((n : ℕ) × (t : Tlv) × (tlv_deserialize (some buf) buf_len (some tlv) ≡ (n, some t))
          × (n ≡ t.length + 2)
          × (n ≤ buf_len)
          × (tlv_octets t ≡ take n buf))
unfolding tlv_octets
tlv_deserialize_cases [] buf_len tlv h = inl (too_short [] buf_len tlv (omega arith))
tlv_deserialize_cases (a ∷ []) buf_len tlv h = inl (too_short (a ∷ []) buf_len tlv (omega arith))
tlv_deserialize_cases (type ∷ n ∷ body) buf_len tlv h = elim (dec_le (n + 2) buf_len) [
  | yes fits ↦ inr (
    n + 2,
    record { type = type; length = n; value = pointer_to body n },
    tlv_deserialize_lem (type ∷ n ∷ body) buf_len type n body tlv refl fits,
    refl,
    fits,
    sym (
        ap (λ k. take k (type ∷ n ∷ body)) (add-two n)
        ∙ ap (λ r. type ∷ n ∷ r) (sym (contents-pointer_to body n))),
  )
  | no cut ↦ inl (too_short (type ∷ n ∷ body) buf_len tlv (omega arith))
]

-- A TLV whose value is there, written into a buffer with room for it, is read back from there:
-- the same type, length and value, and as many octets consumed as were produced.
pub tlv_round_trip :
    (tlv old : Tlv) (buf : List ℕ) (buf_len : ℕ)
    → tlv.length ≤ length (deref [] tlv.value)
    → tlv.length + 2 ≤ buf_len
    → buf_len ≤ length buf
    → let (n, out) = tlv_serialize (some tlv) (some buf) buf_len in
      let (m, tlv') = tlv_deserialize out n (some old) in
      (n ≡ tlv.length + 2) × (m ≡ n) × (tlv_octets (deref blank_tlv tlv') ≡ tlv_octets tlv)
unfolding overlay tlv_octets
tlv_round_trip tlv old buf buf_len h k l = rw (tlv_serialize_lem type n value buf buf_len h k l) (
    rw
      (tlv_deserialize_lem (overlay (type ∷ n ∷ contents value n) buf) (n + 2) type n
        (contents value n ++ drop (length (type ∷ n ∷ contents value n)) buf) old refl
        (omega arith))
      (
        refl,
        refl,
        ap (λ r. type ∷ n ∷ r)
            (contents-pointer_to _ n
              ∙ take-append n (contents value n) _ (length-take n (deref [] value) h)),
      ))
  where
    open tlv use {type, length as n, value}
