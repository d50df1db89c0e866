-- ===== src/Tlv/Lv/Accepted.antt =====
-- What the LV decoder accepts.
use native.Mathlib.Decide.{dec_le}
use embedded_cfdp.Base.{
  ℕ, suc, ◌+◌, ◌≤◌, ◌<◌, ◌≡◌, ◌⊎◌, inl, inr, refl, ap, ◌∙◌, arith, List, [], ◌∷◌, some, deref,
  length, take, get_or,
}
use embedded_cfdp.Buffer.{Pointer}
use embedded_cfdp.Buffer.Overlay.{pointer_to, contents-pointer_to, pointer_to-length}
use embedded_cfdp.Tlv.{lv_deserialize}
use embedded_cfdp.Tlv.Lv.{lv_octets, lv_deserialize_lem}

-- A value that the decoder stored, and that is laid out as the octets consumed.
pub record AcceptedLv (buf : List ℕ) (buf_len n : ℕ) (value : Pointer) (value_len : ℕ)
    : Type 0 where
  pub size : n ≡ value_len + 1
  pub inside : n ≤ buf_len
  pub held : value_len ≤ length (deref [] value)
  pub layout : lv_octets value value_len ≡ take n buf

lv_short :
    (buf : List ℕ) (buf_len : ℕ) (old : Pointer) (old_len : ℕ)
    → buf_len < get_or buf 0 0 + 1
    → lv_deserialize (some buf) buf_len (some old) (some old_len) ≡ (0, some old, some old_len)
unfolding lv_deserialize
lv_short buf buf_len old old_len h = ground arith

pub lv_deserialize_cases :
    (buf : List ℕ) (buf_len : ℕ) (old : Pointer) (old_len : ℕ)
    → buf_len ≤ length buf
    → (lv_deserialize (some buf) buf_len (some old) (some old_len) ≡ (0, some old, some old_len))
      ⊎ ((n : ℕ) × (value : Pointer) × (value_len : ℕ) × (lv_deserialize
              (some buf)
              buf_len
              (some old)
              (some old_len)
            ≡ (n, some value, some value_len))
          × AcceptedLv buf buf_len n value value_len)
unfolding lv_octets
lv_deserialize_cases [] buf_len old old_len inside =
    inl (lv_short [] buf_len old old_len (omega arith))
lv_deserialize_cases (k ∷ body) buf_len old old_len inside = elim (dec_le (k + 1) buf_len) [
  | no cut ↦ inl (lv_short (k ∷ body) buf_len old old_len (omega arith))
  | yes fits ↦
      let next : suc k ≡ k + 1 = omega arith in
      inr (
        k + 1,
        pointer_to body k,
        k,
        lv_deserialize_lem (k ∷ body) buf_len k body old old_len refl fits,
        record {
          size = refl;
          inside = fits;
          held = pointer_to-length body k (omega arith);
          layout = ap (λ r. k ∷ r) (contents-pointer_to body k) ∙ ap (λ j. take j (k ∷ body)) next;
        },
      )
]
