-- ===== src/Endian/Octets.antt =====
-- The big-endian octets of a number, as the standard describes them.
use native.Mathlib.Nat.{pow-suc, add-zero}
use mathlib.Core.Path.{subst}
use embedded_cfdp.Base.{
  ℕ, zero, suc, ◌+◌, ◌*◌, ◌/◌, ◌%◌, ◌^◌, ◌<◌, ◌≡◌, refl, ap, ap₂, sym, ◌∙◌, arith, List, [], ◌∷◌,
  ◌++◌, length, length-append, All, All-append, IsByte,
}

-- `n` octets of `v`, the most significant first.
unfoldable pub be_octets : ℕ → ℕ → List ℕ
be_octets zero v = []
be_octets (suc n) v = be_octets n (v / 256) ++ (v % 256 ∷ [])

-- The number that octets stand for, given what stands before them.
unfoldable pub be_value : ℕ → List ℕ → ℕ
be_value acc [] = acc
be_value acc (b ∷ bs) = be_value (acc * 256 + b) bs

pub length-be_octets : (n v : ℕ) → length (be_octets n v) ≡ n
unfolding be_octets
length-be_octets zero v = refl
length-be_octets (suc n) v =
    omega (
      arith,
      length-append {0} (be_octets n (v / 256)) (v % 256 ∷ []),
      length-be_octets n (v / 256),
    )

pub be_octets-IsByte : (n v : ℕ) → All IsByte (be_octets n v)
unfolding be_octets
be_octets-IsByte zero v = tt
be_octets-IsByte (suc n) v =
    All-append IsByte (be_octets n (v / 256)) (v % 256 ∷ []) (be_octets-IsByte n (v / 256))
      (omega arith)

be_value-append :
    (acc : ℕ) (xs : List ℕ) (b : ℕ) → be_value acc (xs ++ (b ∷ [])) ≡ be_value acc xs * 256 + b
unfolding be_value
be_value-append acc [] b = refl
be_value-append acc (x ∷ xs) b = be_value-append (acc * 256 + x) xs b

-- The octets of a number stand for it.
pub be_value-be_octets : (n v : ℕ) → v < 256 ^ n → be_value 0 (be_octets n v) ≡ v
unfolding be_octets
be_value-be_octets zero v h = unfold be_value in omega arith
be_value-be_octets (suc n) v h = omega (
  arith,
  be_value-append 0 (be_octets n (v / 256)) (v % 256),
  be_value-be_octets n (v / 256) (omega (arith, pow-suc 256 n)),
)

-- Octets behind a number of `m` octets stand for a number of as many octets as all of them.
pub be_value-lt :
    (m acc : ℕ) (bs : List ℕ)
    → acc < 256 ^ m
    → All IsByte bs
    → be_value acc bs < 256 ^ (m + length bs)
unfolding be_value
be_value-lt m acc [] h k = rw add-zero h
be_value-lt m acc (b ∷ bs) h k =
    let e : suc m + length bs ≡ m + suc (length bs) = omega arith in
    rw (← e) (be_value-lt (suc m) (acc * 256 + b) bs (omega (arith, pow-suc 256 m)) k.1)

split_last :
    (n : ℕ) (bs : List ℕ)
    → length bs ≡ suc n
    → (front : List ℕ) × (last : ℕ) × (bs ≡ front ++ (last ∷ [])) × (length front ≡ n)
split_last n [] e = absurd (omega arith)
split_last zero (b ∷ []) e = ([], b, refl, refl)
split_last zero (b ∷ c ∷ bs) e = absurd (omega arith)
split_last (suc n) (b ∷ bs) e =
    let (front, last, whole, count) = split_last n bs (omega arith) in
    (b ∷ front, last, ap (λ r. b ∷ r) whole, ap suc count)

All-front : (xs ys : List ℕ) → All IsByte (xs ++ ys) → All IsByte xs × All IsByte ys
All-front [] ys h = (tt, h)
All-front (x ∷ xs) ys h = let (l, r) = All-front xs ys h.1 in ((h.0, l), r)

-- Octets are the big-endian octets of the number that they stand for.
pub be_octets-be_value :
    (n : ℕ) (bs : List ℕ) → length bs ≡ n → All IsByte bs → be_octets n (be_value 0 bs) ≡ bs
unfolding be_octets
be_octets-be_value zero [] e h = refl
be_octets-be_value zero (b ∷ bs) e h = absurd (omega arith)
be_octets-be_value (suc n) bs e h =
    let (front, last, whole, count) = split_last n bs e in
    let (fronts, lasts) = All-front front (last ∷ []) (subst (All IsByte) whole h) in
    let value : be_value 0 bs ≡ be_value 0 front * 256 + last =
      ap (be_value 0) whole ∙ be_value-append 0 front last in
    let high : be_value 0 bs / 256 ≡ be_value 0 front = omega (arith, value, lasts.0) in
    let low : be_value 0 bs % 256 ≡ last = omega (arith, value, lasts.0) in
    ap₂ (λ v b. be_octets n v ++ (b ∷ [])) high low
    ∙ ap (λ r. r ++ (last ∷ [])) (be_octets-be_value n front count fronts)
    ∙ sym whole
