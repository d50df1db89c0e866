-- ===== src/Buffer/Agree.antt =====
-- Memory that holds the same octets up to a bound: what a bounded read cannot tell apart.
use embedded_cfdp.Base.{
  ℕ, zero, suc, ◌+◌, ◌≤◌, ◌<◌, ◌≡◌, refl, ap, sym, ◌∙◌, arith, List, [], ◌∷◌, ◌++◌, get_or, drop,
  length, bit_or, u64, ◌<<◌,
}
use embedded_cfdp.Endian.{read_uint_from, read_uint}
use embedded_cfdp.Buffer.{get_uint}

abbrev pub Agree : ℕ → List ℕ → List ℕ → Type 0
Agree k xs ys = (i : ℕ) → i < k → get_or xs i 0 ≡ get_or ys i 0

get_or-drop_add : (p i : ℕ) (xs : List ℕ) → get_or (drop p xs) i 0 ≡ get_or xs (p + i) 0
get_or-drop_add zero i xs = ap (λ j. get_or xs j 0) (omega arith)
get_or-drop_add (suc p) i [] = refl
get_or-drop_add (suc p) i (x ∷ xs) =
    get_or-drop_add p i xs ∙ ap (λ j. get_or (x ∷ xs) j 0) (shifted p i)
  where
    shifted : (p i : ℕ) → suc (p + i) ≡ suc p + i
    shifted p i = omega arith

pub Agree-drop :
    (p k m : ℕ) (xs ys : List ℕ) → Agree k xs ys → p + m ≤ k → Agree m (drop p xs) (drop p ys)
Agree-drop p k m xs ys same h i lt =
    get_or-drop_add p i xs ∙ same (p + i) (omega arith) ∙ sym (get_or-drop_add p i ys)

read_uint_from-Agree :
    (left i v k : ℕ) (xs ys : List ℕ)
    → Agree k xs ys
    → i + left ≤ k
    → read_uint_from xs i v left ≡ read_uint_from ys i v left
unfolding read_uint_from
read_uint_from-Agree zero i v k xs ys same h = refl
read_uint_from-Agree (suc left) i v k xs ys same h =
    ap (λ b. read_uint_from xs (i + 1) (bit_or (u64 (v << 8)) b) left) (same i (omega arith))
    ∙ read_uint_from-Agree left (i + 1) (bit_or (u64 (v << 8)) (get_or ys i 0)) k xs ys same
        (omega arith)

pub get_uint-Agree :
    (pos n k : ℕ) (xs ys : List ℕ)
    → Agree k xs ys
    → pos + n ≤ k
    → get_uint xs pos n ≡ get_uint ys pos n
unfolding read_uint
get_uint-Agree pos n k xs ys same h =
    read_uint_from-Agree n 0 0 n (drop pos xs) (drop pos ys) (Agree-drop pos k n xs ys same h)
      (omega arith)

-- Lists with a common front agree on it.
pub Agree-front : (front xs ys : List ℕ) → Agree (length front) (front ++ xs) (front ++ ys)
Agree-front [] xs ys i h = absurd (omega arith)
Agree-front (x ∷ front) xs ys zero h = refl
Agree-front (x ∷ front) xs ys (suc i) h = Agree-front front xs ys i (omega arith)

pub Agree-le : (j k : ℕ) (xs ys : List ℕ) → Agree k xs ys → j ≤ k → Agree j xs ys
Agree-le j k xs ys same h i lt = same i (omega arith)
