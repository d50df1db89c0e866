-- ===== src/Endian/Read.antt =====
-- `cfdp_read_uint` reads the number that the octets stand for.
use native.Mathlib.Nat.{pow-le-pow_right, pow-suc}
use embedded_cfdp.Base.{
  ℕ, suc, ◌+◌, ◌*◌, ◌^◌, ◌≤◌, ◌<◌, ◌≡◌, refl, arith, ap, ◌∙◌, List, [], ◌∷◌, ◌++◌, length, take,
  take-drop, length-take, take-All, sym, All, IsByte, drop, get_or, bit_or, u64, ◌<<◌, get_or-drop,
  drop_behind,
}
use mathlib.Core.Path.{subst}
use embedded_cfdp.Base.Bits.{bit_or-shift}
use embedded_cfdp.Endian.{read_uint_from, read_uint}
use embedded_cfdp.Endian.Octets.{
  be_octets, be_value, be_value-be_octets, be_value-lt, be_octets-be_value, length-be_octets,
  be_octets-IsByte,
}

-- One round: the octet joins the low end.
read_round :
    (acc b m : ℕ) → acc < 256 ^ m → m ≤ 7 → b < 256 → bit_or (u64 (acc << 8)) b ≡ acc * 256 + b
read_round acc b m h k l =
    let small : acc < 256 ^ 7 = omega (arith, pow-le-pow_right {n = 256} (omega arith) k) in
    let whole : u64 (acc << 8) ≡ acc * 2 ^ 8 = omega arith in rw whole (bit_or-shift 8 acc b l)

read_uint_from-be_value :
    (buf : List ℕ) (i acc m : ℕ) (bs rest : List ℕ)
    → drop i buf ≡ bs ++ rest
    → acc < 256 ^ m
    → m + length bs ≤ 8
    → All IsByte bs
    → read_uint_from buf i acc (length bs) ≡ be_value acc bs
unfolding read_uint_from be_value
read_uint_from-be_value buf i acc m [] rest e h k l = refl
read_uint_from-be_value buf i acc m (b ∷ bs) rest e h k l =
    ap (λ t. read_uint_from buf (i + 1) t (length bs)) joined
    ∙ read_uint_from-be_value buf (i + 1) (acc * 256 + b) (suc m) bs rest
        (drop_behind i (i + 1) buf (b ∷ []) (bs ++ rest) e refl) (omega (arith, pow-suc 256 m))
        (omega arith) l.1
  where
    joined : bit_or (u64 (acc << 8)) (get_or buf i 0) ≡ acc * 256 + b
    joined = rw (get_or-drop i buf 0 b (bs ++ rest) e) (read_round acc b m h (omega arith) l.0)

-- `cfdp_read_uint` on octets that are there gives the number that they stand for.
pub read_uint-be_value :
    (buf : List ℕ) (n : ℕ) (bs rest : List ℕ)
    → buf ≡ bs ++ rest
    → length bs ≡ n
    → n ≤ 8
    → All IsByte bs
    → read_uint buf n ≡ be_value 0 bs
unfolding read_uint
read_uint-be_value buf n bs rest e h k l =
    rw (← h) (read_uint_from-be_value buf 0 0 0 bs rest e (omega arith) (omega arith) l)

-- It reads back a number from its big-endian octets, whatever follows them.
pub read_uint-be_octets :
    (buf : List ℕ) (n v : ℕ) (rest : List ℕ)
    → buf ≡ be_octets n v ++ rest
    → n ≤ 8
    → v < 256 ^ n
    → read_uint buf n ≡ v
read_uint-be_octets buf n v rest e k h =
    read_uint-be_value buf n (be_octets n v) rest e (length-be_octets n v) k (be_octets-IsByte n v)
    ∙ be_value-be_octets n v h

-- The number read from `n` octets fits `n` octets.
pub read_uint-lt :
    (buf : List ℕ) (n : ℕ) → n ≤ length buf → n ≤ 8 → All IsByte buf → read_uint buf n < 256 ^ n
read_uint-lt buf n h k bytes =
    let count : length (take n buf) ≡ n = length-take n buf h in
    let fronts : All IsByte (take n buf) = take-All IsByte n buf bytes in
    rw (read_uint-be_value buf n (take n buf) (drop n buf) (sym (take-drop n buf)) count k fronts) (
      subst (λ m. be_value 0 (take n buf) < 256 ^ m) (omega (arith, count))
        (be_value-lt 0 0 (take n buf) (omega arith) fronts))

-- The number read from `n` octets of a buffer that has them, at most 8, has them for its
-- big-endian octets.
pub be_octets-read_uint :
    (buf : List ℕ) (n : ℕ)
    → n ≤ length buf
    → n ≤ 8
    → All IsByte buf
    → be_octets n (read_uint buf n) ≡ take n buf
be_octets-read_uint buf n h k bytes =
    let count : length (take n buf) ≡ n = length-take n buf h in
    let fronts : All IsByte (take n buf) = take-All IsByte n buf bytes in
    ap (be_octets n)
      (read_uint-be_value buf n (take n buf) (drop n buf) (sym (take-drop n buf)) count k fronts)
    ∙ be_octets-be_value n (take n buf) count fronts
