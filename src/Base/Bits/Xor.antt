-- ===== src/Base/Bits/Xor.antt =====
-- Exclusive or: a commutative group in which every number is its own inverse, and its widths.
use embedded_cfdp.Base.Bits.Digit.{zero-bit_xor, bit_xor_digit}
use Prim.Native.Nat.{ℕ, zero, suc, ◌+◌, ◌*◌, ◌/◌, ◌%◌, ◌^◌, ◌<◌, ◌≤◌, bit_xor}
use mathlib.Core.Path.{◌≡◌, refl, ap, ap₂, ◌∙◌}
use native.Mathlib.Nat.{
  pow-suc, add-mul-mod_self_left, mod-eq_of_lt, mod-lt, div-add-mod, one-le-pow, div-div-eq-div-mul,
}
use native.Mathlib.Omega.{arith}

xor_comm_below : (n a b : ℕ) → a ≤ n → b ≤ n → bit_xor a b ≡ bit_xor b a
xor_comm_below zero a b h k = ap₂ bit_xor (omega arith) (omega arith)
xor_comm_below (suc n) a b h k = omega (
  arith,
  bit_xor_digit a b,
  bit_xor_digit b a,
  xor_comm_below n (a / 2) (b / 2) (omega arith) (omega arith),
)

pub bit_xor_comm : (a b : ℕ) → bit_xor a b ≡ bit_xor b a
bit_xor_comm a b = xor_comm_below (a + b) a b (omega arith) (omega arith)

pub bit_xor_zero : (a : ℕ) → bit_xor a 0 ≡ a
bit_xor_zero a = bit_xor_comm a 0 ∙ zero-bit_xor a

xor_self_below : (n a : ℕ) → a ≤ n → bit_xor a a ≡ 0
xor_self_below n zero h = refl
xor_self_below zero (suc a) h = absurd (omega arith)
xor_self_below (suc n) (suc a) h =
    omega (arith, bit_xor_digit (suc a) (suc a), xor_self_below n (suc a / 2) (omega arith))

pub bit_xor_self : (a : ℕ) → bit_xor a a ≡ 0
bit_xor_self a = xor_self_below a a (omega arith)

assoc_digit :
    (a b c : ℕ)
    → bit_xor (bit_xor (a / 2) (b / 2)) (c / 2) ≡ bit_xor (a / 2) (bit_xor (b / 2) (c / 2))
    → bit_xor (bit_xor a b) c ≡ bit_xor a (bit_xor b c)
assoc_digit a b c ih =
    rw (bit_xor_digit (bit_xor a b) c, bit_xor_digit a (bit_xor b c))
      (let l : bit_xor a b / 2 ≡ bit_xor (a / 2) (b / 2) = omega (arith, bit_xor_digit a b) in
        let r : bit_xor b c / 2 ≡ bit_xor (b / 2) (c / 2) = omega (arith, bit_xor_digit b c) in
        rw (l, r, ih) (omega (arith, bit_xor_digit a b, bit_xor_digit b c)))

xor_assoc_below :
    (n a b c : ℕ) → a ≤ n → b ≤ n → c ≤ n → bit_xor (bit_xor a b) c ≡ bit_xor a (bit_xor b c)
xor_assoc_below zero zero zero zero h k l = refl
xor_assoc_below zero (suc a) b c h k l = absurd (omega arith)
xor_assoc_below zero zero (suc b) c h k l = absurd (omega arith)
xor_assoc_below zero zero zero (suc c) h k l = absurd (omega arith)
xor_assoc_below (suc n) a b c h k l =
    assoc_digit a b c
      (xor_assoc_below n (a / 2) (b / 2) (c / 2) (omega arith) (omega arith) (omega arith))

pub bit_xor_assoc : (a b c : ℕ) → bit_xor (bit_xor a b) c ≡ bit_xor a (bit_xor b c)
bit_xor_assoc a b c = xor_assoc_below (a + b + c) a b c (omega arith) (omega arith) (omega arith)

-- A number cancels from both sides.
pub bit_xor_cancel : (a b c : ℕ) → bit_xor a c ≡ bit_xor b c → a ≡ b
bit_xor_cancel a b c h =
    cc (bit_xor_assoc a c c, bit_xor_assoc b c c, bit_xor_self c, bit_xor_zero a, bit_xor_zero b)

-- The exclusive or of two numbers of `k` bits has `k` bits.
pub bit_xor-lt : (k a b : ℕ) → a < 2 ^ k → b < 2 ^ k → bit_xor a b < 2 ^ k
bit_xor-lt zero zero b h l = omega (arith, zero-bit_xor b)
bit_xor-lt zero (suc a) b h l = absurd (omega arith)
bit_xor-lt (suc k) a b h l = omega (
  arith,
  pow-suc 2 k,
  bit_xor_digit a b,
  bit_xor-lt k (a / 2) (b / 2) (omega (arith, pow-suc 2 k)) (omega (arith, pow-suc 2 k)),
)

-- Fields that do not overlap: `(q << k) ^ r` is a sum if `r` fits `k` bits.
pub bit_xor-shift :
    (k q p r : ℕ) → r < 2 ^ k → bit_xor (q * 2 ^ k + r) (p * 2 ^ k) ≡ bit_xor q p * 2 ^ k + r
bit_xor-shift zero q p r h =
    let e : q * 1 + r ≡ q = omega arith in
    let f : p * 1 ≡ p = omega arith in rw (e, f) (omega arith)
bit_xor-shift (suc k) q p r h = ground (
  arith,
  pow-suc 2 k,
  ap (λ (t : ℕ). q * t) (pow-suc 2 k),
  ap (λ (t : ℕ). p * t) (pow-suc 2 k),
  ap (λ (t : ℕ). bit_xor q p * t) (pow-suc 2 k),
  bit_xor_digit (q * 2 ^ suc k + r) (p * 2 ^ suc k),
  bit_xor-shift k q p (r / 2),
)

-- The remainder by `2 m`, from its lowest bit and the others.
mod_double : (n m : ℕ) → 0 < m → n % (m * 2) ≡ n / 2 % m * 2 + n % 2
mod_double n m h =
    ap (λ t. t % (m * 2)) whole
    ∙ add-mul-mod_self_left (n / 2 % m * 2 + n % 2) (m * 2) (n / 2 / m)
    ∙ mod-eq_of_lt (omega (arith, mod-lt (n / 2) h))
  where
    whole : n ≡ n / 2 % m * 2 + n % 2 + m * 2 * (n / 2 / m)
    whole = omega (arith, div-add-mod (n / 2) m)

-- Exclusive or acts on the low bits alone, and on the high bits alone.
pub bit_xor-mod : (k a b : ℕ) → bit_xor a b % 2 ^ k ≡ bit_xor (a % 2 ^ k) (b % 2 ^ k)
bit_xor-mod zero a b =
    let e : a % 1 ≡ 0 = omega arith in let f : b % 1 ≡ 0 = omega arith in rw (e, f) (omega arith)
bit_xor-mod (suc k) a b = ground (
  arith,
  pow-suc 2 k,
  mod_double (bit_xor a b) (2 ^ k) (one-le-pow k 2 (omega arith)),
  mod_double a (2 ^ k) (one-le-pow k 2 (omega arith)),
  mod_double b (2 ^ k) (one-le-pow k 2 (omega arith)),
  bit_xor_digit a b,
  bit_xor_digit (a % 2 ^ suc k) (b % 2 ^ suc k),
  bit_xor-mod k (a / 2) (b / 2),
)

pub bit_xor-div : (k a b : ℕ) → bit_xor a b / 2 ^ k ≡ bit_xor (a / 2 ^ k) (b / 2 ^ k)
bit_xor-div zero a b =
    let e : a / 1 ≡ a = omega arith in let f : b / 1 ≡ b = omega arith in rw (e, f) (omega arith)
bit_xor-div (suc k) a b = ground (
  arith,
  pow-suc 2 k,
  div-div-eq-div-mul a 2 (2 ^ k),
  div-div-eq-div-mul b 2 (2 ^ k),
  div-div-eq-div-mul (bit_xor a b) 2 (2 ^ k),
  bit_xor_digit a b,
  bit_xor-div k (a / 2) (b / 2),
)

pub bit_xor_interchange :
    (a b c d : ℕ) → bit_xor (bit_xor a b) (bit_xor c d) ≡ bit_xor (bit_xor a c) (bit_xor b d)
bit_xor_interchange a b c d = cc (
  bit_xor_assoc a b (bit_xor c d),
  bit_xor_assoc b c d,
  bit_xor_comm b c,
  bit_xor_assoc c b d,
  bit_xor_assoc a c (bit_xor b d),
)
