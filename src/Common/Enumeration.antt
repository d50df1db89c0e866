-- ===== src/Common/Enumeration.antt =====
-- The enumerations of the headers: members, the values that C gives them, and the width of the
-- field that carries them.
pub mod Flags
pub mod Codes
pub mod Outcomes
use native.Mathlib.Decide.{dec_lt}
use embedded_cfdp.Base.{
  ℕ, zero, suc, ◌^◌, ◌<◌, ◌≡◌, refl, not, is_null, inl, inr, bool_cases, ap, sym, ◌∙◌, arith, List,
  [], ◌∷◌, Option, none, some, Bool, true, false, ◌&&◌, ltb, ◌==◌, if◌then◌else◌,
}

-- The first member with the value `n`.
abbrev pub find : {A : Type 0} → (A → ℕ) → List A → ℕ → Option A
find wire [] n = none
find wire (a ∷ members) n = if wire a == n then some a else find wire members n

abbrev pub all_below : {A : Type 0} → (A → ℕ) → ℕ → List A → Bool
all_below wire bound [] = true
all_below wire bound (a ∷ members) = ltb (wire a) bound && all_below wire bound members

pub record Enumeration (A : Type 0) : Type 0 where
  pub wire : A → ℕ
  pub bits : ℕ
  pub members : List A
  pub fits : all_below wire (2 ^ bits) members ≡ true
  pub found : (a : A) → find wire members (wire a) ≡ some a

-- The member that a number names, if any, and that it names one.
abbrev pub member : {A : Type 0} ⦃e : Enumeration A⦄ → ℕ → Option A
member ⦃e⦄ n = find e.wire e.members n

abbrev pub Named : (A : Type 0) → ⦃e : Enumeration A⦄ → ℕ → Type 0
Named A ⦃e⦄ n = (a : A) × (e.wire a ≡ n)

module _ {A : Type 0} (wire : A → ℕ) where
  find-below :
      (bound n : ℕ) (members : List A) (a : A)
      → all_below wire bound members ≡ true
      → find wire members n ≡ some a
      → (wire a < bound) × (wire a ≡ n)
  find-below bound n [] a fits e = absurd cc
  find-below bound n (b ∷ members) a fits e = elim (bool_cases (wire b == n)) [
    | inl here ↦ let same : b ≡ a = cc in rw (← same) (ground arith)
    | inr later ↦ find-below bound n members a (ground arith) (rw later at e)
  ]

-- Every number below `bound` is the value of a member.
abbrev pub covered : {A : Type 0} → (A → ℕ) → List A → ℕ → Bool
covered wire members zero = true
covered wire members (suc n) = not (is_null (find wire members n)) && covered wire members n

module _ {A : Type 0} ⦃e : Enumeration A⦄ where
  -- A value fits its field.
  pub wire-below : (a : A) → e.wire a < 2 ^ e.bits
  wire-below a = (find-below e.wire (2 ^ e.bits) (e.wire a) e.members a e.fits (e.found a)).0

  -- A member found for a number has it for its value.
  pub member-Named : (n : ℕ) (a : A) → member n ≡ some a → e.wire a ≡ n
  member-Named n a f = (find-below e.wire (2 ^ e.bits) n e.members a e.fits f).1

  found-Named : (n : ℕ) (found : Option A) → member n ≡ found → is_null found ≡ false → Named A n
  found-Named n none f present = absurd cc
  found-Named n (some a) f present = (a, member-Named n a f)

  pub covered-Named : (bound n : ℕ) → covered e.wire e.members bound ≡ true → n < bound → Named A n
  covered-Named zero n all h = absurd (omega arith)
  covered-Named (suc bound) n all h = elim (dec_lt n bound) [
    | yes below_it ↦ covered-Named bound n (ground arith) below_it
    | no at_it ↦
        let same : bound ≡ n = omega arith in
        let present : is_null (find e.wire e.members bound) ≡ false = ground arith in
        found-Named n (find e.wire e.members n) refl (rw same at present)
  ]
