-- ===== src/Checksum/Lanes.antt =====
-- What each octet adds to the checksum, and the sum of words that the standard prescribes.
use native.Mathlib.Nat.{add-zero}
use embedded_cfdp.Base.{
  ℕ, zero, suc, ◌+◌, ◌-◌, ◌*◌, ◌%◌, ◌^◌, ◌≤◌, ◌<◌, ◌≡◌, refl, ap, ◌∙◌, arith, List, [], ◌∷◌, ◌++◌,
  some, bit_and, u8, u32, u64, ◌<<◌, IsU32, IsByte, All, length, take, take_all, ◌==◌,
  if◌then◌else◌, true, false,
}
use embedded_cfdp.Base.Bits.{bit_and-mask}
use embedded_cfdp.Checksum.{
  checksum_octet, checksum_octets, checksum_update, checksum_compute, checksum_type_supported,
  checksum_update_by_type,
}
use embedded_cfdp.Common.{checksum_modular, checksum_null}

-- The weight of the octet at a position of the file, and the sum of octets by their weights.
abbrev pub weight : ℕ → ℕ
weight position = 256 ^ (3 - position % 4)

unfoldable pub weighted_sum : ℕ → List ℕ → ℕ
weighted_sum position [] = 0
weighted_sum position (octet ∷ octets) =
    octet * weight position + weighted_sum (position + 1) octets

-- The sum of the big-endian words of four octets, the last one filled up with zeros.
unfoldable pub word_sum : List ℕ → ℕ
word_sum [] = 0
word_sum (a ∷ []) = a * 2 ^ 24
word_sum (a ∷ b ∷ []) = a * 2 ^ 24 + b * 2 ^ 16
word_sum (a ∷ b ∷ c ∷ []) = a * 2 ^ 24 + b * 2 ^ 16 + c * 2 ^ 8
word_sum (a ∷ b ∷ c ∷ d ∷ rest) = a * 2 ^ 24 + b * 2 ^ 16 + c * 2 ^ 8 + d + word_sum rest

lane_shift :
    (lane octet : ℕ)
    → lane < 4
    → octet < 256
    → u32 (octet << u8 (8 * (3 - lane))) ≡ octet * 256 ^ (3 - lane)
lane_shift zero o h k = omega arith
lane_shift (suc zero) o h k = omega arith
lane_shift (suc (suc zero)) o h k = omega arith
lane_shift (suc (suc (suc zero))) o h k = omega arith
lane_shift (suc (suc (suc (suc lane)))) o h k = absurd (omega arith)

checksum_octet-weight :
    (checksum offset i octet : ℕ)
    → offset + i < 2 ^ 64
    → IsByte octet
    → checksum_octet checksum offset i octet ≡ (checksum + octet * weight (offset + i)) % 2 ^ 32
unfolding checksum_octet
checksum_octet-weight checksum offset i octet h k =
    let lane : u8 (bit_and (u64 (offset + i)) 0x3) ≡ (offset + i) % 4 =
      omega (arith, bit_and-mask 2 (u64 (offset + i))) in
    rw (lane, lane_shift ((offset + i) % 4) octet (omega arith) k)

-- The loop adds the weighted sum of its octets.
pub checksum_octets-weighted_sum :
    (checksum offset i : ℕ) (octets : List ℕ)
    → IsU32 checksum
    → offset + i + length octets ≤ 2 ^ 64
    → All IsByte octets
    → checksum_octets checksum offset i octets
      ≡ (checksum + weighted_sum (offset + i) octets) % 2 ^ 32
unfolding checksum_octets weighted_sum
checksum_octets-weighted_sum checksum offset i [] h k l = omega arith
checksum_octets-weighted_sum checksum offset i (o ∷ os) h k l =
    let next : offset + i + 1 ≡ offset + (i + 1) = omega arith in
    rw (checksum_octet-weight checksum offset i o (omega arith) l.0, next)
      (omega (
        arith,
        checksum_octets-weighted_sum ((checksum + o * weight (offset + i)) % 2 ^ 32) offset (i + 1)
            os (omega arith) (omega arith) l.1,
      ))

one_later : (p n : ℕ) → p + 1 + n ≡ p + suc n
one_later p n = omega arith

checksum_update-take :
    (checksum offset : ℕ) (octets : List ℕ) (len : ℕ)
    → checksum_update checksum offset (some octets) len
      ≡ checksum_octets checksum offset 0 (take len octets)
unfolding checksum_update checksum_octets
checksum_update-take checksum offset octets zero = refl
checksum_update-take checksum offset octets (suc len) = ground arith

-- `cfdp_checksum_update` adds the weighted sum of its octets.
pub checksum_update-weighted_sum :
    (checksum offset : ℕ) (octets : List ℕ)
    → IsU32 checksum
    → offset + length octets ≤ 2 ^ 64
    → All IsByte octets
    → checksum_update checksum offset (some octets) (length octets)
      ≡ (checksum + weighted_sum offset octets) % 2 ^ 32
checksum_update-weighted_sum checksum offset octets h k l =
    checksum_update-take checksum offset octets (length octets)
    ∙ ap (checksum_octets checksum offset 0) (take_all octets)
    ∙ checksum_octets-weighted_sum checksum offset 0 octets h (omega arith) l
    ∙ ap (λ p. (checksum + weighted_sum p octets) % 2 ^ 32) (add-zero offset)

pub weighted_sum-append :
    (position : ℕ) (xs ys : List ℕ)
    → weighted_sum position (xs ++ ys)
      ≡ weighted_sum position xs + weighted_sum (position + length xs) ys
unfolding weighted_sum
weighted_sum-append position [] ys = omega (arith, ap (λ p. weighted_sum p ys) (add-zero position))
weighted_sum-append position (x ∷ xs) ys = omega (
  arith,
  weighted_sum-append (position + 1) xs ys,
  ap (λ p. weighted_sum p ys) (one_later position (length xs)),
)

lane_weights :
    (p : ℕ)
    → p % 4 ≡ 0
    → (weight p ≡ 2 ^ 24)
      × (weight (p + 1) ≡ 2 ^ 16)
      × (weight (p + 1 + 1) ≡ 2 ^ 8)
      × (weight (p + 1 + 1 + 1) ≡ 1)
lane_weights p h =
    let at_1 : (p + 1) % 4 ≡ 1 = omega arith in
    let at_2 : (p + 1 + 1) % 4 ≡ 2 = omega arith in
    let at_3 : (p + 1 + 1 + 1) % 4 ≡ 3 = omega arith in (rw h, rw at_1, rw at_2, rw at_3)

weighted_sum-word_sum :
    (position : ℕ) (octets : List ℕ)
    → position % 4 ≡ 0
    → weighted_sum position octets ≡ word_sum octets
unfolding weighted_sum word_sum
weighted_sum-word_sum position [] h = refl
weighted_sum-word_sum p (a ∷ []) h = ground (arith, lane_weights p h)
weighted_sum-word_sum p (a ∷ b ∷ []) h = ground (arith, lane_weights p h)
weighted_sum-word_sum p (a ∷ b ∷ c ∷ []) h = ground (arith, lane_weights p h)
weighted_sum-word_sum p (a ∷ b ∷ c ∷ d ∷ rest) h =
    ground (arith, lane_weights p h, weighted_sum-word_sum (p + 1 + 1 + 1 + 1) rest (omega arith))

-- The code's checksum of a whole file, of at most 2 ^ 64 octets, is the sum of its words,
-- modulo 2 ^ 32.
pub checksum_compute-word_sum :
    (octets : List ℕ)
    → length octets ≤ 2 ^ 64
    → All IsByte octets
    → checksum_compute (some octets) (length octets) ≡ word_sum octets % 2 ^ 32
unfolding checksum_compute
checksum_compute-word_sum octets h k =
    checksum_update-weighted_sum 0 0 octets (omega arith) (omega arith) k
    ∙ ap (λ t. (0 + t) % 2 ^ 32) (weighted_sum-word_sum 0 octets refl)
    ∙ omega arith

-- The checksum that a type calls for, on every branch, for a 32-bit checksum and octets within
-- the first 2 ^ 64 of the file: the modular one adds the weighted sum of the octets, the null
-- one is 0 whatever they are, and any other type is refused and the checksum left alone.
pub checksum_update_by_type_lem :
    (kind checksum offset : ℕ) (octets : List ℕ)
    → IsU32 checksum
    → offset + length octets ≤ 2 ^ 64
    → All IsByte octets
    → checksum_update_by_type kind (some checksum) offset (some octets) (length octets) ≡ (
        if kind == checksum_modular
        then (true, some ((checksum + weighted_sum offset octets) % 2 ^ 32))
        else if kind == checksum_null
        then (true, some 0)
        else (false, some checksum))
unfolding checksum_update_by_type checksum_type_supported
checksum_update_by_type_lem kind checksum offset octets h k l =
    rw (checksum_update-weighted_sum checksum offset octets h k l) (ground arith)
