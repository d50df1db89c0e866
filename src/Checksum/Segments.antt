-- ===== src/Checksum/Segments.antt =====
-- The checksum of a file that arrives in segments, in any order.
use native.Mathlib.Nat.{ℕ_set}
use mathlib.Core.List.{Perm, Permᴰ}
use mathlib.Core.Logic.{∥∥₁_elim}
use mathlib.Core.Path.{subst}
use embedded_cfdp.Base.{
  ℕ, ◌+◌, ◌%◌, ◌^◌, ◌≤◌, ◌≡◌, refl, ap, ap₂, sym, ◌∙◌, arith, List, [], ◌∷◌, ◌++◌, some, IsU32,
  IsByte, All, All-append, length, length-append,
}
use embedded_cfdp.Checksum.{checksum_update}
use embedded_cfdp.Checksum.Lanes.{weighted_sum, weighted_sum-append, checksum_update-weighted_sum}

-- A segment is its offset in the file and its octets.
abbrev pub Segment : Type 0
Segment = ℕ × List ℕ

abbrev pub IsSegment : Segment → Type 0
IsSegment s = (s.0 + length s.1 ≤ 2 ^ 64) × All IsByte s.1

-- A receiver folds each segment into the running checksum as it arrives.
unfoldable pub receive : ℕ → List Segment → ℕ
receive checksum [] = checksum
receive checksum ((offset, octets) ∷ segments) =
    receive (checksum_update checksum offset (some octets) (length octets)) segments

unfoldable pub total : List Segment → ℕ
total [] = 0
total ((offset, octets) ∷ segments) = weighted_sum offset octets + total segments

pub receive-total :
    (checksum : ℕ) (segments : List Segment)
    → IsU32 checksum
    → All IsSegment segments
    → receive checksum segments ≡ (checksum + total segments) % 2 ^ 32
unfolding receive total
receive-total checksum [] h k = omega arith
receive-total checksum ((offset, octets) ∷ segments) h k =
    let head = checksum_update-weighted_sum checksum offset octets h k.0.0 k.0.1 in
    rw head (
      omega (
        arith,
        receive-total ((checksum + weighted_sum offset octets) % 2 ^ 32) segments (omega arith) k.1,
      ))

-- Two neighbouring segments within the first 2 ^ 64 octets of the file fold into a 32-bit
-- checksum as the one that they make up.
pub checksum_update-append :
    (checksum offset : ℕ) (xs ys : List ℕ)
    → IsU32 checksum
    → offset + length xs + length ys ≤ 2 ^ 64
    → All IsByte xs
    → All IsByte ys
    → checksum_update
        (checksum_update checksum offset (some xs) (length xs))
        (offset + length xs)
        (some ys)
        (length ys)
      ≡ checksum_update checksum offset (some (xs ++ ys)) (length (xs ++ ys))
checksum_update-append checksum offset xs ys h k l m =
    let head = checksum_update-weighted_sum checksum offset xs h (omega arith) l in
    rw
      (
        head,
        checksum_update-weighted_sum checksum offset (xs ++ ys) h
            (omega (arith, length-append {0} xs ys)) (All-append IsByte xs ys l m),
        weighted_sum-append,
      )
      (omega (
        arith,
        checksum_update-weighted_sum ((checksum + weighted_sum offset xs) % 2 ^ 32)
            (offset + length xs) ys (omega arith) k m,
      ))

abbrev share : Segment → ℕ
share s = weighted_sum s.0 s.1

total-perm : {s t : List Segment} → Permᴰ s t → total s ≡ total t
unfolding total
total-perm Permᴰ.nil = refl
total-perm (Permᴰ.cons e d) = ap₂ ◌+◌ (ap share e) (total-perm d)
total-perm (Permᴰ.swap e f) = omega (arith, ap share e, ap share f)
total-perm (Permᴰ.trans d e) = total-perm d ∙ total-perm e

IsSegment-perm : {s t : List Segment} → Permᴰ s t → All IsSegment s → All IsSegment t
IsSegment-perm Permᴰ.nil h = h
IsSegment-perm (Permᴰ.cons e d) h = (subst IsSegment e h.0, IsSegment-perm d h.1)
IsSegment-perm (Permᴰ.swap e f) h = (subst IsSegment f h.1.0, (subst IsSegment e h.0, h.1.1))
IsSegment-perm (Permᴰ.trans d e) h = IsSegment-perm e (IsSegment-perm d h)

-- The order in which segments arrive, each within the first 2 ^ 64 octets of the file, does not
-- matter.
pub receive_perm :
    (checksum : ℕ) (s t : List Segment)
    → IsU32 checksum
    → All IsSegment s
    → Perm s t
    → receive checksum s ≡ receive checksum t
receive_perm checksum s t h k p = ∥∥₁_elim p (ℕ_set _ _) λ d.
    receive-total checksum s h k
    ∙ ap (λ n. (checksum + n) % 2 ^ 32) (total-perm d)
    ∙ sym (receive-total checksum t h (IsSegment-perm d k))
