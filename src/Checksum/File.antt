-- ===== src/Checksum/File.antt =====
-- The checksum of a whole file from its segments.
use mathlib.Core.List.{Perm}
use embedded_cfdp.Base.{
  ℕ, ◌+◌, ◌%◌, ◌^◌, ◌≤◌, ◌≡◌, refl, ap, sym, ◌∙◌, arith, List, [], ◌∷◌, ◌++◌, some, IsByte, All,
  All-append, length, length-append,
}
use embedded_cfdp.Checksum.{checksum_compute}
use embedded_cfdp.Checksum.Lanes.{weighted_sum, weighted_sum-append, checksum_update-weighted_sum}
use embedded_cfdp.Checksum.Segments.{
  Segment, IsSegment, receive, total, receive-total, receive_perm,
}

-- The file that pieces make up, and the segments that carry them from `offset` on.
unfoldable pub file_of : List (List ℕ) → List ℕ
file_of [] = []
file_of (piece ∷ pieces) = piece ++ file_of pieces

unfoldable pub segments_from : ℕ → List (List ℕ) → List Segment
segments_from offset [] = []
segments_from offset (piece ∷ pieces) =
    (offset, piece) ∷ segments_from (offset + length piece) pieces

total-segments_from :
    (offset : ℕ) (pieces : List (List ℕ))
    → total (segments_from offset pieces) ≡ weighted_sum offset (file_of pieces)
unfolding total segments_from file_of weighted_sum
total-segments_from offset [] = refl
total-segments_from offset (piece ∷ pieces) = omega (
  arith,
  total-segments_from (offset + length piece) pieces,
  weighted_sum-append offset piece (file_of pieces),
)

segments_from-IsSegment :
    (offset : ℕ) (pieces : List (List ℕ))
    → offset + length (file_of pieces) ≤ 2 ^ 64
    → All (All IsByte) pieces
    → All IsSegment (segments_from offset pieces)
unfolding segments_from file_of
segments_from-IsSegment offset [] room bytes = tt
segments_from-IsSegment offset (piece ∷ pieces) room bytes = (
  (omega (arith, length-append {0} piece (file_of pieces)), bytes.0),
  segments_from-IsSegment (offset + length piece) pieces
      (omega (arith, length-append {0} piece (file_of pieces))) bytes.1,
)

file_of-IsByte : (pieces : List (List ℕ)) → All (All IsByte) pieces → All IsByte (file_of pieces)
unfolding file_of
file_of-IsByte [] bytes = tt
file_of-IsByte (piece ∷ pieces) bytes =
    All-append IsByte piece (file_of pieces) bytes.0 (file_of-IsByte pieces bytes.1)

-- A file of at most 2 ^ 64 octets, cut into pieces of any lengths: a receiver that starts at 0
-- and folds the segments in, in whatever order they arrive, ends with the checksum that
-- `cfdp_checksum_compute` gives for the whole file.
pub receive-checksum_compute :
    (pieces : List (List ℕ)) (arrived : List Segment)
    → length (file_of pieces) ≤ 2 ^ 64
    → All (All IsByte) pieces
    → Perm (segments_from 0 pieces) arrived
    → receive 0 arrived ≡ checksum_compute (some (file_of pieces)) (length (file_of pieces))
unfolding checksum_compute
receive-checksum_compute pieces arrived room bytes p =
    let segments = segments_from-IsSegment 0 pieces (omega arith) bytes in
    sym (receive_perm 0 (segments_from 0 pieces) arrived (omega arith) segments p)
    ∙ receive-total 0 (segments_from 0 pieces) (omega arith) segments
    ∙ ap (λ n. (0 + n) % 2 ^ 32) (total-segments_from 0 pieces)
    ∙ sym (
        checksum_update-weighted_sum 0 0 (file_of pieces) (omega arith) (omega arith)
          (file_of-IsByte pieces bytes))
