-- ===== src/Directive/Nak/Requests.antt =====
-- The two loops over the segment requests of a NAK.
use native.Mathlib.Nat.{add-zero}
use embedded_cfdp.Base.{
  ℕ, zero, suc, ◌+◌, ◌*◌, ◌^◌, ◌≤◌, ◌<◌, ◌≡◌, refl, ap, ap₂, sym, ◌∙◌, arith, List, [], ◌∷◌, ◌++◌,
  append-nil, append_assoc, length, length-set, take, drop, set, get_or, drop-cons, drop_behind,
  All,
}
use embedded_cfdp.Buffer.Overlay.{Wrote, Wrote-uint, Wrote-same}
use embedded_cfdp.Endian.{read_uint}
use embedded_cfdp.Endian.Octets.{be_octets, length-be_octets}
use embedded_cfdp.Endian.Read.{read_uint-be_octets}
use embedded_cfdp.Directive.Nak.{
  SegmentRequest, blank_request, Nak, nak_write_requests, nak_read_requests,
}

-- The octets of a list of requests, and their number for `count` requests.
unfoldable pub requests_octets : ℕ → List SegmentRequest → List ℕ
requests_octets fs [] = []
requests_octets fs (r ∷ rs) =
    be_octets fs r.start_offset ++ (be_octets fs r.end_offset ++ requests_octets fs rs)

unfoldable pub requests_size : ℕ → ℕ → ℕ
requests_size fs zero = 0
requests_size fs (suc count) = fs + fs + requests_size fs count

abbrev pub IsRequest : ℕ → SegmentRequest → Type 0
IsRequest fs r = (r.start_offset < 256 ^ fs) × (r.end_offset < 256 ^ fs)

pub requests_size_lem :
    (count : ℕ) → (requests_size 4 count ≡ count * 8) × (requests_size 8 count ≡ count * 16)
unfolding requests_size
requests_size_lem zero = (refl, refl)
requests_size_lem (suc count) = let (a, b) = requests_size_lem count in (omega arith, omega arith)

pub nak_write_requests-Wrote :
    (left i : ℕ) (requests : List SegmentRequest) (fs : ℕ) {buf front out : List ℕ} {pos : ℕ}
    → Wrote buf front pos out
    → i + left ≤ length requests
    → pos + requests_size fs left ≤ length buf
    → Wrote buf
        (front ++ requests_octets fs (take left (drop i requests)))
        (pos + requests_size fs left)
        (nak_write_requests left i pos requests fs out).1
      × ((nak_write_requests left i pos requests fs out).0 ≡ pos + requests_size fs left)
unfolding nak_write_requests requests_octets requests_size
nak_write_requests-Wrote zero i requests fs {front = front} w h room =
    (Wrote-same w (sym (append-nil front)) (omega arith), omega arith)
nak_write_requests-Wrote (suc left) i requests fs {buf} {front} {out} {pos} w h room =
    let r = get_or requests i blank_request in
    let both =
      Wrote-uint r.end_offset fs (Wrote-uint r.start_offset fs w (omega arith)) (omega arith) in
    let (rest, count) =
      nak_write_requests-Wrote left (suc i) requests fs both (omega arith) (omega arith) in
    let here : drop i requests ≡ r ∷ drop (suc i) requests =
      drop-cons i requests blank_request (omega arith) in
    (Wrote-same rest (rw here (simp append_assoc)) (omega arith), count ∙ omega arith)

take-set :
    (i : ℕ) (rs : List SegmentRequest) (r : SegmentRequest)
    → i < length rs
    → take (suc i) (set rs i r) ≡ take i rs ++ (r ∷ [])
take-set i [] r h = absurd (omega arith)
take-set zero (x ∷ rs) r h = refl
take-set (suc i) (x ∷ rs) r h = ap (λ t. x ∷ t) (take-set i rs r (omega arith))

abbrev request : ℕ → ℕ → SegmentRequest
request a b = record { start_offset = a; end_offset = b }

-- One round's change to the structure.
abbrev store : Nak → ℕ → SegmentRequest → Nak
store nak i r = record nak {
  segment_requests = set nak.segment_requests i r;
  segment_request_count = nak.segment_request_count + 1;
}

-- The requests are read from their octets into the array, from entry `i` on.
pub nak_read_requests_lem :
    (rs : List SegmentRequest) (i pos : ℕ) (buf rest : List ℕ) (fs : ℕ) (nak : Nak)
    → fs ≤ 8
    → drop pos buf ≡ requests_octets fs rs ++ rest
    → All (IsRequest fs) rs
    → i + length rs ≤ length nak.segment_requests
    → (got : List SegmentRequest) × (nak_read_requests (length rs) i pos buf fs nak ≡ (
      pos + requests_size fs (length rs),
      record nak {
        segment_requests = got;
        segment_request_count = nak.segment_request_count + length rs;
      },
    ))
      × (take (i + length rs) got ≡ take i nak.segment_requests ++ rs)
unfolding nak_read_requests requests_octets requests_size
nak_read_requests_lem [] i pos buf rest fs nak k e h room = (
  nak.segment_requests,
  (let here = sym (add-zero pos) in
      let counted = sym (add-zero nak.segment_request_count) in
      λ j. (here j, record nak { segment_request_count = counted j })),
  ap (λ n. take n nak.segment_requests) (add-zero i)
      ∙ sym (append-nil (take i nak.segment_requests)),
)
nak_read_requests_lem (r ∷ rs) i pos buf rest fs nak k e h room =
    let tail = requests_octets fs rs ++ rest in
    let start : drop pos buf ≡ be_octets fs r.start_offset ++ (be_octets fs r.end_offset ++ tail) =
      e ∙ simp append_assoc in
    let stop : drop (pos + fs) buf ≡ be_octets fs r.end_offset ++ tail =
      drop_behind pos (pos + fs) buf (be_octets fs r.start_offset)
        (be_octets fs r.end_offset ++ tail) start
        (omega (arith, length-be_octets fs r.start_offset)) in
    let next : drop (pos + fs + fs) buf ≡ tail =
      drop_behind (pos + fs) (pos + fs + fs) buf (be_octets fs r.end_offset) tail stop
        (omega (arith, length-be_octets fs r.end_offset)) in
    let first : read_uint (drop pos buf) fs ≡ r.start_offset =
      read_uint-be_octets (drop pos buf) fs r.start_offset _ start k h.0.0 in
    let second : read_uint (drop (pos + fs) buf) fs ≡ r.end_offset =
      read_uint-be_octets (drop (pos + fs) buf) fs r.end_offset _ stop k h.0.1 in
    let stored : Nak = record nak {
      segment_requests = set nak.segment_requests i r;
      segment_request_count = nak.segment_request_count + 1;
    } in
    let (got, run, same) =
      nak_read_requests_lem rs (suc i) (pos + fs + fs) buf rest fs stored k next h.1
        (omega (arith, length-set nak.segment_requests i r)) in
    (
      got,
      step first second
          ∙ (run ∙ λ j.
              (more j, record nak { segment_requests = got; segment_request_count = counted j })),
      ap (λ n. take n got) (omega arith)
          ∙ same
          ∙ ap (λ f. f ++ rs) (take-set i nak.segment_requests r (omega arith))
          ∙ append_assoc (take i nak.segment_requests) (r ∷ []) rs,
    )
  where
    step :
        {a b : ℕ}
        → read_uint (drop pos buf) fs ≡ a
        → read_uint (drop (pos + fs) buf) fs ≡ b
        → nak_read_requests (suc (length rs)) i pos buf fs nak
          ≡ nak_read_requests (length rs) (suc i) (pos + fs + fs) buf fs (store nak i (request a b))
    step e f =
        ap₂
          (λ a b.
            nak_read_requests (length rs) (suc i) (pos + fs + fs) buf fs
              (store nak i (request a b)))
          e f

    more :
        pos + fs + fs + requests_size fs (length rs)
        ≡ pos + (fs + fs + requests_size fs (length rs))
    more = omega arith

    counted :
        nak.segment_request_count + 1 + length rs ≡ nak.segment_request_count + suc (length rs)
    counted = omega arith
