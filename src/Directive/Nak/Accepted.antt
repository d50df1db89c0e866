-- ===== src/Directive/Nak/Accepted.antt =====
-- What the NAK decoder may answer on any octets.
use native.Mathlib.Nat.{add-zero}
use embedded_cfdp.Base.{
  ℕ, zero, suc, ◌+◌, ◌-◌, ◌*◌, ◌/◌, ◌%◌, ◌≤◌, ◌≡◌, ◌⊎◌, inl, inr, bool_cases, refl, sym, ◌∙◌, arith,
  List, some, true, false, ◌&&◌, ◌||◌, ltb, ◌==◌, ◌!=◌, length, length-set, drop, get_or, set,
}
use embedded_cfdp.Buffer.{get_uint}
use embedded_cfdp.Common.{file_size_octets, file_size_octets_cases}
use embedded_cfdp.Directive.Nak.{
  SegmentRequest, Nak, nak_max_segment_requests, nak_read_requests, nak_parse_segment_requests,
  nak_deserialize,
}
use embedded_cfdp.Directive.Nak.Requests.{requests_size, requests_size_lem}
use embedded_cfdp.Directive.Nak.Layout.{nak_size}

-- However the octets read, the loop fills as many entries as it runs rounds.
nak_read_requests_counts :
    (left i pos : ℕ) (buf : List ℕ) (fs : ℕ) (nak : Nak)
    → (got : List SegmentRequest) × (nak_read_requests left i pos buf fs nak ≡ (
      pos + requests_size fs left,
      record nak {
        segment_requests = got;
        segment_request_count = nak.segment_request_count + left;
      },
    ))
      × (length got ≡ length nak.segment_requests)
unfolding nak_read_requests requests_size
nak_read_requests_counts zero i pos buf fs nak =
    let here = sym (add-zero pos) in
    let counted = sym (add-zero nak.segment_request_count) in
    (nak.segment_requests, (λ j. (here j, record nak { segment_request_count = counted j })), refl)
nak_read_requests_counts (suc left) i pos buf fs nak =
    let request : SegmentRequest = record {
      start_offset = get_uint buf pos fs;
      end_offset = get_uint buf (pos + fs) fs;
    } in
    let stored : Nak = record nak {
      segment_requests = set nak.segment_requests i request;
      segment_request_count = nak.segment_request_count + 1;
    } in
    let (got, run, same) = nak_read_requests_counts left (suc i) (pos + fs + fs) buf fs stored in
    let more : pos + fs + fs + requests_size fs left ≡ pos + (fs + fs + requests_size fs left) =
      omega arith in
    let counted : nak.segment_request_count + 1 + left ≡ nak.segment_request_count + suc left =
      omega arith in
    (
      got,
      run ∙ (λ j.
          (more j, record nak { segment_requests = got; segment_request_count = counted j })),
      same ∙ length-set nak.segment_requests i request,
    )

-- Octets that are a whole number of requests are those of that many.
whole_requests :
    (octets flag : ℕ)
    → octets % (2 * file_size_octets flag) ≡ 0
    → requests_size (file_size_octets flag) (octets / (2 * file_size_octets flag)) ≡ octets
whole_requests octets flag h = elim (file_size_octets_cases flag) [
  | inl e ↦ rw e (omega (arith, rw e at h, (requests_size_lem (octets / 8)).0))
  | inr e ↦ rw e (omega (arith, rw e at h, (requests_size_lem (octets / 16)).1))
]

no_octets :
    (flag : ℕ) → (0 % (2 * file_size_octets flag) ≡ 0) × (0 / (2 * file_size_octets flag) ≡ 0)
no_octets flag = elim (file_size_octets_cases flag) [
  | inl e ↦ rw e (refl, refl)
  | inr e ↦ rw e (refl, refl)
]

refused_not_empty :
    (octets flag : ℕ)
    → (octets % (2 * file_size_octets flag) != 0
        || ltb nak_max_segment_requests (octets / (2 * file_size_octets flag)))
      ≡ true
    → 1 ≤ octets
refused_not_empty zero flag h = ground (arith, no_octets flag)
refused_not_empty (suc octets) flag h = omega arith

-- Into a structure with a full array, the NAK decoder either answers 0, or consumes all that it
-- was given, which then are a scope and a whole number of requests; at most 32 of them, and the
-- array keeps its length.
pub nak_deserialize_cases :
    (buf : List ℕ) (buf_len large_file_flag : ℕ) (old : Nak)
    → length old.segment_requests ≡ nak_max_segment_requests
    → ((nak_deserialize (some buf) buf_len large_file_flag (some old)).0 ≡ 0)
      ⊎ ((nak : Nak) × (nak_deserialize (some buf) buf_len large_file_flag (some old)
            ≡ (buf_len, some nak))
          × (nak.segment_request_count ≤ nak_max_segment_requests)
          × (buf_len ≡ nak_size nak large_file_flag)
          × (length nak.segment_requests ≡ nak_max_segment_requests))
unfolding nak_deserialize nak_parse_segment_requests nak_size
nak_deserialize_cases buf buf_len flag old array =
    let fs = file_size_octets flag in
    let octets = buf_len - (1 + fs + fs) in
    let count = octets / (2 * fs) in
    elim (bool_cases (ltb buf_len (1 + 2 * fs) || get_or buf 0 0 != 8)) [
      | inl e ↦ inl (rw e refl)
      | inr e ↦ elim (bool_cases (octets % (2 * fs) != 0 || ltb nak_max_segment_requests count)) [
        | inl f ↦
            let some_left = refused_not_empty octets flag f in
            let behind : (buf_len != (1 + fs + fs)) ≡ true = ground arith in
            inl (rw (e, f, behind) refl)
        | inr f ↦
            let scoped : Nak = record old {
              start_of_scope = get_uint buf 1 fs;
              end_of_scope = get_uint buf (1 + fs) fs;
              segment_request_count = 0;
            } in
            let (got, run, same) =
              nak_read_requests_counts count 0 0 (drop (1 + fs + fs) buf) fs scoped in
            let whole = whole_requests octets flag (ground arith) in
            let none_before : (n : ℕ) → 0 + n ≡ n = λ n. omega arith in
            let counted = none_before count in
            let consumed = none_before (requests_size fs count) ∙ whole in
            let parsed : nak_read_requests count 0 0 (drop (1 + fs + fs) buf) fs scoped ≡ (
              octets,
              record scoped { segment_requests = got; segment_request_count = count },
            ) =
              run ∙ λ j. (
                consumed j,
                record scoped { segment_requests = got; segment_request_count = counted j },
              ) in
            let read_out : ((octets == 0) && buf_len != (1 + fs + fs)) ≡ false = ground arith in
            let total : 1 + fs + fs + octets ≡ buf_len = ground arith in
            inr (
              record scoped { segment_requests = got; segment_request_count = count },
              rw (e, f, parsed, read_out, total) refl,
              ground arith,
              ground (arith, whole),
              same ∙ array,
            )
      ]
    ]
