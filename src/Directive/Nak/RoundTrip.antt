-- ===== src/Directive/Nak/RoundTrip.antt =====
-- What the NAK decoder reads back from the octets of a NAK.
use embedded_cfdp.Base.{
  ℕ, ◌+◌, ◌-◌, ◌*◌, ◌/◌, ◌%◌, ◌≤◌, ◌≡◌, inl, inr, refl, ap, sym, ◌∙◌, arith, List, [], ◌∷◌, ◌++◌,
  append_assoc, some, length, length-take, drop, drop_behind, take, get_or, All,
}
use embedded_cfdp.Buffer.Overlay.{overlay}
use embedded_cfdp.Common.{file_size_octets, file_size_octets_cases}
use embedded_cfdp.Endian.{read_uint}
use embedded_cfdp.Endian.Octets.{be_octets, length-be_octets}
use embedded_cfdp.Endian.Read.{read_uint-be_octets}
use embedded_cfdp.Directive.Nak.{
  SegmentRequest, Nak, nak_max_segment_requests, nak_serialize, nak_parse_segment_requests,
  nak_deserialize,
}
use embedded_cfdp.Directive.Nak.Requests.{
  requests_octets, requests_size, requests_size_lem, IsRequest, nak_read_requests_lem,
}
use embedded_cfdp.Directive.Nak.Layout.{
  requested, IsNak, nak_octets, nak_size, nak_serialize-octets,
}

-- The scope, and the number of requests in what follows it, as the code computes it.
division_lem :
    (count flag : ℕ)
    → (requests_size (file_size_octets flag) count / (2 * file_size_octets flag) ≡ count)
      × (requests_size (file_size_octets flag) count % (2 * file_size_octets flag) ≡ 0)
division_lem count flag = elim (file_size_octets_cases flag) [
  | inl e ↦ rw (e, (requests_size_lem count).0) (omega arith, omega arith)
  | inr e ↦ rw (e, (requests_size_lem count).1) (omega arith, omega arith)
]

-- The number of requests is found from the octets that hold them, and all are read.
parse_lem :
    (rs : List SegmentRequest) (flag : ℕ) (buf rest : List ℕ) (nak : Nak)
    → buf ≡ requests_octets (file_size_octets flag) rs ++ rest
    → All (IsRequest (file_size_octets flag)) rs
    → length rs ≤ nak_max_segment_requests
    → length nak.segment_requests ≡ nak_max_segment_requests
    → (got : List SegmentRequest) × (nak_parse_segment_requests buf
          (requests_size (file_size_octets flag) (length rs))
          (file_size_octets flag)
          nak
        ≡ (
          requests_size (file_size_octets flag) (length rs),
          record nak { segment_requests = got; segment_request_count = length rs },
        ))
      × (take (length rs) got ≡ rs)
unfolding nak_parse_segment_requests
parse_lem rs flag buf rest nak e h small array =
    let fs = file_size_octets flag in
    let emptied : Nak = record nak { segment_request_count = 0 } in
    let (count, none_left) = division_lem (length rs) flag in
    let (got, run, same) =
      nak_read_requests_lem rs 0 0 buf rest fs emptied (ground (arith, file_size_octets_cases flag))
        e h (omega arith) in
    (
      got,
      rw (count, none_left) (ground arith) ∙ run ∙ (λ j. (
        from_zero (requests_size fs (length rs)) j,
        record nak { segment_requests = got; segment_request_count = from_zero (length rs) j },
      )),
      ap (λ n. take n got) (sym (from_zero (length rs))) ∙ same,
    )
  where
    from_zero : (n : ℕ) → 0 + n ≡ n
    from_zero n = omega arith

-- Two NAKs that ask for the same: equal scopes, and equal requests as far as they count.
pub record SameNak (a b : Nak) : Type 0 where
  pub start_of_scope : a.start_of_scope ≡ b.start_of_scope
  pub end_of_scope : a.end_of_scope ≡ b.end_of_scope
  pub count : a.segment_request_count ≡ b.segment_request_count
  pub requests : requested a ≡ requested b

module _ (nak old : Nak) (flag : ℕ) (buf rest : List ℕ) (ok : IsNak nak flag)
    (array : length old.segment_requests ≡ nak_max_segment_requests)
    (whole : buf ≡ nak_octets nak flag ++ rest) where
  abbrev fs : ℕ
  fs = file_size_octets flag

  abbrev rs : List SegmentRequest
  rs = requested nak

  count : length rs ≡ nak.segment_request_count
  count =
      length-take nak.segment_request_count nak.segment_requests (omega (arith, ok.array, ok.count))

  abbrev tail : List ℕ
  tail = requests_octets fs rs ++ rest

  small : fs ≤ 8
  small = ground (arith, file_size_octets_cases flag)

  layout :
      (m : ℕ)
      → ((8 ∷ [])
            ++ be_octets m nak.start_of_scope
            ++ be_octets m nak.end_of_scope
            ++ requests_octets m rs)
          ++ rest
        ≡ 8
          ∷ (be_octets m nak.start_of_scope
              ++ (be_octets m nak.end_of_scope ++ (requests_octets m rs ++ rest)))
  layout m = simp append_assoc

  first : drop 1 buf ≡ be_octets fs nak.start_of_scope ++ (be_octets fs nak.end_of_scope ++ tail)
  unfolding nak_octets
  first = ap (drop 1) (whole ∙ layout fs)

  second : drop (1 + fs) buf ≡ be_octets fs nak.end_of_scope ++ tail
  second =
      drop_behind 1 (1 + fs) buf (be_octets fs nak.start_of_scope) _ first
        (ap (λ n. 1 + n) (length-be_octets fs nak.start_of_scope))

  third : drop (1 + fs + fs) buf ≡ tail
  third =
      drop_behind (1 + fs) (1 + fs + fs) buf (be_octets fs nak.end_of_scope) tail second
        (ap (λ n. 1 + fs + n) (length-be_octets fs nak.end_of_scope))

  code : get_or buf 0 0 ≡ 8
  unfolding nak_octets
  code = ap (λ b. get_or b 0 0) (whole ∙ layout fs)

  start : read_uint (drop 1 buf) fs ≡ nak.start_of_scope
  start = read_uint-be_octets (drop 1 buf) fs nak.start_of_scope _ first small ok.start_of_scope

  stop : read_uint (drop (1 + fs) buf) fs ≡ nak.end_of_scope
  stop = read_uint-be_octets (drop (1 + fs) buf) fs nak.end_of_scope _ second small ok.end_of_scope

  abbrev scoped : Nak
  scoped = record old { start_of_scope = nak.start_of_scope; end_of_scope = nak.end_of_scope }

  parsed :
      (got : List SegmentRequest) × (nak_parse_segment_requests
          (drop (1 + fs + fs) buf)
          (requests_size fs (length rs))
          fs
          scoped
        ≡ (
          requests_size fs (length rs),
          record scoped { segment_requests = got; segment_request_count = length rs },
        ))
      × (take (length rs) got ≡ rs)
  parsed =
      parse_lem rs flag (drop (1 + fs + fs) buf) rest scoped third ok.requests
        (omega (arith, count, ok.count)) array

  left :
      1 + fs + fs + requests_size fs nak.segment_request_count - (1 + fs + fs)
      ≡ requests_size fs (length rs)
  left = omega (arith, ap (requests_size fs) count)

  nak_deserialize_lem :
      (got : Nak) × (nak_deserialize (some buf) (nak_size nak flag) flag (some old)
        ≡ (nak_size nak flag, some got))
      × SameNak got nak
  unfolding nak_deserialize nak_size
  nak_deserialize_lem = (
    record scoped { segment_requests = parsed.0; segment_request_count = length rs },
    rw (code, start, stop, left, parsed.1) (ground (arith, ap (requests_size fs) count)),
    record { start_of_scope = refl; end_of_scope = refl; count = count; requests = parsed.2 },
  )

-- A NAK that can be sent, written into a buffer with room for it, is read back under the same
-- large file flag into a structure with a full array: all octets are consumed, and the scope,
-- the number of requests and the requests that count come back, whatever else the array holds.
pub nak_round_trip :
    (nak old : Nak) (large_file_flag : ℕ) (buf : List ℕ) (buf_len : ℕ)
    → IsNak nak large_file_flag
    → length old.segment_requests ≡ nak_max_segment_requests
    → nak_size nak large_file_flag ≤ buf_len
    → buf_len ≤ length buf
    → let (n, out) = nak_serialize (some nak) large_file_flag (some buf) buf_len in
      (got : Nak) × (nak_deserialize out n large_file_flag (some old) ≡ (n, some got))
      × SameNak got nak
      × (n ≡ nak_size nak large_file_flag)
unfolding overlay
nak_round_trip nak old large_file_flag buf buf_len ok array room inside =
    rw (nak_serialize-octets nak large_file_flag buf buf_len ok room inside) (
      let (got, e, same) = nak_deserialize_lem nak old large_file_flag _ _ ok array refl in
      (got, e, same, refl))
