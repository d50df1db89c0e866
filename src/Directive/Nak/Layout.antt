-- ===== src/Directive/Nak/Layout.antt =====
-- The octets that the NAK codec writes.
use embedded_cfdp.Base.{
  ℕ, ◌+◌, ◌*◌, ◌^◌, ◌≤◌, ◌<◌, ◌≡◌, inl, inr, ap, ◌∙◌, arith, List, [], ◌∷◌, ◌++◌, append_assoc,
  some, length, take, All,
}
use embedded_cfdp.Buffer.Overlay.{overlay, Wrote-nothing, Wrote-octet, Wrote-uint}
use embedded_cfdp.Common.{file_size_octets, file_size_octets_cases}
use embedded_cfdp.Endian.Octets.{be_octets}
use embedded_cfdp.Directive.Nak.{SegmentRequest, Nak, nak_max_segment_requests, nak_serialize}
use embedded_cfdp.Directive.Nak.Requests.{
  requests_octets, requests_size, requests_size_lem, IsRequest, nak_write_requests-Wrote,
}

-- The requests that count.
abbrev pub requested : Nak → List SegmentRequest
requested nak = take nak.segment_request_count nak.segment_requests

-- A NAK whose array has its full length, and whose offsets fit the wire.
pub record IsNak (nak : Nak) (large_file_flag : ℕ) : Type 0 where
  pub array : length nak.segment_requests ≡ nak_max_segment_requests
  pub count : nak.segment_request_count ≤ nak_max_segment_requests
  pub start_of_scope : nak.start_of_scope < 256 ^ file_size_octets large_file_flag
  pub end_of_scope : nak.end_of_scope < 256 ^ file_size_octets large_file_flag
  pub requests : All (IsRequest (file_size_octets large_file_flag)) (requested nak)

unfoldable pub nak_octets : Nak → ℕ → List ℕ
nak_octets nak large_file_flag =
    let fs = file_size_octets large_file_flag in
    (8 ∷ [])
    ++ be_octets fs nak.start_of_scope
    ++ be_octets fs nak.end_of_scope
    ++ requests_octets fs (requested nak)

unfoldable pub nak_size : Nak → ℕ → ℕ
nak_size nak large_file_flag =
    let fs = file_size_octets large_file_flag in
    1 + fs + fs + requests_size fs nak.segment_request_count

-- The size that the code computes.
size_lem :
    (count flag : ℕ)
    → count * (2 * file_size_octets flag) ≡ requests_size (file_size_octets flag) count
size_lem count flag = elim (file_size_octets_cases flag) [
  | inl e ↦ rw e (omega (arith, (requests_size_lem count).0))
  | inr e ↦ rw e (omega (arith, (requests_size_lem count).1))
]

-- A NAK that can be sent and a buffer with room for it: the serialiser answers the size of the
-- PDU and lays out the scope, and then the requests that count.
pub nak_serialize-octets :
    (nak : Nak) (large_file_flag : ℕ) (buf : List ℕ) (buf_len : ℕ)
    → IsNak nak large_file_flag
    → nak_size nak large_file_flag ≤ buf_len
    → buf_len ≤ length buf
    → nak_serialize (some nak) large_file_flag (some buf) buf_len
      ≡ (nak_size nak large_file_flag, some (overlay (nak_octets nak large_file_flag) buf))
unfolding nak_serialize nak_size nak_octets
nak_serialize-octets nak large_file_flag buf buf_len ok room inside =
    let fs = file_size_octets large_file_flag in
    let scope =
      Wrote-uint nak.end_of_scope fs
        (Wrote-uint nak.start_of_scope fs (Wrote-octet 8 (Wrote-nothing buf) (omega arith))
          (omega arith))
        (omega arith) in
    let (all, pos) =
      nak_write_requests-Wrote nak.segment_request_count 0 nak.segment_requests fs scope
        (omega (arith, ok.array, ok.count)) (omega arith) in
    ground (
      arith,
      size_lem nak.segment_request_count large_file_flag,
      ok.count,
      pos,
      all.octets ∙ ap (λ f. overlay f buf) (layout fs),
    )
  where
    layout :
        (fs : ℕ)
        → (((8 ∷ []) ++ be_octets fs nak.start_of_scope) ++ be_octets fs nak.end_of_scope)
            ++ requests_octets fs (requested nak)
          ≡ (8 ∷ [])
            ++ be_octets fs nak.start_of_scope
            ++ be_octets fs nak.end_of_scope
            ++ requests_octets fs (requested nak)
    layout fs = simp append_assoc
