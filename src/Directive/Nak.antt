-- ===== src/Directive/Nak.antt =====
-- The NAK PDU: `cfdp_nak_pdu_t` and its codec. The array of segment requests is a list, which
-- has `CFDP_NAK_MAX_SEGMENT_REQUESTS` entries in a structure of the code.
pub mod Requests
pub mod Layout
pub mod RoundTrip
pub mod Accepted
use embedded_cfdp.Base.{
  ℕ, zero, suc, ◌+◌, ◌-◌, ◌*◌, ◌/◌, ◌%◌, List, Option, none, some, ◌&&◌, ◌||◌, ltb, ◌==◌, ◌!=◌,
  if◌then◌else◌, set, get_or, drop,
}
use embedded_cfdp.Buffer.{Pointer, put_uint, get_uint}
use embedded_cfdp.Common.{file_size_octets}
use embedded_cfdp.Common.DirectiveCode

abbrev pub nak_max_segment_requests : ℕ
nak_max_segment_requests = 32

-- `cfdp_segment_request_t`
pub record SegmentRequest : Type 0 where
  pub start_offset : ℕ
  pub end_offset : ℕ

-- What an access outside the array would give; no access of the code is.
abbrev pub blank_request : SegmentRequest
blank_request = record { start_offset = 0; end_offset = 0 }

-- `cfdp_nak_pdu_t`
pub record Nak : Type 0 where
  pub start_of_scope : ℕ
  pub end_of_scope : ℕ
  pub segment_requests : List SegmentRequest
  pub segment_request_count : ℕ

-- The loop of `cfdp_nak_serialize`, with `left` rounds to go: `pos` and the buffer.
unfoldable pub nak_write_requests : ℕ → ℕ → ℕ → List SegmentRequest → ℕ → List ℕ → ℕ × List ℕ
nak_write_requests zero i pos requests fs buf = (pos, buf)
nak_write_requests (suc left) i pos requests fs buf =
    let request = get_or requests i blank_request in
    let started = put_uint buf pos request.start_offset fs in
    let ended = put_uint started (pos + fs) request.end_offset fs in
    nak_write_requests left (suc i) (pos + fs + fs) requests fs ended

-- `cfdp_nak_serialize`
unfoldable pub nak_serialize : Option Nak → ℕ → Pointer → ℕ → ℕ × Pointer
nak_serialize (some nak) large_file_flag (some buf) buf_len =
    let fs = file_size_octets large_file_flag in
    let pair = 2 * fs in
    let size = 1 + pair + nak.segment_request_count * pair in
    let code = set buf 0 DirectiveCode.nak in
    let started = put_uint code 1 nak.start_of_scope fs in
    let ended = put_uint started (1 + fs) nak.end_of_scope fs in
    let (pos, out) =
      nak_write_requests nak.segment_request_count 0 (1 + fs + fs) nak.segment_requests fs ended in
    if ltb nak_max_segment_requests nak.segment_request_count
    then (0, some buf)
    else if ltb buf_len size
    then (0, some buf)
    else (pos, some out)
nak_serialize _ _ buf _ = (0, buf)

-- The loop of `cfdp_nak_parse_segment_requests`, with `left` rounds to go: `pos` and the NAK.
pub nak_read_requests : ℕ → ℕ → ℕ → List ℕ → ℕ → Nak → ℕ × Nak
nak_read_requests zero i pos buf fs nak = (pos, nak)
nak_read_requests (suc left) i pos buf fs nak =
    let request : SegmentRequest = record {
      start_offset = get_uint buf pos fs;
      end_offset = get_uint buf (pos + fs) fs;
    } in
    nak_read_requests left (suc i) (pos + fs + fs) buf fs (record nak {
      segment_requests = set nak.segment_requests i request;
      segment_request_count = nak.segment_request_count + 1;
    })

-- `cfdp_nak_parse_segment_requests`
pub nak_parse_segment_requests : List ℕ → ℕ → ℕ → Nak → ℕ × Nak
nak_parse_segment_requests buf buf_len fs nak =
    let pair = 2 * fs in
    let count = buf_len / pair in
    let parsed = nak_read_requests count 0 0 buf fs (record nak { segment_request_count = 0 }) in
    if buf_len % pair != 0 || ltb nak_max_segment_requests count then (0, nak) else parsed

-- `cfdp_nak_deserialize`
unfoldable pub nak_deserialize : Pointer → ℕ → ℕ → Option Nak → ℕ × Option Nak
nak_deserialize (some buf) buf_len large_file_flag (some nak) =
    let fs = file_size_octets large_file_flag in
    let pair = 2 * fs in
    let scoped = record nak {
      start_of_scope = get_uint buf 1 fs;
      end_of_scope = get_uint buf (1 + fs) fs;
    } in
    let pos = 1 + fs + fs in
    let (n, out) = nak_parse_segment_requests (drop pos buf) (buf_len - pos) fs scoped in
    if ltb buf_len (1 + pair) || get_or buf 0 0 != DirectiveCode.nak
    then (0, some nak)
    else if (n == 0) && buf_len != pos
    then (0, some out)
    else (pos + n, some out)
nak_deserialize _ _ _ nak = (0, nak)
