-- ===== src/Pdu/FileData.antt =====
-- The File Data PDU: `cfdp_file_data_pdu_t`, its codec, and `cfdp_pdu_directive_code`.
pub mod Layout
pub mod RoundTrip
pub mod Accepted
use embedded_cfdp.Base.{
  ℕ, ◌+◌, ◌-◌, List, [], Option, none, some, Bool, true, false, not, ◌&&◌, ◌||◌, ltb, leb, ◌==◌,
  ◌!=◌, if◌then◌else◌, is_null, deref, set, get_or, drop, bit_and, bit_or, u8, u64, ◌<<◌, ◌>>◌,
}
use embedded_cfdp.Buffer.{Pointer, put_uint, put_octets, get_uint}
use embedded_cfdp.Common.{
  seg_metadata_present, segment_metadata_max_len, record_cont_neither, file_size_octets,
}

-- `cfdp_file_data_pdu_t`
pub record FileData : Type 0 where
  pub offset : ℕ
  pub file_data : Pointer
  pub file_data_len : ℕ
  pub record_continuation : ℕ
  pub segment_metadata : Pointer
  pub segment_metadata_len : ℕ

-- `cfdp_segment_metadata_consistent`
unfoldable pub segment_metadata_consistent : FileData → ℕ → Bool
segment_metadata_consistent fd segment_metadata_flag =
    if segment_metadata_flag != seg_metadata_present
    then (fd.segment_metadata_len == 0) && is_null fd.segment_metadata
    else leb fd.segment_metadata_len segment_metadata_max_len
      && (not (is_null fd.segment_metadata) || (fd.segment_metadata_len == 0))

-- `cfdp_segment_metadata_write`
unfoldable pub segment_metadata_write : FileData → List ℕ → ℕ × List ℕ
segment_metadata_write fd buf =
    let first = u8 (
      bit_or (bit_and (u8 fd.record_continuation) 0x3 << 6)
        (bit_and fd.segment_metadata_len 0x3F)) in
    let headed = set buf 0 first in
    let whole = put_octets headed 1 (deref [] fd.segment_metadata) fd.segment_metadata_len in
    (fd.segment_metadata_len + 1, if ltb 0 fd.segment_metadata_len then whole else headed)

-- The last part of `cfdp_file_data_serialize`: offset and file data, from `pos` on.
unfoldable pub file_data_write : FileData → ℕ → ℕ → List ℕ → ℕ × List ℕ
file_data_write fd offset_octets pos buf =
    let with_offset = put_uint buf pos fd.offset offset_octets in
    let end_pos = pos + offset_octets in
    let whole = put_octets with_offset end_pos (deref [] fd.file_data) fd.file_data_len in
    if ltb 0 fd.file_data_len
    then (u64 (end_pos + fd.file_data_len), whole)
    else (end_pos, with_offset)

-- `cfdp_file_data_serialize`
unfoldable pub file_data_serialize : Option FileData → ℕ → ℕ → Pointer → ℕ → ℕ × Pointer
file_data_serialize (some fd) large_file_flag segment_metadata_flag (some buf) buf_len =
    let with_metadata = segment_metadata_flag == seg_metadata_present in
    let metadata_size = if with_metadata then fd.segment_metadata_len + 1 else 0 in
    let offset_octets = file_size_octets large_file_flag in
    let size = u64 (metadata_size + offset_octets + fd.file_data_len) in
    let (pos, headed) = if with_metadata then segment_metadata_write fd buf else (0, buf) in
    let (end_pos, out) = file_data_write fd offset_octets pos headed in
    if (is_null fd.file_data && ltb 0 fd.file_data_len)
      || not (segment_metadata_consistent fd segment_metadata_flag)
    then (0, some buf)
    else if ltb buf_len size
    then (0, some buf)
    else (end_pos, some out)
file_data_serialize _ large_file_flag segment_metadata_flag buf buf_len = (0, buf)

-- `cfdp_segment_metadata_read`
unfoldable pub segment_metadata_read : List ℕ → ℕ → FileData → ℕ × FileData
segment_metadata_read buf buf_len fd =
    let first = get_or buf 0 0 in
    let len = u8 (bit_and first 0x3F) in
    let begun = record fd {
      record_continuation = bit_and (first >> 6) 0x3;
      segment_metadata_len = len;
    } in
    if ltb buf_len 1 then (0, fd) else if ltb buf_len (len + 1) then (0, begun) else (
      len + 1,
      record begun { segment_metadata = if ltb 0 len then some (drop 1 buf) else none },
    )

-- The last part of `cfdp_file_data_deserialize`, with `pos` octets of metadata read.
unfoldable pub file_data_read : List ℕ → ℕ → ℕ → ℕ → FileData → ℕ × FileData
file_data_read buf buf_len offset_octets pos fd =
    let end_pos = pos + offset_octets in
    if ltb buf_len end_pos then (0, fd) else (
      buf_len,
      record fd {
        offset = get_uint buf pos offset_octets;
        file_data = if ltb end_pos buf_len then some (drop end_pos buf) else none;
        file_data_len = buf_len - end_pos;
      },
    )

-- `cfdp_file_data_deserialize`
unfoldable pub file_data_deserialize : Pointer → ℕ → ℕ → ℕ → Option FileData → ℕ × Option FileData
file_data_deserialize (some buf) buf_len large_file_flag segment_metadata_flag (some fd) =
    let reset = record fd {
      record_continuation = record_cont_neither;
      segment_metadata = none;
      segment_metadata_len = 0;
    } in
    let with_metadata = segment_metadata_flag == seg_metadata_present in
    let (pos, headed) =
      if with_metadata then segment_metadata_read buf buf_len reset else (0, reset) in
    let (consumed, out) =
      file_data_read buf buf_len (file_size_octets large_file_flag) pos headed in
    if with_metadata && (pos == 0) then (0, some headed) else (consumed, some out)
file_data_deserialize _ buf_len large_file_flag segment_metadata_flag fd = (0, fd)

-- `cfdp_pdu_directive_code`
unfoldable pub directive_code : Pointer → ℕ → Option ℕ → Bool × Option ℕ
directive_code (some buf) buf_len (some code) =
    if buf_len == 0 then (false, some code) else (true, some (get_or buf 0 0))
directive_code _ buf_len code = (false, code)
