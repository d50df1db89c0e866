-- ===== src/Directive/Metadata.antt =====
-- The Metadata PDU: `cfdp_metadata_pdu_t` and its codec.
pub mod Layout
pub mod RoundTrip
pub mod Accepted
use embedded_cfdp.Base.{
  ℕ, ◌+◌, ◌-◌, List, [], Option, none, some, Bool, true, false, ◌&&◌, ◌||◌, ltb, ◌==◌, ◌!=◌,
  if◌then◌else◌, is_null, deref, set, get_or, drop, bit_and, bit_or, u8, u16, ◌<<◌, ◌>>◌,
}
use embedded_cfdp.Buffer.{Pointer, put_uint, put_octets, put_back, get_uint}
use embedded_cfdp.Common.{file_size_octets}
use embedded_cfdp.Common.DirectiveCode
use embedded_cfdp.Tlv.{lv_serialize, lv_deserialize}

-- `cfdp_metadata_pdu_t`
pub record Metadata : Type 0 where
  pub closure_requested : Bool
  pub checksum_type : ℕ
  pub file_size : ℕ
  pub source_filename : Pointer
  pub source_filename_len : ℕ
  pub destination_filename : Pointer
  pub destination_filename_len : ℕ
  pub options : Pointer
  pub options_len : ℕ

-- What `cfdp_metadata_serialize` writes before the file names.
unfoldable pub metadata_write : Metadata → ℕ → List ℕ → List ℕ
metadata_write md fs buf =
    let code = set buf 0 DirectiveCode.metadata in
    let closure = if md.closure_requested then 1 else 0 in
    let flags = set code 1 (u8 (bit_or (closure << 6) (bit_and (u8 md.checksum_type) 0xF))) in
    put_uint flags 2 md.file_size fs

-- `cfdp_metadata_serialize`
unfoldable pub metadata_serialize : Option Metadata → ℕ → Pointer → ℕ → ℕ × Pointer
metadata_serialize (some md) large_file_flag (some buf) buf_len =
    let fs = file_size_octets large_file_flag in
    let need = fs + md.source_filename_len + md.destination_filename_len + md.options_len + 4 in
    let fixed = metadata_write md fs buf in
    let source_pos = 2 + fs in
    let (n, source_tail) =
      lv_serialize md.source_filename md.source_filename_len (some (drop source_pos fixed))
        (buf_len - source_pos) in
    let source = put_back fixed source_pos source_tail in
    let destination_pos = source_pos + n in
    let (m, destination_tail) =
      lv_serialize md.destination_filename md.destination_filename_len
        (some (drop destination_pos source)) (buf_len - destination_pos) in
    let named = put_back source destination_pos destination_tail in
    let pos = destination_pos + m in
    let whole = put_octets named pos (deref [] md.options) md.options_len in
    if (is_null md.options && ltb 0 md.options_len) || ltb buf_len need
    then (0, some buf)
    else if n == 0
    then (0, some source)
    else if m == 0
    then (0, some named)
    else if ltb 0 md.options_len
    then (pos + md.options_len, some whole)
    else (pos, some named)
metadata_serialize _ _ buf _ = (0, buf)

-- `cfdp_metadata_deserialize`
unfoldable pub metadata_deserialize : Pointer → ℕ → ℕ → Option Metadata → ℕ × Option Metadata
metadata_deserialize (some buf) buf_len large_file_flag (some md) =
    let fs = file_size_octets large_file_flag in
    let flags = get_or buf 1 0 in
    let fixed = record md {
      closure_requested = bit_and (flags >> 6) 0x1 != 0;
      checksum_type = bit_and flags 0xF;
      file_size = get_uint buf 2 fs;
    } in
    let source_pos = 2 + fs in
    let (n, source_filename, source_filename_len) =
      lv_deserialize (some (drop source_pos buf)) (buf_len - source_pos)
        (some fixed.source_filename) (some fixed.source_filename_len) in
    let source = record fixed {
      source_filename = deref none source_filename;
      source_filename_len = deref 0 source_filename_len;
    } in
    let destination_pos = source_pos + n in
    let (m, destination_filename, destination_filename_len) =
      lv_deserialize (some (drop destination_pos buf)) (buf_len - destination_pos)
        (some source.destination_filename) (some source.destination_filename_len) in
    let named = record source {
      destination_filename = deref none destination_filename;
      destination_filename_len = deref 0 destination_filename_len;
    } in
    let pos = destination_pos + m in
    let whole = record named {
      options = if ltb pos buf_len then some (drop pos buf) else none;
      options_len = u16 (buf_len - pos);
    } in
    if ltb buf_len (fs + 2) || get_or buf 0 0 != DirectiveCode.metadata
    then (0, some md)
    else if n == 0
    then (0, some source)
    else if m == 0
    then (0, some named)
    else (buf_len, some whole)
metadata_deserialize _ _ _ md = (0, md)
