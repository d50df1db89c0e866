-- ===== src/Example.antt =====
-- examples/example.c: a file sent as a Metadata, a File Data and an EOF PDU, and read back. The
-- file, `g_file` in C, and the memory of the local variables are arguments; what is printed is
-- a value.
pub mod Emit
pub mod Transfer
pub mod Agreement
use embedded_cfdp.Base.{
  ℕ, zero, suc, ◌+◌, List, [], ◌∷◌, Option, none, some, true, false, ◌||◌, ltb, ◌==◌, if◌then◌else◌,
  deref, set, get_or, drop, length, u16, u64,
}
use embedded_cfdp.Buffer.{Pointer}
use embedded_cfdp.Common.{
  protocol_version, pdu_crc_len, pdu_type_directive, pdu_type_file_data, direction_toward_receiver,
  trans_mode_unacknowledged, crc_present, file_size_small, seg_ctrl_boundaries_not_preserved,
  seg_metadata_absent, checksum_modular,
}
use embedded_cfdp.Common.ConditionCode
use embedded_cfdp.Checksum.{checksum_compute, checksum_update}
use embedded_cfdp.Pdu.Header.{
  Header, blank_header, header_size, header_serialize, header_deserialize,
}
use embedded_cfdp.Pdu.Crc.{payload_size, crc_append, crc_verify}
use embedded_cfdp.Pdu.FileData.{FileData, file_data_serialize, file_data_deserialize}
use embedded_cfdp.Directive.Eof.{Eof, eof_serialize}
use embedded_cfdp.Directive.Metadata.{Metadata, metadata_serialize}

-- `g_file`, without the NUL that `g_file_len` drops: "OpenSpaceCode CFDP demo payload".
abbrev pub g_file : List ℕ
g_file =
    0x4F ∷ 0x70 ∷ 0x65 ∷ 0x6E ∷ 0x53 ∷ 0x70 ∷ 0x61 ∷ 0x63 ∷ 0x65 ∷ 0x43 ∷ 0x6F ∷ 0x64 ∷ 0x65 ∷ 0x20
    ∷ 0x43 ∷ 0x46 ∷ 0x44 ∷ 0x50 ∷ 0x20 ∷ 0x64 ∷ 0x65 ∷ 0x6D ∷ 0x6F ∷ 0x20 ∷ 0x70 ∷ 0x61 ∷ 0x79
    ∷ 0x6C ∷ 0x6F ∷ 0x61 ∷ 0x64 ∷ []

-- `fill_common_header`
unfoldable pub fill_common_header : Header → ℕ → Header
fill_common_header hdr pdu_type = record hdr {
  version = protocol_version;
  pdu_type = pdu_type;
  direction = direction_toward_receiver;
  transmission_mode = trans_mode_unacknowledged;
  crc_flag = crc_present;
  large_file_flag = file_size_small;
  segmentation_control = seg_ctrl_boundaries_not_preserved;
  segment_metadata_flag = seg_metadata_absent;
  entity_id_length = 1;
  transaction_seq_length = 2;
  source_entity_id = 1;
  transaction_seq_number = 42;
  destination_entity_id = 2;
}

-- The loop of `emit_pdu`, at index `i` with `left` octets to go.
unfoldable pub copy_payload : List ℕ → ℕ → List ℕ → ℕ → ℕ → List ℕ
copy_payload out hlen payload i zero = out
copy_payload out hlen payload i (suc left) =
    copy_payload (set out (hlen + i) (get_or payload i 0)) hlen payload (i + 1) left

-- `emit_pdu`: the answer and the memory at `out`.
unfoldable pub emit_pdu : Header → List ℕ → ℕ → List ℕ → ℕ → ℕ × List ℕ
emit_pdu hdr payload payload_len out out_len =
    let hlen = header_size (some hdr) in
    let sized = record hdr { data_field_length = u16 (payload_len + pdu_crc_len) } in
    let (written, headed) = header_serialize (some sized) (some out) out_len in
    let headed = deref out headed in
    let copied = copy_payload headed hlen payload 0 payload_len in
    let (total, sealed) = crc_append (some copied) (hlen + payload_len) out_len in
    if (written == 0) || ltb out_len (u64 (hlen + payload_len))
    then (0, headed)
    else (if total == 0 then 0 else total, deref copied sealed)

-- The `md` of `build_metadata`; `"src.dat"` and `"dst.dat"`.
abbrev pub file_metadata : List ℕ → Metadata
file_metadata file = record {
  closure_requested = false;
  checksum_type = checksum_modular;
  file_size = length file;
  source_filename = some (0x73 ∷ 0x72 ∷ 0x63 ∷ 0x2E ∷ 0x64 ∷ 0x61 ∷ 0x74 ∷ 0 ∷ []);
  source_filename_len = 7;
  destination_filename = some (0x64 ∷ 0x73 ∷ 0x74 ∷ 0x2E ∷ 0x64 ∷ 0x61 ∷ 0x74 ∷ 0 ∷ []);
  destination_filename_len = 7;
  options = none;
  options_len = 0;
}

-- `build_metadata`; `hdr` and `payload` are the memory of its local variables.
unfoldable pub build_metadata : List ℕ → Header → List ℕ → List ℕ → ℕ → ℕ × List ℕ
build_metadata file hdr payload out out_len =
    let hdr = fill_common_header hdr pdu_type_directive in
    let (plen, payload) =
      metadata_serialize (some (file_metadata file)) hdr.large_file_flag (some payload) 64 in
    emit_pdu hdr (deref [] payload) plen out out_len

-- The `fd` of `build_file_data`.
abbrev pub whole_file : List ℕ → FileData
whole_file file = record {
  offset = 0;
  file_data = some file;
  file_data_len = length file;
  record_continuation = 0;
  segment_metadata = none;
  segment_metadata_len = 0;
}

-- `build_file_data`
unfoldable pub build_file_data : List ℕ → Header → List ℕ → List ℕ → ℕ → ℕ × List ℕ
build_file_data file hdr payload out out_len =
    let hdr = fill_common_header hdr pdu_type_file_data in
    let (plen, payload) =
      file_data_serialize (some (whole_file file)) hdr.large_file_flag hdr.segment_metadata_flag
        (some payload) 64 in
    emit_pdu hdr (deref [] payload) plen out out_len

-- The `eof` of `build_eof`.
abbrev pub file_eof : List ℕ → Eof
file_eof file = record {
  condition_code = ConditionCode.no_error;
  file_checksum = checksum_compute (some file) (length file);
  file_size = length file;
  fault_location_entity_id = 0;
  fault_location_len = 0;
}

-- `build_eof`
unfoldable pub build_eof : List ℕ → Header → List ℕ → List ℕ → ℕ → ℕ × List ℕ
build_eof file hdr payload out out_len =
    let hdr = fill_common_header hdr pdu_type_directive in
    let (plen, payload) =
      eof_serialize (some (file_eof file)) hdr.large_file_flag (some payload) 16 in
    emit_pdu hdr (deref [] payload) plen out out_len

-- What `parse_and_verify` prints: that the PDU was discarded, or the octets, the offset and the
-- checksum of what was read, and the checksum of the file.
pub data Report : Type 0 where
  discarded : Report
  reconstructed : ℕ → ℕ → ℕ → ℕ → Report

-- `parse_and_verify`; `old` and `seen` are the memory of its local variables.
unfoldable pub parse_and_verify : List ℕ → Header → FileData → List ℕ → ℕ → Report
parse_and_verify file old seen pdu pdu_len =
    let (hlen, hdr) = header_deserialize (some pdu) pdu_len (some old) in
    let hdr = deref old hdr in
    let payload_len = payload_size (some hdr) in
    let (_, fd) =
      file_data_deserialize (some (drop hlen pdu)) payload_len hdr.large_file_flag
        hdr.segment_metadata_flag (some seen) in
    let fd = deref seen fd in
    if crc_verify (some pdu) pdu_len
    then reconstructed fd.file_data_len fd.offset
        (checksum_update 0 fd.offset fd.file_data fd.file_data_len)
        (checksum_compute (some file) (length file))
    else discarded

-- The memory of the local variables of `main` and of the functions that it calls.
pub record Memory : Type 0 where
  pub hdr : Header
  pub metadata_payload : List ℕ
  pub file_data_payload : List ℕ
  pub eof_payload : List ℕ
  pub fd : FileData
  pub metadata_pdu : List ℕ
  pub file_data_pdu : List ℕ
  pub eof_pdu : List ℕ

-- `main`: the three arrays, and what is printed at the end.
unfoldable pub main : List ℕ → Memory → (List ℕ × List ℕ × List ℕ) × Report
main file m =
    let (_, metadata_pdu) = build_metadata file m.hdr m.metadata_payload m.metadata_pdu 96 in
    let (_, file_data_pdu) = build_file_data file m.hdr m.file_data_payload m.file_data_pdu 96 in
    let (_, eof_pdu) = build_eof file m.hdr m.eof_payload m.eof_pdu 32 in
    ((metadata_pdu, file_data_pdu, eof_pdu), parse_and_verify file m.hdr m.fd file_data_pdu 96)
