-- ===== src/Example/Transfer/Whole.antt =====
-- The file sent is the file received.
use mathlib.Core.Path.{subst}
use embedded_cfdp.Base.{
  ℕ, zero, suc, ◌+◌, ◌≤◌, ◌≡◌, refl, ap, ap₂, sym, ◌∙◌, arith, List, ◌++◌, none, some, length,
  length-append, drop, take_all, All, All-append, IsByte,
}
use embedded_cfdp.Buffer.{Pointer, contents}
use embedded_cfdp.Endian.Octets.{be_octets, be_octets-IsByte, length-be_octets}
use embedded_cfdp.Common.{file_size_octets}
use embedded_cfdp.Checksum.{checksum_update, checksum_octets, checksum_compute}
use embedded_cfdp.Pdu.Header.{Header}
use embedded_cfdp.Pdu.Header.RoundTrip.{canonical}
use embedded_cfdp.Pdu.FileData.{FileData, segment_metadata_consistent}
use embedded_cfdp.Pdu.FileData.Layout.{
  IsFileData, file_data_octets, metadata_octets, metadata_size, payload_octets,
  file_data_serialize-octets,
}
use embedded_cfdp.Pdu.FileData.RoundTrip.{SamePayload, file_data_deserialize-octets}
use embedded_cfdp.Example.{
  fill_common_header, whole_file, build_file_data, reconstructed, parse_and_verify,
}
use embedded_cfdp.Example.Transfer.{Received, payload_size_lem, emit_pdu-Received}

-- The checksum takes the octets that its pointer points to, and nothing else.
checksum_update-contents :
    (checksum offset : ℕ) (p : Pointer) (n : ℕ)
    → checksum_update checksum offset p n ≡ checksum_octets checksum offset 0 (contents p n)
unfolding checksum_update checksum_octets
checksum_update-contents checksum offset none zero = refl
checksum_update-contents checksum offset none (suc n) = refl
checksum_update-contents checksum offset (some octets) zero = refl
checksum_update-contents checksum offset (some octets) (suc n) = ground arith

whole_file-IsFileData : (file : List ℕ) → IsFileData (whole_file file) 0 0
unfolding file_size_octets segment_metadata_consistent
whole_file-IsFileData file = record {
  offset = omega arith;
  file_data = omega arith;
  record_continuation = omega arith;
  segment_metadata = omega arith;
  consistent = refl;
  plain = λ _. refl;
}

abbrev payload : List ℕ → List ℕ
payload file = file_data_octets (whole_file file) 0 0

payload-octets : (file : List ℕ) → payload file ≡ be_octets 4 0 ++ file
unfolding file_data_octets metadata_octets file_size_octets
payload-octets file = ap (λ r. be_octets 4 0 ++ r) (take_all file)

payload_octets_lem : (file : List ℕ) → payload_octets (whole_file file) 0 0 ≡ length file + 4
unfolding payload_octets metadata_size file_size_octets
payload_octets_lem file = omega arith

length-payload : (file : List ℕ) → length (payload file) ≡ length file + 4
length-payload file = omega (
  arith,
  ap length (payload-octets file),
  length-append {0} (be_octets 4 0) file,
  length-be_octets 4 0,
)

payload-IsByte : (file : List ℕ) → All IsByte file → All IsByte (payload file)
payload-IsByte file bytes =
    subst (All IsByte) (sym (payload-octets file))
      (All-append IsByte (be_octets 4 0) file (be_octets-IsByte 4 0) bytes)

-- A file that fits the local buffer is sent in one PDU, which is received.
pub build_file_data-Received :
    (file : List ℕ) (hdr : Header) (scratch out : List ℕ) (out_len : ℕ)
    → length file ≤ 60
    → length file + 14 ≤ out_len
    → 64 ≤ length scratch
    → out_len ≤ length out
    → All IsByte file
    → All IsByte scratch
    → All IsByte out
    → (pdu : List ℕ) × (build_file_data file hdr scratch out out_len ≡ (length file + 14, pdu))
      × Received hdr 1 (payload file) pdu out_len
unfolding build_file_data fill_common_header
build_file_data-Received file hdr scratch out out_len small room local inside bytes scratches outs =
    let written =
      file_data_serialize-octets (whole_file file) 0 0 scratch 64 (whole_file-IsFileData file)
        (omega (arith, payload_octets_lem file)) local (omega arith) in
    let (pdu, run, received) =
      emit_pdu-Received hdr 1 (length file + 4) (payload file) scratch out out_len
        (length-payload file) (omega arith) (omega arith) (omega arith) inside outs
        (payload-IsByte file bytes) scratches in
    (pdu, rw (written, payload_octets_lem file) (run ∙ ap (λ n. (n, pdu)) (omega arith)), received)

abbrev pub file_checksum : List ℕ → ℕ
file_checksum file = checksum_compute (some file) (length file)

-- A payload that says the same as the whole file has its checksum.
same_checksum :
    (file : List ℕ) (fd : FileData)
    → SamePayload fd (whole_file file)
    → checksum_update 0 fd.offset fd.file_data fd.file_data_len ≡ file_checksum file
unfolding checksum_compute
same_checksum file fd same =
    checksum_update-contents 0 fd.offset fd.file_data fd.file_data_len
    ∙ ap₂ (λ o octets. checksum_octets 0 o 0 octets) same.offset same.file_data
    ∙ sym (checksum_update-contents 0 0 (some file) (length file))

pub parse_and_verify-Received :
    (file pdu : List ℕ) (pdu_len : ℕ) (hdr old : Header) (seen : FileData)
    → Received hdr 1 (payload file) pdu pdu_len
    → parse_and_verify file old seen pdu pdu_len
      ≡ reconstructed (length file) 0 (file_checksum file) (file_checksum file)
unfolding parse_and_verify fill_common_header canonical
parse_and_verify-Received file pdu pdu_len hdr old seen got =
    let (fd, read, same) =
      file_data_deserialize-octets (whole_file file) seen 0 0 (drop 8 pdu) got.rest
        (whole_file-IsFileData file) got.behind in
    rw
      (
        got.decoded old,
        payload_size_lem hdr 1 (length (payload file)),
        length-payload file ∙ sym (payload_octets_lem file),
        read,
        got.verified,
      )
      (λ i.
        reconstructed (same.file_data_len i) (same.offset i) (same_checksum file fd same i)
          (file_checksum file))

-- A file of at most 60 octets, and memory of octets with room for the PDU: what
-- `build_file_data` leaves in `out`, `parse_and_verify` accepts, and it reports the length of the
-- file, the offset 0 and the checksum of the file, which is the one expected.
pub build_file_data-parse_and_verify :
    (file : List ℕ) (hdr old : Header) (seen : FileData) (scratch out : List ℕ) (out_len : ℕ)
    → length file ≤ 60
    → length file + 14 ≤ out_len
    → 64 ≤ length scratch
    → out_len ≤ length out
    → All IsByte file
    → All IsByte scratch
    → All IsByte out
    → parse_and_verify file old seen (build_file_data file hdr scratch out out_len).1 out_len
      ≡ reconstructed
          (length file)
          0
          (checksum_compute (some file) (length file))
          (checksum_compute (some file) (length file))
build_file_data-parse_and_verify file hdr old seen scratch out out_len small room local inside bytes
      scratches outs =
    let (pdu, run, got) =
      build_file_data-Received file hdr scratch out out_len small room local inside bytes scratches
        outs in
    rw run (parse_and_verify-Received file pdu out_len hdr old seen got)
