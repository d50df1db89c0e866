-- ===== src/Example/Agreement.antt =====
-- `main` of examples/example.c: the three PDUs agree on the file.
use embedded_cfdp.Base.{ℕ, ◌≤◌, ◌≡◌, arith, List, some, true, length, drop, All, IsByte}
use embedded_cfdp.Pdu.Crc.{crc_verify}
use embedded_cfdp.Directive.Eof.{Eof, eof_deserialize}
use embedded_cfdp.Directive.Metadata.{Metadata, metadata_deserialize}
use embedded_cfdp.Directive.Metadata.RoundTrip.{SameMetadata, metadata_deserialize_lem}
use embedded_cfdp.Directive.Eof.RoundTrip.{eof_deserialize_lem}
use embedded_cfdp.Example.{Memory, Report, reconstructed, file_eof, file_metadata, main}
use embedded_cfdp.Example.Transfer.Whole.{build_file_data-Received, parse_and_verify-Received}
use embedded_cfdp.Example.Transfer.Names.{
  file_metadata-IsMetadata, metadata_size_lem, build_metadata-Received,
}
use embedded_cfdp.Example.Transfer.Directives.{file_eof-IsEof, eof_size_lem, build_eof-Received}

-- The arrays have their sizes, and hold octets.
pub record IsMemory (m : Memory) : Type 0 where
  pub metadata_payload : 64 ≤ length m.metadata_payload
  pub file_data_payload : 64 ≤ length m.file_data_payload
  pub eof_payload : 16 ≤ length m.eof_payload
  pub metadata_pdu : 96 ≤ length m.metadata_pdu
  pub file_data_pdu : 96 ≤ length m.file_data_pdu
  pub eof_pdu : 32 ≤ length m.eof_pdu
  pub octets :
      All IsByte m.metadata_payload
      × All IsByte m.file_data_payload
      × All IsByte m.eof_payload
      × All IsByte m.metadata_pdu
      × All IsByte m.file_data_pdu
      × All IsByte m.eof_pdu

-- What a receiver that gets the three PDUs of `main` finds.
pub record Agrees (file : List ℕ) (metadata eof : List ℕ) (report : Report) : Type 0 where
  pub metadata_verified : crc_verify (some metadata) 96 ≡ true
  pub named :
      (old : Metadata)
      → (md : Metadata) × (metadata_deserialize (some (drop 8 metadata)) 22 0 (some old)
          ≡ (22, some md))
        × SameMetadata md (file_metadata file)
  pub eof_verified : crc_verify (some eof) 32 ≡ true
  pub ended :
      (old : Eof) → eof_deserialize (some (drop 8 eof)) 10 0 (some old) ≡ (10, some (file_eof file))
  pub received :
      report
      ≡ reconstructed (length file) 0 (file_eof file).file_checksum (file_eof file).file_checksum

-- A file of at most 60 octets and memory whose arrays have the sizes that C gives them: the
-- Metadata and the EOF PDU that `main` builds verify and decode to the structures built from
-- the file, and what is printed of the File Data PDU is the length of the file, the offset 0,
-- and the checksum that the EOF carries, twice.
pub main-Agrees :
    (file : List ℕ) (m : Memory)
    → length file ≤ 60
    → All IsByte file
    → IsMemory m
    → let ((metadata, _, eof), report) = main file m in Agrees file metadata eof report
unfolding main
main-Agrees file m small bytes ok =
    let (md_local, fd_local, eof_local, md_out, fd_out, eof_out) = ok.octets in
    let (md_pdu, md_run, md) =
      build_metadata-Received file m.hdr m.metadata_payload m.metadata_pdu 96 (omega arith)
        (omega arith) ok.metadata_payload ok.metadata_pdu md_local md_out in
    let (fd_pdu, fd_run, fd) =
      build_file_data-Received file m.hdr m.file_data_payload m.file_data_pdu 96 small (omega arith)
        ok.file_data_payload ok.file_data_pdu bytes fd_local fd_out in
    let (eof_pdu, eof_run, eof) =
      build_eof-Received file m.hdr m.eof_payload m.eof_pdu 32 (omega arith) (omega arith)
        ok.eof_payload ok.eof_pdu bytes eof_local eof_out in
    rw (md_run, fd_run, eof_run)
      (record {
        metadata_verified = md.verified;
        named = λ old.
            let (got, e, same) =
              metadata_deserialize_lem (file_metadata file) old 0 _ md.rest
                (file_metadata-IsMetadata file (omega arith)) md.behind in
            (got, rw (metadata_size_lem file) at e, same);
        eof_verified = eof.verified;
        ended = λ old.
            let e =
              eof_deserialize_lem (file_eof file) old 0 _ eof.rest
                (file_eof-IsEof file (omega arith) bytes) eof.behind in
            rw (eof_size_lem file) at e;
        received = parse_and_verify-Received file fd_pdu 96 m.hdr m.hdr m.fd fd;
      })
