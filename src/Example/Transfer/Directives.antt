-- ===== src/Example/Transfer/Directives.antt =====
-- What the Metadata and the EOF PDU of examples/example.c say of the file.
use embedded_cfdp.Base.{ℕ, ◌^◌, ◌≤◌, ◌<◌, ◌≡◌, refl, arith, List, some, length, All, IsByte}
use embedded_cfdp.Endian.Octets.{be_octets}
use embedded_cfdp.Common.{file_size_octets}
use embedded_cfdp.Checksum.{checksum_compute}
use embedded_cfdp.Checksum.Lanes.{checksum_compute-word_sum}
use embedded_cfdp.Pdu.Header.{Header}
use embedded_cfdp.Directive.Eof.RoundTrip.{IsEof, eof_octets, eof_size, eof_serialize-octets}
use embedded_cfdp.Example.{fill_common_header, file_eof, build_eof}
use embedded_cfdp.Example.Transfer.{Received, emit_pdu-Received}

file_checksum-lt :
    (file : List ℕ)
    → length file ≤ 2 ^ 64
    → All IsByte file
    → checksum_compute (some file) (length file) < 2 ^ 32
file_checksum-lt file h bytes = omega (arith, checksum_compute-word_sum file h bytes)

pub file_eof-IsEof :
    (file : List ℕ) → length file < 2 ^ 32 → All IsByte file → IsEof (file_eof file) 0
unfolding file_size_octets
file_eof-IsEof file small bytes = record {
  condition_code = omega arith;
  file_checksum = file_checksum-lt file (omega arith) bytes;
  file_size = small;
  fault_location = (refl, refl);
}

pub eof_size_lem : (file : List ℕ) → eof_size (file_eof file) 0 ≡ 10
unfolding eof_size file_size_octets
eof_size_lem file = refl

abbrev pub eof_payload : List ℕ → List ℕ
eof_payload file = eof_octets (file_eof file) 0

length-eof_payload : (file : List ℕ) → length (eof_payload file) ≡ 10
unfolding eof_octets file_size_octets be_octets
length-eof_payload file = refl

eof_payload-IsByte : (file : List ℕ) → All IsByte (eof_payload file)
unfolding eof_octets file_size_octets be_octets
eof_payload-IsByte file = omega arith

-- The EOF is sent in one PDU, which is received.
pub build_eof-Received :
    (file : List ℕ) (hdr : Header) (scratch out : List ℕ) (out_len : ℕ)
    → length file < 2 ^ 32
    → 20 ≤ out_len
    → 16 ≤ length scratch
    → out_len ≤ length out
    → All IsByte file
    → All IsByte scratch
    → All IsByte out
    → (pdu : List ℕ) × (build_eof file hdr scratch out out_len ≡ (20, pdu))
      × Received hdr 0 (eof_payload file) pdu out_len
unfolding build_eof fill_common_header
build_eof-Received file hdr scratch out out_len small room local inside bytes scratches outs =
    let written =
      eof_serialize-octets (file_eof file) 0 scratch 16 (file_eof-IsEof file small bytes)
        (omega (arith, eof_size_lem file)) local in
    let (pdu, run, received) =
      emit_pdu-Received hdr 0 10 (eof_payload file) scratch out out_len (length-eof_payload file)
        (omega arith) (omega arith) room inside outs (eof_payload-IsByte file) scratches in
    (pdu, rw (written, eof_size_lem file) run, received)
