-- ===== src/Tests/Transfers.antt =====
-- The example program, the whole chain of a Finished PDU and the checksum of a file in pieces.
use mathlib.Core.List.{Permᴰ}
use embedded_cfdp.Base.{
  ℕ, zero, suc, ◌≡◌, refl, ap, arith, List, [], ◌∷◌, none, some, length, All, IsByte,
}
use embedded_cfdp.Checksum.{checksum_compute}
use embedded_cfdp.Checksum.Segments.{Segment, receive}
use embedded_cfdp.Checksum.File.{file_of, segments_from, receive-checksum_compute}
use embedded_cfdp.Pdu.Header.{blank_header}
use embedded_cfdp.Pdu.FileData.{FileData}
use embedded_cfdp.Example.{Memory, reconstructed, build_file_data, parse_and_verify, main, g_file}
use embedded_cfdp.Example.Transfer.Whole.{build_file_data-parse_and_verify}
use embedded_cfdp.Example.Agreement.{IsMemory, Agrees, main-Agrees}

-- Memory of `n` octets.
abbrev zeros : ℕ → List ℕ
zeros zero = []
zeros (suc n) = 0 ∷ zeros n

zeros-IsByte : (n : ℕ) → All IsByte (zeros n)
zeros-IsByte zero = tt
zeros-IsByte (suc n) = (omega arith, zeros-IsByte n)

length-zeros : (n : ℕ) → length (zeros n) ≡ n
length-zeros zero = refl
length-zeros (suc n) = ap suc (length-zeros n)

abbrev blank_payload : FileData
blank_payload = record {
  offset = 0;
  file_data = none;
  file_data_len = 0;
  record_continuation = 0;
  segment_metadata = none;
  segment_metadata_len = 0;
}

abbrev sample_memory : Memory
sample_memory = record {
  hdr = blank_header;
  metadata_payload = zeros 64;
  file_data_payload = zeros 64;
  eof_payload = zeros 16;
  fd = blank_payload;
  metadata_pdu = zeros 96;
  file_data_pdu = zeros 96;
  eof_pdu = zeros 32;
}

sample_memory-IsMemory : IsMemory sample_memory
sample_memory-IsMemory = record {
  metadata_payload = omega (arith, length-zeros 64);
  file_data_payload = omega (arith, length-zeros 64);
  eof_payload = omega (arith, length-zeros 16);
  metadata_pdu = omega (arith, length-zeros 96);
  file_data_pdu = omega (arith, length-zeros 96);
  eof_pdu = omega (arith, length-zeros 32);
  octets = (
    zeros-IsByte 64,
    zeros-IsByte 64,
    zeros-IsByte 16,
    zeros-IsByte 96,
    zeros-IsByte 96,
    zeros-IsByte 32,
  );
}

g_file-IsByte : All IsByte g_file
g_file-IsByte = omega arith

main-Agrees_example :
    let ((metadata, _, eof), report) = main g_file sample_memory in
    Agrees g_file metadata eof report
main-Agrees_example =
    main-Agrees g_file sample_memory (omega arith) g_file-IsByte sample_memory-IsMemory

build_file_data-parse_and_verify_example :
    parse_and_verify g_file blank_header blank_payload
      (build_file_data g_file blank_header (zeros 64) (zeros 96) 96).1
      96
    ≡ reconstructed 31 0 (checksum_compute (some g_file) 31) (checksum_compute (some g_file) 31)
build_file_data-parse_and_verify_example =
    build_file_data-parse_and_verify g_file blank_header blank_header blank_payload (zeros 64)
      (zeros 96) 96 (omega arith) (omega arith) (omega (arith, length-zeros 64))
      (omega (arith, length-zeros 96)) g_file-IsByte (zeros-IsByte 64) (zeros-IsByte 96)

abbrev pieces : List (List ℕ)
pieces = (1 ∷ 2 ∷ 3 ∷ []) ∷ (4 ∷ 5 ∷ []) ∷ []

abbrev late_first : List Segment
late_first = (3, 4 ∷ 5 ∷ []) ∷ (0, 1 ∷ 2 ∷ 3 ∷ []) ∷ []

receive-checksum_compute_example :
    receive 0 late_first ≡ checksum_compute (some (file_of pieces)) (length (file_of pieces))
unfolding file_of segments_from
receive-checksum_compute_example =
    receive-checksum_compute pieces late_first (omega arith) (omega arith) ∣ Permᴰ.swap refl refl ∣₁
