-- ===== src/Example/Transfer/Names.antt =====
-- The Metadata PDU of examples/example.c.
use embedded_cfdp.Base.{ℕ, ◌^◌, ◌≤◌, ◌<◌, ◌≡◌, refl, arith, List, length, All, IsByte}
use embedded_cfdp.Endian.Octets.{be_octets}
use embedded_cfdp.Common.{file_size_octets}
use embedded_cfdp.Pdu.Header.{Header}
use embedded_cfdp.Tlv.Lv.{lv_octets}
use embedded_cfdp.Directive.Metadata.Layout.{
  IsMetadata, metadata_octets, metadata_size, metadata_serialize-octets,
}
use embedded_cfdp.Example.{fill_common_header, file_metadata, build_metadata}
use embedded_cfdp.Example.Transfer.{Received, emit_pdu-Received}

pub file_metadata-IsMetadata :
    (file : List ℕ) → length file < 2 ^ 32 → IsMetadata (file_metadata file) 0
unfolding file_size_octets
file_metadata-IsMetadata file small = record {
  checksum_type = omega arith;
  file_size = small;
  source_filename = omega arith;
  destination_filename = omega arith;
  options = omega arith;
  options_len = omega arith;
}

pub metadata_size_lem : (file : List ℕ) → metadata_size (file_metadata file) 0 ≡ 22
unfolding metadata_size file_size_octets
metadata_size_lem file = refl

abbrev pub metadata_payload : List ℕ → List ℕ
metadata_payload file = metadata_octets (file_metadata file) 0

length-metadata_payload : (file : List ℕ) → length (metadata_payload file) ≡ 22
unfolding metadata_octets file_size_octets be_octets lv_octets
length-metadata_payload file = refl

metadata_payload-IsByte : (file : List ℕ) → All IsByte (metadata_payload file)
unfolding metadata_octets file_size_octets be_octets lv_octets
metadata_payload-IsByte file = omega arith

-- The Metadata are sent in one PDU, which is received.
pub build_metadata-Received :
    (file : List ℕ) (hdr : Header) (scratch out : List ℕ) (out_len : ℕ)
    → length file < 2 ^ 32
    → 32 ≤ out_len
    → 64 ≤ length scratch
    → out_len ≤ length out
    → All IsByte scratch
    → All IsByte out
    → (pdu : List ℕ) × (build_metadata file hdr scratch out out_len ≡ (32, pdu))
      × Received hdr 0 (metadata_payload file) pdu out_len
unfolding build_metadata fill_common_header
build_metadata-Received file hdr scratch out out_len small room local inside scratches outs =
    let written =
      metadata_serialize-octets (file_metadata file) 0 scratch 64
        (file_metadata-IsMetadata file small) (omega (arith, metadata_size_lem file)) local in
    let (pdu, run, received) =
      emit_pdu-Received hdr 0 22 (metadata_payload file) scratch out out_len
        (length-metadata_payload file) (omega arith) (omega arith) room inside outs
        (metadata_payload-IsByte file) scratches in
    (pdu, rw (written, metadata_size_lem file) run, received)
