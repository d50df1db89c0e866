-- ===== src/Directive/Metadata/Layout.antt =====
-- The octets of a Metadata PDU, and that they are what is written.
use embedded_cfdp.Base.{
  ℕ, ◌+◌, ◌^◌, ◌≤◌, ◌<◌, ◌≡◌, inl, inr, bool_cases, arith, List, [], ◌∷◌, ◌++◌, some, Bool, true,
  false, ltb, if◌then◌else◌, deref, length, u8, bit_and, bit_or, ◌<<◌,
}
use embedded_cfdp.Base.Bits.{bit_and-mask, bit_or_disjoint}
use embedded_cfdp.Buffer.{contents}
use embedded_cfdp.Buffer.Overlay.{
  overlay, Wrote, Wrote-nothing, Wrote-octet, Wrote-uint, Wrote-contents, null_with_octets,
}
use embedded_cfdp.Common.{file_size_octets}
use embedded_cfdp.Endian.Octets.{be_octets}
use embedded_cfdp.Tlv.Lv.{lv_octets}
use embedded_cfdp.Tlv.Lv.Within.{lv-Wrote}
use embedded_cfdp.Directive.Metadata.{Metadata, metadata_write, metadata_serialize}

-- A structure whose fields fit the wire, and whose pointers hold the octets that it announces.
pub record IsMetadata (md : Metadata) (large_file_flag : ℕ) : Type 0 where
  pub checksum_type : md.checksum_type < 16
  pub file_size : md.file_size < 256 ^ file_size_octets large_file_flag
  pub source_filename : md.source_filename_len ≤ length (deref [] md.source_filename)
  pub destination_filename : md.destination_filename_len ≤ length (deref [] md.destination_filename)
  pub options : md.options_len ≤ length (deref [] md.options)
  pub options_len : md.options_len < 2 ^ 16

abbrev pub closure_bit : Bool → ℕ
closure_bit closure_requested = if closure_requested then 64 else 0

unfoldable pub metadata_octets : Metadata → ℕ → List ℕ
metadata_octets md large_file_flag =
    (7 ∷ (closure_bit md.closure_requested + md.checksum_type) ∷ [])
    ++ be_octets (file_size_octets large_file_flag) md.file_size
    ++ lv_octets md.source_filename md.source_filename_len
    ++ lv_octets md.destination_filename md.destination_filename_len
    ++ contents md.options md.options_len

unfoldable pub metadata_size : Metadata → ℕ → ℕ
metadata_size md large_file_flag =
    2
    + file_size_octets large_file_flag
    + (md.source_filename_len + 1)
    + (md.destination_filename_len + 1)
    + md.options_len

flags_octet :
    (closure : Bool) (kind : ℕ)
    → kind < 16
    → u8 (bit_or ((if closure then 1 else 0) << 6) (bit_and (u8 kind) 0xF))
      ≡ closure_bit closure + kind
flags_octet true kind h = ground (arith, bit_and-mask 4 (u8 kind), bit_or_disjoint 6 64 kind)
flags_octet false kind h = ground (arith, bit_and-mask 4 (u8 kind), bit_or_disjoint 6 0 kind)

metadata_write-Wrote :
    (md : Metadata) (fs : ℕ) (buf : List ℕ)
    → md.checksum_type < 16
    → 2 + fs ≤ length buf
    → Wrote buf
        ((7 ∷ (closure_bit md.closure_requested + md.checksum_type) ∷ [])
          ++ be_octets fs md.file_size)
        (2 + fs)
        (metadata_write md fs buf)
unfolding metadata_write
metadata_write-Wrote md fs buf h room = rw (flags_octet md.closure_requested md.checksum_type h) (
    Wrote-uint md.file_size fs
      (Wrote-octet (closure_bit md.closure_requested + md.checksum_type)
        (Wrote-octet 7 (Wrote-nothing buf) (omega arith)) (omega arith))
      room)

-- A structure that can be sent and a buffer with room for it: the serialiser answers the size
-- of the PDU and lays out the flags, the file size, the two names and the options.
pub metadata_serialize-octets :
    (md : Metadata) (large_file_flag : ℕ) (buf : List ℕ) (buf_len : ℕ)
    → IsMetadata md large_file_flag
    → metadata_size md large_file_flag ≤ buf_len
    → buf_len ≤ length buf
    → metadata_serialize (some md) large_file_flag (some buf) buf_len
      ≡ (metadata_size md large_file_flag, some (overlay (metadata_octets md large_file_flag) buf))
unfolding metadata_serialize metadata_size metadata_octets
metadata_serialize-octets md large_file_flag buf buf_len ok room inside =
    let fs = file_size_octets large_file_flag in
    let fixed = metadata_write-Wrote md fs buf ok.checksum_type (omega arith) in
    let (n, source) =
      lv-Wrote md.source_filename md.source_filename_len buf_len fixed ok.source_filename
        (omega arith) inside in
    let (m, named) =
      lv-Wrote md.destination_filename md.destination_filename_len buf_len source
        ok.destination_filename (omega arith) inside in
    let whole = Wrote-contents md.options md.options_len named (omega arith) ok.options in
    rw (n, m, null_with_octets md.options md.options_len ok.options)
      (elim (bool_cases (ltb 0 md.options_len)) [
        | inl e ↦ rw e (ground arith)
        | inr e ↦ rw e (ground arith)
      ])
