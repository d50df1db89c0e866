-- ===== src/Pdu/FileData/Layout.antt =====
-- The octets of a File Data PDU as table 5-14 lays them out, and that they are what is written.
use native.Mathlib.Nat.{add_comm}
use embedded_cfdp.Base.{
  ℕ, ◌+◌, ◌*◌, ◌^◌, ◌≤◌, ◌<◌, ◌≡◌, ◌≢◌, inl, inr, bool_cases, refl, ◌∙◌, arith, List, [], ◌∷◌, ◌++◌,
  some, true, ◌==◌, if◌then◌else◌, ltb, deref, length, u8, bit_and, bit_or, ◌<<◌,
}
use embedded_cfdp.Base.Bits.{bit_and-mask, bit_or_disjoint}
use embedded_cfdp.Buffer.{contents}
use embedded_cfdp.Buffer.Overlay.{
  overlay, null_with_octets, Wrote, Wrote-nothing, Wrote-octet, Wrote-contents, Wrote-uint,
}
use embedded_cfdp.Common.{file_size_octets}
use embedded_cfdp.Endian.Octets.{be_octets}
use embedded_cfdp.Pdu.FileData.{
  FileData, segment_metadata_consistent, segment_metadata_write, file_data_write,
  file_data_serialize,
}

-- A payload whose pointers hold the octets that it announces, and whose fields fit the wire.
pub record IsFileData (fd : FileData) (large_file_flag segment_metadata_flag : ℕ) : Type 0 where
  pub offset : fd.offset < 256 ^ file_size_octets large_file_flag
  pub file_data : fd.file_data_len ≤ length (deref [] fd.file_data)
  pub record_continuation : fd.record_continuation < 4
  pub segment_metadata : fd.segment_metadata_len ≤ length (deref [] fd.segment_metadata)
  pub consistent : segment_metadata_consistent fd segment_metadata_flag ≡ true
  pub plain : segment_metadata_flag ≢ 1 → fd.record_continuation ≡ 0

unfoldable pub metadata_octets : FileData → ℕ → List ℕ
metadata_octets fd segment_metadata_flag =
    if segment_metadata_flag == 1
    then (fd.record_continuation * 64 + fd.segment_metadata_len)
      ∷ contents fd.segment_metadata fd.segment_metadata_len
    else []

unfoldable pub file_data_octets : FileData → ℕ → ℕ → List ℕ
file_data_octets fd large_file_flag segment_metadata_flag =
    metadata_octets fd segment_metadata_flag
    ++ be_octets (file_size_octets large_file_flag) fd.offset
    ++ contents fd.file_data fd.file_data_len

unfoldable pub metadata_size : FileData → ℕ → ℕ
metadata_size fd segment_metadata_flag =
    if segment_metadata_flag == 1 then fd.segment_metadata_len + 1 else 0

unfoldable pub payload_octets : FileData → ℕ → ℕ → ℕ
payload_octets fd large_file_flag segment_metadata_flag =
    metadata_size fd segment_metadata_flag + file_size_octets large_file_flag + fd.file_data_len

first_octet :
    (rc len : ℕ)
    → rc < 4
    → len < 64
    → u8 (bit_or (bit_and (u8 rc) 0x3 << 6) (bit_and len 0x3F)) ≡ rc * 64 + len
first_octet rc len h k =
    ground (arith, bit_and-mask 2 (u8 rc), bit_and-mask 6 len, bit_or_disjoint 6 (rc * 64) len)

-- The metadata, of at most 63 octets.
segment_metadata_write-Wrote :
    (fd : FileData) (buf : List ℕ)
    → fd.record_continuation < 4
    → fd.segment_metadata_len < 64
    → fd.segment_metadata_len ≤ length (deref [] fd.segment_metadata)
    → fd.segment_metadata_len + 1 ≤ length buf
    → Wrote buf
        ((fd.record_continuation * 64 + fd.segment_metadata_len)
          ∷ contents fd.segment_metadata fd.segment_metadata_len)
        (fd.segment_metadata_len + 1)
        (segment_metadata_write fd buf).1
unfolding segment_metadata_write
segment_metadata_write-Wrote fd buf h k l room =
    let len = fd.segment_metadata_len in
    rw (first_octet fd.record_continuation len h k) (
      rw (add_comm len 1) (
        Wrote-contents fd.segment_metadata len
          (Wrote-octet (fd.record_continuation * 64 + len) (Wrote-nothing buf) (omega arith))
          (omega arith) l))

file_data_write-Wrote :
    (fd : FileData) (octets : ℕ) {buf front out : List ℕ} {pos : ℕ}
    → Wrote buf front pos out
    → pos + octets + fd.file_data_len ≤ length buf
    → pos + octets + fd.file_data_len < 2 ^ 64
    → fd.file_data_len ≤ length (deref [] fd.file_data)
    → Wrote buf
        (front ++ be_octets octets fd.offset ++ contents fd.file_data fd.file_data_len)
        (pos + octets + fd.file_data_len)
        (file_data_write fd octets pos out).1
      × ((file_data_write fd octets pos out).0 ≡ pos + octets + fd.file_data_len)
unfolding file_data_write
file_data_write-Wrote fd octets {buf} {front} {out} {pos} w room small l =
    let written =
      Wrote-contents fd.file_data fd.file_data_len (Wrote-uint fd.offset octets w (omega arith))
        room l in
    elim (bool_cases (ltb 0 fd.file_data_len)) [
      | inl e ↦ rw e (rw e at written, omega arith)
      | inr e ↦ rw e (rw e at written, ground arith)
    ]

-- The metadata or nothing, as the flag says.
headed-Wrote :
    (fd : FileData) (flag : ℕ) (buf : List ℕ)
    → fd.record_continuation < 4
    → fd.segment_metadata_len ≤ length (deref [] fd.segment_metadata)
    → segment_metadata_consistent fd flag ≡ true
    → metadata_size fd flag ≤ length buf
    → let (pos, out) = if flag == 1 then segment_metadata_write fd buf else (0, buf) in
      Wrote buf (metadata_octets fd flag) (metadata_size fd flag) out
      × (pos ≡ metadata_size fd flag)
unfolding metadata_octets metadata_size segment_metadata_consistent
headed-Wrote fd flag buf h k c room = elim (bool_cases (flag == 1)) [
  | inr e ↦ rw e (Wrote-nothing buf, refl)
  | inl e ↦
      let small : fd.segment_metadata_len < 64 = ground arith in
      let fits : fd.segment_metadata_len + 1 ≤ length buf = rw e at room in
      rw e
        (segment_metadata_write-Wrote fd buf h small k fits, unfold segment_metadata_write in refl)
]

-- A payload that can be sent, under its flags, and a buffer of fewer than 2 ^ 64 octets with
-- room for it: the serialiser answers the payload's size and lays its octets out as the
-- standard does.
pub file_data_serialize-octets :
    (fd : FileData) (large_file_flag segment_metadata_flag : ℕ) (buf : List ℕ) (buf_len : ℕ)
    → IsFileData fd large_file_flag segment_metadata_flag
    → payload_octets fd large_file_flag segment_metadata_flag ≤ buf_len
    → buf_len ≤ length buf
    → buf_len < 2 ^ 64
    → file_data_serialize (some fd) large_file_flag segment_metadata_flag (some buf) buf_len ≡ (
      payload_octets fd large_file_flag segment_metadata_flag,
      some (overlay (file_data_octets fd large_file_flag segment_metadata_flag) buf),
    )
unfolding payload_octets file_data_octets
file_data_serialize-octets fd large_file_flag flag buf buf_len ok room inside word =
    passed ∙ λ i. (written.1 i, some (written.0.octets i))
  where
    octets : ℕ
    octets = file_size_octets large_file_flag

    headed : ℕ × List ℕ
    headed = if flag == 1 then segment_metadata_write fd buf else (0, buf)

    first :
        Wrote buf (metadata_octets fd flag) (metadata_size fd flag) headed.1
        × (headed.0 ≡ metadata_size fd flag)
    first =
        headed-Wrote fd flag buf ok.record_continuation ok.segment_metadata ok.consistent
          (omega arith)

    small_size : metadata_size fd flag + octets + fd.file_data_len < 2 ^ 64
    small_size = omega arith

    written :
        Wrote buf
          (file_data_octets fd large_file_flag flag)
          (metadata_size fd flag + octets + fd.file_data_len)
          (file_data_write fd octets headed.0 headed.1).1
        × ((file_data_write fd octets headed.0 headed.1).0
            ≡ metadata_size fd flag + octets + fd.file_data_len)
    written =
        rw first.1 (file_data_write-Wrote fd octets first.0 (omega arith) small_size ok.file_data)

    passed : file_data_serialize (some fd) large_file_flag flag (some buf) buf_len ≡ (
      (file_data_write fd octets headed.0 headed.1).0,
      some (file_data_write fd octets headed.0 headed.1).1,
    )
    passed =
        unfold file_data_serialize metadata_size in
        rw (null_with_octets fd.file_data fd.file_data_len ok.file_data, ok.consistent)
          (ground (arith, small_size, room))
