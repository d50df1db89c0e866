-- ===== src/Pdu/Bounds.antt =====
-- The serialisers of src/cfdp_pdu.c write inside the buffer that they are given.
use embedded_cfdp.Base.{
  ℕ, ◌+◌, ◌*◌, ◌^◌, ◌≤◌, ◌<◌, ◌≡◌, refl, arith, List, [], some, not, ◌&&◌, ◌||◌, ltb, ◌==◌, ◌!=◌,
  if◌then◌else◌, bool_cases, inl, inr, is_null, deref, length, u64,
}
use embedded_cfdp.Buffer.Frame.{
  Frame, Frame-same, Frame-set, Frame-put_uint, Frame-put_octets, Frame-if, Contained, done,
  refused, Kept, Kept-Contained,
}
use embedded_cfdp.Common.{file_size_octets}
use embedded_cfdp.Crc.{crc_compute}
use embedded_cfdp.Pdu.Header.{
  Header, blank_header, header_size, id_len_valid, header_write, header_serialize,
  header_deserialize,
}
use embedded_cfdp.Pdu.Crc.{crc_append}
use embedded_cfdp.Pdu.FileData.{
  FileData, segment_metadata_consistent, segment_metadata_write, file_data_write,
  file_data_serialize,
}

module _ (buf : List ℕ) (buf_len : ℕ) (inside : buf_len ≤ length buf) where
  abbrev same : Frame buf_len buf buf
  same = Frame-same buf_len buf

  pub header-Contained :
      (h : Header) → Contained buf_len buf (header_serialize (some h) (some buf) buf_len)
  unfolding header_serialize header_write header_size id_len_valid
  header-Contained h =
      let size = header_size (some h) in
      refused (h.version != 1) same λ _. refused (size == 0 || ltb buf_len size) same λ passed.
        let whole : size ≡ 4 + 2 * h.entity_id_length + h.transaction_seq_length = ground arith in
        let room : size ≤ buf_len = ground arith in
        let flags = Frame-set 0 _ same (omega arith) in
        let fixed =
          Frame-set 3 _ (Frame-put_uint 1 h.data_field_length 2 flags (omega arith) inside)
            (omega arith) in
        let source =
          Frame-put_uint 4 h.source_entity_id h.entity_id_length fixed (omega arith) inside in
        let numbered =
          Frame-put_uint (4 + h.entity_id_length) h.transaction_seq_number h.transaction_seq_length
            source (omega arith) inside in
        done size _ room (
          Frame-put_uint (4 + h.entity_id_length + h.transaction_seq_length) h.destination_entity_id
            h.entity_id_length numbered (omega arith) inside)

  pub crc_append-Contained :
      (pdu_len : ℕ)
      → pdu_len + 2 < 2 ^ 64
      → Contained buf_len buf (crc_append (some buf) pdu_len buf_len)
  unfolding crc_append
  crc_append-Contained pdu_len word =
      let (hsize, out) = header_deserialize (some buf) pdu_len (some blank_header) in
      let hdr = deref blank_header out in
      let complete = u64 (pdu_len + 2) in
      let exact : complete ≡ pdu_len + 2 = omega arith in
      refused (hsize == 0 || hdr.crc_flag != 1 || ltb buf_len complete) same λ passed.
        let room : complete ≤ buf_len = ground arith in
        refused (header_size (some hdr) + hdr.data_field_length != complete) same λ _.
          done complete _ room
            (Frame-put_uint pdu_len (crc_compute (some buf) pdu_len) 2 same (omega arith) inside)

  file_data_write-Kept :
      (fd : FileData) (octets pos : ℕ) (out : List ℕ)
      → Frame buf_len buf out
      → pos + octets + fd.file_data_len ≤ buf_len
      → pos + octets + fd.file_data_len < 2 ^ 64
      → Kept buf_len buf (file_data_write fd octets pos out)
  unfolding file_data_write
  file_data_write-Kept fd octets pos out f room word =
      let with_offset = Frame-put_uint pos fd.offset octets f (omega arith) inside in
      elim (bool_cases (ltb 0 fd.file_data_len)) [
        | inl e ↦ rw e (record {
          answer = omega arith;
          frame =
              Frame-put_octets (pos + octets) (deref [] fd.file_data) fd.file_data_len with_offset
                (omega arith) inside;
        })
        | inr e ↦ rw e (record { answer = omega arith; frame = with_offset })
      ]

  segment_metadata_write-Kept :
      (fd : FileData)
      → fd.segment_metadata_len + 1 ≤ buf_len
      → Kept buf_len buf (segment_metadata_write fd buf)
  unfolding segment_metadata_write
  segment_metadata_write-Kept fd room =
      let headed = Frame-set 0 _ same (omega arith) in
      record {
        answer = room;
        frame =
            Frame-if (ltb 0 fd.segment_metadata_len)
              (Frame-put_octets 1 (deref [] fd.segment_metadata) fd.segment_metadata_len headed
                (omega arith) inside)
              headed;
      }

  pub file_data-Contained :
      (fd : FileData) (large_file_flag segment_metadata_flag : ℕ)
      → fd.file_data_len < 2 ^ 63
      → Contained buf_len buf
          (file_data_serialize (some fd) large_file_flag segment_metadata_flag (some buf) buf_len)
  unfolding file_data_serialize segment_metadata_consistent file_size_octets
  file_data-Contained fd large_file_flag flag word =
      let octets = file_size_octets large_file_flag in
      let size = if flag == 1 then fd.segment_metadata_len + 1 else 0 in
      refused
        ((is_null fd.file_data && ltb 0 fd.file_data_len)
          || not (segment_metadata_consistent fd flag))
        same
        λ consistent. refused (ltb buf_len (u64 (size + octets + fd.file_data_len))) same λ passed.
          elim (bool_cases (flag == 1)) [
            | inl e ↦
                let small : fd.segment_metadata_len ≤ 63 = ground arith in
                let room : fd.segment_metadata_len + 1 + octets + fd.file_data_len ≤ buf_len =
                  ground arith in
                let (pos, out) = segment_metadata_write fd buf in
                let kept = segment_metadata_write-Kept fd (omega arith) in
                let there : pos ≡ fd.segment_metadata_len + 1 =
                  unfold segment_metadata_write in refl in
                rw e (
                  Kept-Contained (
                    file_data_write-Kept fd octets pos out kept.frame (omega arith) (ground arith)))
            | inr e ↦ rw e (
                Kept-Contained
                  (file_data_write-Kept fd octets 0 buf same (ground arith) (ground arith)))
          ]
