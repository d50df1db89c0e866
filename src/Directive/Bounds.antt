-- ===== src/Directive/Bounds.antt =====
-- The serialisers of src/cfdp_directive.c write inside the buffer that they are given.
use embedded_cfdp.Base.{
  ℕ, zero, suc, ◌+◌, ◌-◌, ◌*◌, ◌≤◌, ◌≡◌, ◌∙◌, arith, List, [], some, not, ◌&&◌, ◌||◌, ltb, ◌==◌,
  ◌!=◌, if◌then◌else◌, bool_cases, inl, inr, is_null, deref, get_or, drop, length,
}
use embedded_cfdp.Buffer.{put_uint, put_octets, put_back}
use embedded_cfdp.Buffer.Frame.{
  Frame, Frame-same, Frame-set, Frame-put_uint, Frame-put_octets, Frame-put_back, Frame-if,
  Contained, done, refused, room_behind,
}
use embedded_cfdp.Common.{file_size_octets, file_size_octets_cases}
use embedded_cfdp.Common.ConditionCode
use embedded_cfdp.Tlv.{lv_serialize}
use embedded_cfdp.Tlv.Bounds.{lv-Contained, lv-size, entity_id_tlv-Contained}
use embedded_cfdp.Tlv.EntityId.{entity_id_tlv_serialize}
use embedded_cfdp.Directive.Ack.{Ack, ack_directive_valid, ack_serialize}
use embedded_cfdp.Directive.Prompt.{prompt_serialize}
use embedded_cfdp.Directive.KeepAlive.{keep_alive_serialize}
use embedded_cfdp.Directive.Eof.{Eof, eof_write, eof_serialize}
use embedded_cfdp.Directive.Nak.{
  Nak, SegmentRequest, blank_request, nak_max_segment_requests, nak_write_requests, nak_serialize,
}
use embedded_cfdp.Directive.Nak.Requests.{requests_size, requests_size_lem}
use embedded_cfdp.Directive.Metadata.{Metadata, metadata_write, metadata_serialize}
use embedded_cfdp.Directive.Finished.{
  Finished, fault_location_required, finished_write, finished_serialize,
}

nak_write_requests-Frame :
    (left i : ℕ) (requests : List SegmentRequest) (fs pos k : ℕ) (buf out : List ℕ)
    → Frame k buf out
    → pos + requests_size fs left ≤ k
    → k ≤ length buf
    → let (end_pos, written) = nak_write_requests left i pos requests fs out in
      Frame k buf written × (end_pos ≡ pos + requests_size fs left)
unfolding nak_write_requests requests_size
nak_write_requests-Frame zero i requests fs pos k buf out f room inside = (f, omega arith)
nak_write_requests-Frame (suc left) i requests fs pos k buf out f room inside =
    let r = get_or requests i blank_request in
    let started = put_uint out pos r.start_offset fs in
    let (g, count) =
      nak_write_requests-Frame left (suc i) requests fs (pos + fs + fs) k buf
        (put_uint started (pos + fs) r.end_offset fs)
        (Frame-put_uint (pos + fs) r.end_offset fs
          (Frame-put_uint pos r.start_offset fs f (omega arith) inside) (omega arith) inside)
        (omega arith) inside in
    (g, count ∙ omega arith)

-- The size that the serialiser computes is what the loop writes.
requests_room :
    (large_file_flag count : ℕ)
    → let fs = file_size_octets large_file_flag in
      1 + 2 * fs + count * (2 * fs) ≡ 1 + fs + fs + requests_size fs count
requests_room large_file_flag count =
    let (small, large) = requests_size_lem count in
    elim (file_size_octets_cases large_file_flag) [
      | inl e ↦ rw e (omega (arith, small))
      | inr e ↦ rw e (omega (arith, large))
    ]

module _ (buf : List ℕ) (buf_len : ℕ) (inside : buf_len ≤ length buf) where
  abbrev same : Frame buf_len buf buf
  same = Frame-same buf_len buf

  pub ack-Contained :
      (ack : Ack) → Contained buf_len buf (ack_serialize (some ack) (some buf) buf_len)
  unfolding ack_serialize
  ack-Contained ack =
      refused (ltb buf_len 3 || not (ack_directive_valid ack.ack_directive_code)) same λ passed.
        let room : 3 ≤ buf_len = ground arith in
        done 3 _ room
          (Frame-set 2 _ (Frame-set 1 _ (Frame-set 0 6 same (omega arith)) (omega arith)) room)

  pub prompt-Contained :
      (response : ℕ) → Contained buf_len buf (prompt_serialize response (some buf) buf_len)
  unfolding prompt_serialize
  prompt-Contained response = refused (ltb buf_len 2) same λ passed.
      let room : 2 ≤ buf_len = ground arith in
      done 2 _ room (Frame-set 1 _ (Frame-set 0 9 same (omega arith)) room)

  pub keep_alive-Contained :
      (progress large_file_flag : ℕ)
      → Contained buf_len buf (keep_alive_serialize progress large_file_flag (some buf) buf_len)
  unfolding keep_alive_serialize
  keep_alive-Contained progress large_file_flag =
      let fs = file_size_octets large_file_flag in
      refused (ltb buf_len (fs + 1)) same λ passed.
        let room : fs + 1 ≤ buf_len = ground arith in
        done (fs + 1) _ room
          (Frame-put_uint 1 progress fs (Frame-set 0 12 same (omega arith)) (omega arith) inside)

  pub eof-Contained :
      (eof : Eof) (large_file_flag : ℕ)
      → Contained buf_len buf (eof_serialize (some eof) large_file_flag (some buf) buf_len)
  unfolding eof_serialize eof_write
  eof-Contained eof large_file_flag =
      let fs = file_size_octets large_file_flag in
      let size = fs + 6 in
      let located = eof.condition_code != ConditionCode.no_error in
      let fixed = eof_write eof fs buf in
      let (n, tail) =
        entity_id_tlv_serialize eof.fault_location_entity_id eof.fault_location_len
          (some (drop size fixed)) (buf_len - size) in
      refused ((located && (eof.fault_location_len == 0)) || ltb buf_len size) same λ passed.
        let room : size ≤ buf_len = ground arith in
        let f : Frame buf_len buf fixed =
          Frame-put_uint 6 eof.file_size fs
            (Frame-put_uint 2 eof.file_checksum 4
              (Frame-set 1 _ (Frame-set 0 4 same (omega arith)) (omega arith)) (omega arith) inside)
            (omega arith) inside in
        let c =
          entity_id_tlv-Contained (drop size fixed) (buf_len - size) (room_behind size f inside)
            eof.fault_location_entity_id eof.fault_location_len in
        let g = Frame-put_back size (n, tail) f room inside c in
        elim (bool_cases located) [
          | inr e ↦ rw e (done size fixed room f)
          | inl e ↦ rw e (refused (n == 0) g λ _. done (size + n) _ (omega (arith, c.answer)) g)
        ]

  pub nak-Contained :
      (nak : Nak) (large_file_flag : ℕ)
      → Contained buf_len buf (nak_serialize (some nak) large_file_flag (some buf) buf_len)
  unfolding nak_serialize
  nak-Contained nak large_file_flag =
      let fs = file_size_octets large_file_flag in
      let count = nak.segment_request_count in
      let size = 1 + 2 * fs + count * (2 * fs) in
      refused (ltb nak_max_segment_requests count) same λ _.
        refused (ltb buf_len size) same λ passed.
          let room : size ≤ buf_len = ground arith in
          let f =
            Frame-put_uint (1 + fs) nak.end_of_scope fs
              (Frame-put_uint 1 nak.start_of_scope fs (Frame-set 0 8 same (omega arith))
                (omega arith) inside)
              (omega arith) inside in
          let (g, end_pos) =
            nak_write_requests-Frame count 0 nak.segment_requests fs (1 + fs + fs) buf_len buf _ f
              (omega (arith, requests_room large_file_flag count)) inside in
          done _ _ (omega (arith, end_pos, requests_room large_file_flag count)) g

  pub metadata-Contained :
      (md : Metadata) (large_file_flag : ℕ)
      → Contained buf_len buf (metadata_serialize (some md) large_file_flag (some buf) buf_len)
  unfolding metadata_serialize metadata_write
  metadata-Contained md large_file_flag =
      let fs = file_size_octets large_file_flag in
      let need = fs + md.source_filename_len + md.destination_filename_len + md.options_len + 4 in
      let fixed = metadata_write md fs buf in
      let source_pos = 2 + fs in
      let (n, source_tail) =
        lv_serialize md.source_filename md.source_filename_len (some (drop source_pos fixed))
          (buf_len - source_pos) in
      let source = put_back fixed source_pos source_tail in
      let destination_pos = source_pos + n in
      let (m, destination_tail) =
        lv_serialize md.destination_filename md.destination_filename_len
          (some (drop destination_pos source)) (buf_len - destination_pos) in
      let pos = destination_pos + m in
      refused ((is_null md.options && ltb 0 md.options_len) || ltb buf_len need) same λ passed.
        let room : need ≤ buf_len = ground arith in
        let f : Frame buf_len buf fixed =
          Frame-put_uint 2 md.file_size fs
            (Frame-set 1 _ (Frame-set 0 7 same (omega arith)) (omega arith)) (omega arith) inside in
        let c =
          lv-Contained (drop source_pos fixed) (buf_len - source_pos)
            (room_behind source_pos f inside) md.source_filename md.source_filename_len in
        let g = Frame-put_back source_pos (n, source_tail) f (omega arith) inside c in
        let d =
          lv-Contained (drop destination_pos source) (buf_len - destination_pos)
            (room_behind destination_pos g inside) md.destination_filename
            md.destination_filename_len in
        let h =
          Frame-put_back destination_pos (m, destination_tail) g (omega (arith, c.answer)) inside
            d in
        refused (n == 0) g λ wrote. refused (m == 0) h λ wrote_too.
          let end_pos : pos + md.options_len ≤ buf_len = omega (
            arith,
            lv-size md.source_filename md.source_filename_len (drop source_pos fixed)
                (buf_len - source_pos),
            lv-size md.destination_filename md.destination_filename_len
                (drop destination_pos source) (buf_len - destination_pos),
          ) in
          elim (bool_cases (ltb 0 md.options_len)) [
            | inr e ↦ rw e (done pos _ (omega arith) h)
            | inl e ↦ rw e (
                done (pos + md.options_len) _ end_pos
                  (Frame-put_octets pos (deref [] md.options) md.options_len h end_pos inside))
          ]

  pub finished-Contained :
      (fin : Finished) → Contained buf_len buf (finished_serialize (some fin) (some buf) buf_len)
  unfolding finished_serialize finished_write
  finished-Contained fin =
      let len = fin.filestore_responses_len in
      let required = fault_location_required fin.condition_code in
      let fixed = finished_write fin buf in
      let copied =
        if ltb 0 len then put_octets fixed 2 (deref [] fin.filestore_responses) len else fixed in
      let pos = 2 + len in
      let (n, tail) =
        entity_id_tlv_serialize fin.fault_location_entity_id fin.fault_location_len
          (some (drop pos copied)) (buf_len - pos) in
      refused (ltb buf_len 2 || (is_null fin.filestore_responses && ltb 0 len)) same λ _.
        refused (required && (fin.fault_location_len == 0)) same λ _.
          refused (ltb buf_len (2 + len)) same λ passed.
            let room : pos ≤ buf_len = ground arith in
            let f : Frame buf_len buf fixed =
              Frame-set 1 _ (Frame-set 0 5 same (omega arith)) (omega arith) in
            let g =
              Frame-if (ltb 0 len)
                (Frame-put_octets 2 (deref [] fin.filestore_responses) len f room inside) f in
            let c =
              entity_id_tlv-Contained (drop pos copied) (buf_len - pos) (room_behind pos g inside)
                fin.fault_location_entity_id fin.fault_location_len in
            let h = Frame-put_back pos (n, tail) g room inside c in
            elim (bool_cases required) [
              | inr e ↦ rw e (done pos copied room g)
              | inl e ↦ rw e (refused (n == 0) h λ _. done (pos + n) _ (omega (arith, c.answer)) h)
            ]
