-- ===== src/Tlv/Filestore/Bounds.antt =====
-- The filestore TLVs are written inside the buffer that is given.
use embedded_cfdp.Base.{
  ℕ, ◌+◌, ◌-◌, ◌≤◌, arith, List, some, Bool, not, ◌||◌, ltb, ◌==◌, deref, drop, length, set, u8,
  bit_and, bit_or, ◌<<◌,
}
use embedded_cfdp.Buffer.{Pointer, put_back}
use embedded_cfdp.Buffer.Frame.{
  Frame, Frame-same, Frame-set, Frame-put_back, Frame-deref, Contained, refused, Kept, Kept-if,
  Kept-Contained, room_behind,
}
use embedded_cfdp.Tlv.{lv_serialize}
use embedded_cfdp.Tlv.Bounds.{lv-Contained}
use embedded_cfdp.Tlv.Filestore.{
  filestore_action_valid, filestore_action_has_second_filename, filestore_names_serialize,
  filestore_tlv_finish,
}
use embedded_cfdp.Tlv.Filestore.Request.{FilestoreRequest, filestore_request_tlv_serialize}
use embedded_cfdp.Tlv.Filestore.Response.{FilestoreResponse, filestore_response_tlv_serialize}

-- The arguments of `cfdp_filestore_names_serialize`.
record NameArguments : Type 0 where
  first : Pointer
  first_len : ℕ
  second : Pointer
  second_len : ℕ
  has_second : Bool

names-Kept :
    (first : Pointer) (first_len : ℕ) (second : Pointer) (second_len : ℕ) (has_second : Bool)
    (buf : List ℕ) (buf_len : ℕ)
    → buf_len ≤ length buf
    → Kept buf_len buf
        (filestore_names_serialize first first_len second second_len has_second buf buf_len)
unfolding filestore_names_serialize
names-Kept first first_len second second_len has_second buf buf_len inside =
    let c = lv-Contained buf buf_len inside first first_len in
    let one = Frame-deref buf c in
    let pos = (lv_serialize first first_len (some buf) buf_len).0 in
    let behind = drop pos (deref buf (lv_serialize first first_len (some buf) buf_len).1) in
    let n = (lv_serialize second second_len (some behind) (buf_len - pos)).0 in
    let d = lv-Contained behind (buf_len - pos) (room_behind pos one inside) second second_len in
    let two = Frame-put_back pos _ one c.answer inside d in
    Kept-if (pos == 0) (record { answer = omega arith; frame = one })
      λ _.
        Kept-if (not has_second) (record { answer = c.answer; frame = one })
          λ _.
            Kept-if (n == 0) (record { answer = omega arith; frame = two })
              λ _. record { answer = omega (arith, c.answer, d.answer); frame = two }

finish-Kept :
    {k : ℕ} {buf out : List ℕ} (kind end_pos : ℕ)
    → Frame k buf out
    → 2 ≤ k
    → end_pos ≤ k
    → Kept k buf (filestore_tlv_finish out kind end_pos)
unfolding filestore_tlv_finish
finish-Kept kind end_pos f h room =
    Kept-if (ltb 255 (end_pos - 2)) (record { answer = omega arith; frame = f })
      λ _. record {
        answer = room;
        frame = Frame-set 1 _ (Frame-set 0 kind f (omega arith)) (omega arith);
      }

-- The memory after the first octet of the value and the names are written.
abbrev named : NameArguments → ℕ → List ℕ → ℕ → ℕ × List ℕ
named names codes buf buf_len =
    let action = set buf 2 codes in
    let (n, tail) =
      filestore_names_serialize names.first names.first_len names.second names.second_len
        names.has_second (drop 3 action) (buf_len - 3) in
    (n, put_back action 3 (some tail))

module _ (buf : List ℕ) (buf_len : ℕ) (inside : buf_len ≤ length buf) where
  named-Frame :
      (names : NameArguments) (codes : ℕ)
      → 3 ≤ buf_len
      → let (n, out) = named names codes buf buf_len in (n ≤ buf_len - 3) × Frame buf_len buf out
  named-Frame names codes room =
      let action = Frame-set 2 codes (Frame-same buf_len buf) room in
      let kept =
        names-Kept names.first names.first_len names.second names.second_len names.has_second
          (drop 3 (set buf 2 codes)) (buf_len - 3) (room_behind 3 action inside) in
      (kept.answer, Frame-put_back 3 _ action room inside (Kept-Contained kept))

  pub filestore_request_tlv-Contained :
      (req : FilestoreRequest)
      → Contained buf_len buf (filestore_request_tlv_serialize (some req) (some buf) buf_len)
  unfolding filestore_request_tlv_serialize
  filestore_request_tlv-Contained req =
      let names : NameArguments = record {
        first = req.first_filename;
        first_len = req.first_filename_len;
        second = req.second_filename;
        second_len = req.second_filename_len;
        has_second = filestore_action_has_second_filename req.action_code;
      } in
      let codes = u8 (bit_and (u8 req.action_code) 0xF << 4) in
      let (n, out) = named names codes buf buf_len in
      refused (ltb buf_len 3 || not (filestore_action_valid req.action_code))
        (Frame-same buf_len buf)
        λ passed.
          let room : 3 ≤ buf_len = ground arith in
          let (few, f) = named-Frame names codes room in
          refused (n == 0) f
            λ _. Kept-Contained (finish-Kept 0 (3 + n) f (omega arith) (omega arith))

  pub filestore_response_tlv-Contained :
      (resp : FilestoreResponse)
      → Contained buf_len buf (filestore_response_tlv_serialize (some resp) (some buf) buf_len)
  unfolding filestore_response_tlv_serialize
  filestore_response_tlv-Contained resp =
      let names : NameArguments = record {
        first = resp.first_filename;
        first_len = resp.first_filename_len;
        second = resp.second_filename;
        second_len = resp.second_filename_len;
        has_second = filestore_action_has_second_filename resp.action_code;
      } in
      let codes =
        u8 (bit_or (bit_and (u8 resp.action_code) 0xF << 4) (bit_and (u8 resp.status_code) 0xF)) in
      let (n, out) = named names codes buf buf_len in
      let pos = 3 + n in
      let (m, tail) =
        lv_serialize resp.message resp.message_len (some (drop pos out)) (buf_len - pos) in
      refused (ltb buf_len 3 || not (filestore_action_valid resp.action_code))
        (Frame-same buf_len buf)
        λ passed.
          let room : 3 ≤ buf_len = ground arith in
          let (few, f) = named-Frame names codes room in
          let c =
            lv-Contained (drop pos out) (buf_len - pos) (room_behind pos f inside) resp.message
              resp.message_len in
          let g = Frame-put_back pos (m, tail) f (omega arith) inside c in
          refused (n == 0) f λ _.
            refused (m == 0) g λ _.
              Kept-Contained (finish-Kept 1 (pos + m) g (omega arith) (omega (arith, c.answer)))
