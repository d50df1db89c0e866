-- ===== src/Pdu/FileData/RoundTrip.antt =====
-- Reading a File Data PDU back from its octets.
use embedded_cfdp.Base.{
  ℕ, ◌+◌, ◌*◌, ◌^◌, ◌≤◌, ◌<◌, ◌≡◌, inl, inr, bool_cases, refl, ap, sym, ◌∙◌, arith, List, [], ◌∷◌,
  ◌++◌, append_assoc, none, some, true, false, ◌==◌, deref, length, length-take, take, take-append,
  drop, drop_behind, ◌>>◌,
}
use embedded_cfdp.Base.Bits.{bit_and-mask}
use embedded_cfdp.Buffer.{contents}
use embedded_cfdp.Buffer.Overlay.{overlay}
use embedded_cfdp.Common.{file_size_octets, file_size_octets_cases}
use embedded_cfdp.Endian.Octets.{be_octets, length-be_octets}
use embedded_cfdp.Endian.Read.{read_uint-be_octets}
use embedded_cfdp.Buffer.Overlay.{pointer_to, contents-pointer_to}
use embedded_cfdp.Pdu.FileData.{
  FileData, segment_metadata_consistent, segment_metadata_read, file_data_read, file_data_serialize,
  file_data_deserialize,
}
use embedded_cfdp.Pdu.FileData.Layout.{
  IsFileData, metadata_octets, metadata_size, file_data_octets, payload_octets,
  file_data_serialize-octets,
}

-- Two payloads that say the same: equal fields, and equal octets behind the pointers.
pub record SamePayload (a b : FileData) : Type 0 where
  pub offset : a.offset ≡ b.offset
  pub file_data_len : a.file_data_len ≡ b.file_data_len
  pub file_data : contents a.file_data a.file_data_len ≡ contents b.file_data b.file_data_len
  pub record_continuation : a.record_continuation ≡ b.record_continuation
  pub segment_metadata_len : a.segment_metadata_len ≡ b.segment_metadata_len
  pub segment_metadata :
      contents a.segment_metadata a.segment_metadata_len
      ≡ contents b.segment_metadata b.segment_metadata_len

-- The metadata are read from their octets, whatever follows them.
metadata_read_lem :
    (fd : FileData) (rc n : ℕ) (body : List ℕ) (buf : List ℕ) (buf_len : ℕ)
    → buf ≡ (rc * 64 + n) ∷ body
    → rc < 4
    → n < 64
    → n + 1 ≤ buf_len
    → segment_metadata_read buf buf_len fd ≡ (
      n + 1,
      record fd {
        record_continuation = rc;
        segment_metadata_len = n;
        segment_metadata = pointer_to body n;
      },
    )
unfolding segment_metadata_read
metadata_read_lem fd rc n body buf buf_len e h k room =
    rw e (ground (arith, bit_and-mask 6 (rc * 64 + n), bit_and-mask 2 ((rc * 64 + n) >> 6)))

file_data_read_lem :
    (fd : FileData) (buf : List ℕ) (octets pos offset n buf_len : ℕ) (rest : List ℕ)
    → drop pos buf ≡ be_octets octets offset ++ rest
    → octets ≤ 8
    → offset < 256 ^ octets
    → buf_len ≡ pos + octets + n
    → file_data_read buf buf_len octets pos fd
      ≡ (buf_len, record fd { offset = offset; file_data = pointer_to rest n; file_data_len = n })
unfolding file_data_read
file_data_read_lem fd buf octets pos offset n buf_len rest e k h size =
    rw
      (
        size,
        read_uint-be_octets (drop pos buf) octets offset rest e k h,
        drop_behind pos (pos + octets) buf (be_octets octets offset) rest e
            (ap (λ m. pos + m) (length-be_octets octets offset)),
      )
      (ground arith)

module _ (fd old : FileData) (large flag : ℕ) (ok : IsFileData fd large flag) where
  abbrev octets : ℕ
  octets = file_size_octets large

  octets-le : octets ≤ 8
  octets-le = elim (file_size_octets_cases large) [ inl e ↦ omega arith | inr e ↦ omega arith ]

  abbrev tail_octets : List ℕ → List ℕ
  tail_octets rest = be_octets octets fd.offset ++ (contents fd.file_data fd.file_data_len ++ rest)

  data_contents :
      (rest : List ℕ)
      → contents
          (pointer_to (contents fd.file_data fd.file_data_len ++ rest) fd.file_data_len)
          fd.file_data_len
        ≡ contents fd.file_data fd.file_data_len
  data_contents rest =
      contents-pointer_to _ fd.file_data_len
      ∙ take-append fd.file_data_len (contents fd.file_data fd.file_data_len) rest
          (length-take fd.file_data_len (deref [] fd.file_data) ok.file_data)

  Reads : List ℕ → Type 0
  Reads buf =
      (out : FileData) × (file_data_deserialize (some buf) (payload_octets fd large flag) large flag
          (some old)
        ≡ (payload_octets fd large flag, some out))
      × SamePayload out fd

  plain-Reads : (buf rest : List ℕ) → (flag == 1) ≡ false → buf ≡ tail_octets rest → Reads buf
  unfolding Reads file_data_deserialize payload_octets metadata_size segment_metadata_consistent
  plain-Reads buf rest e whole =
      let n = fd.file_data_len in
      let reset = record old {
        record_continuation = 0;
        segment_metadata = none;
        segment_metadata_len = 0;
      } in
      let body = contents fd.file_data n ++ rest in
      let zero_len : 0 ≡ fd.segment_metadata_len = ground arith in
      (
        record reset { offset = fd.offset; file_data = pointer_to body n; file_data_len = n },
        rw (
          e,
          file_data_read_lem reset buf octets 0 fd.offset n (0 + octets + n) body whole octets-le
              ok.offset refl,
        ),
        record {
          offset = refl;
          file_data_len = refl;
          file_data = data_contents rest;
          record_continuation = sym (ok.plain (ground arith));
          segment_metadata_len = zero_len;
          segment_metadata = ap (λ k. take k (deref [] fd.segment_metadata)) zero_len;
        },
      )

  tagged-Reads :
      (buf rest : List ℕ)
      → (flag == 1) ≡ true
      → buf
        ≡ (fd.record_continuation * 64 + fd.segment_metadata_len)
          ∷ (contents fd.segment_metadata fd.segment_metadata_len ++ tail_octets rest)
      → Reads buf
  unfolding Reads file_data_deserialize payload_octets metadata_size segment_metadata_consistent
  tagged-Reads buf rest e whole =
      let n = fd.file_data_len in
      let m = fd.segment_metadata_len in
      let small : m < 64 = ground arith in
      let reset = record old {
        record_continuation = 0;
        segment_metadata = none;
        segment_metadata_len = 0;
      } in
      let body = contents fd.segment_metadata m ++ tail_octets rest in
      let tagged = record reset {
        record_continuation = fd.record_continuation;
        segment_metadata_len = m;
        segment_metadata = pointer_to body m;
      } in
      let data_body = contents fd.file_data n ++ rest in
      let behind : drop (m + 1) buf ≡ tail_octets rest =
        drop_behind 0 (m + 1) buf
          ((fd.record_continuation * 64 + m) ∷ contents fd.segment_metadata m) (tail_octets rest)
          whole (omega (arith, length-take m (deref [] fd.segment_metadata) ok.segment_metadata)) in
      (
        record tagged { offset = fd.offset; file_data = pointer_to data_body n; file_data_len = n },
        rw
            (
              e,
              metadata_read_lem reset fd.record_continuation m body buf (m + 1 + octets + n) whole
                  ok.record_continuation small (omega arith),
              file_data_read_lem tagged buf octets (m + 1) fd.offset n (m + 1 + octets + n)
                  data_body behind octets-le ok.offset refl,
            )
            (ground arith),
        record {
          offset = refl;
          file_data_len = refl;
          file_data = data_contents rest;
          record_continuation = refl;
          segment_metadata_len = refl;
          segment_metadata =
              contents-pointer_to body m
              ∙ take-append m (contents fd.segment_metadata m) (tail_octets rest)
                  (length-take m (deref [] fd.segment_metadata) ok.segment_metadata);
        },
      )

  reads : (buf rest : List ℕ) → buf ≡ file_data_octets fd large flag ++ rest → Reads buf
  unfolding file_data_octets metadata_octets
  reads buf rest whole = elim (bool_cases (flag == 1)) [
    | inl e ↦ tagged-Reads buf rest e (whole ∙ rw e (simp append_assoc))
    | inr e ↦ plain-Reads buf rest e (whole ∙ rw e (simp append_assoc))
  ]

-- A payload is read from its octets, whatever follows them and whatever `fd` held before.
pub file_data_deserialize-octets :
    (fd old : FileData) (large flag : ℕ) (buf rest : List ℕ)
    → IsFileData fd large flag
    → buf ≡ file_data_octets fd large flag ++ rest
    → (out : FileData) × (file_data_deserialize
          (some buf)
          (payload_octets fd large flag)
          large
          flag
          (some old)
        ≡ (payload_octets fd large flag, some out))
      × SamePayload out fd
unfolding Reads
file_data_deserialize-octets fd old large flag buf rest ok whole =
    reads fd old large flag ok buf rest whole

-- What `cfdp_file_data_serialize` wrote, for a payload that can be sent and a buffer with room
-- for it, `cfdp_file_data_deserialize` reads back under the same flags: all octets are
-- consumed, and the payload stored says the same as the one sent.
pub file_data_round_trip :
    (fd old : FileData) (large_file_flag segment_metadata_flag : ℕ) (buf : List ℕ) (buf_len : ℕ)
    → IsFileData fd large_file_flag segment_metadata_flag
    → payload_octets fd large_file_flag segment_metadata_flag ≤ buf_len
    → buf_len ≤ length buf
    → buf_len < 2 ^ 64
    → let (n, out) =
        file_data_serialize (some fd) large_file_flag segment_metadata_flag (some buf) buf_len in
      (got : FileData) × (file_data_deserialize out n large_file_flag segment_metadata_flag
          (some old)
        ≡ (n, some got))
      × SamePayload got fd
      × (n ≡ payload_octets fd large_file_flag segment_metadata_flag)
unfolding overlay
file_data_round_trip fd old large flag buf buf_len ok room inside word =
    rw (file_data_serialize-octets fd large flag buf buf_len ok room inside word) (
      let (got, e, same) = file_data_deserialize-octets fd old large flag _ _ ok refl in
      (got, e, same, refl))
