-- ===== src/Pdu/FileData/Accepted.antt =====
-- What `cfdp_file_data_deserialize` accepts: the octets of a payload that can be sent.
use native.Mathlib.Decide.{dec_le}
use embedded_cfdp.Base.{
  ℕ, suc, ◌+◌, ◌-◌, ◌*◌, ◌/◌, ◌%◌, ◌^◌, ◌≤◌, ◌<◌, ◌≡◌, ◌⊎◌, inl, inr, bool_cases, refl, ap, ap₂,
  sym, ◌∙◌, arith, List, [], ◌∷◌, ◌++◌, append_assoc, none, some, true, false, ◌==◌, deref, length,
  length-drop, take, take-add, drop, drop-drop, drop-All, drop-cons, get_or, get_or-All, All,
  IsByte, bit_and, u8, ◌>>◌,
}
use embedded_cfdp.Base.Bits.{bit_and-mask}
use embedded_cfdp.Buffer.{contents, get_uint}
use embedded_cfdp.Buffer.Overlay.{pointer_to, contents-pointer_to, pointer_to-length}
use embedded_cfdp.Common.{file_size_octets, file_size_octets-le}
use embedded_cfdp.Endian.Octets.{be_octets}
use embedded_cfdp.Endian.Read.{read_uint-lt, be_octets-read_uint}
use embedded_cfdp.Pdu.FileData.{
  FileData, segment_metadata_consistent, segment_metadata_read, file_data_read,
  file_data_deserialize,
}
use embedded_cfdp.Pdu.FileData.Layout.{IsFileData, metadata_octets, file_data_octets}

module _ (buf : List ℕ) (buf_len : ℕ) (inside : buf_len ≤ length buf) (bytes : All IsByte buf) where
  -- Offset and data are read from the octets behind the metadata.
  tail_read :
      (octets pos : ℕ) (fd : FileData)
      → octets ≤ 8
      → pos + octets ≤ buf_len
      → let got = record fd {
        offset = get_uint buf pos octets;
        file_data = pointer_to (drop (pos + octets) buf) (buf_len - (pos + octets));
        file_data_len = buf_len - (pos + octets);
      } in
        (file_data_read buf buf_len octets pos fd ≡ (buf_len, got))
        × (got.offset < 256 ^ octets)
        × (got.file_data_len ≤ length (deref [] got.file_data))
        × (be_octets octets got.offset ++ contents got.file_data got.file_data_len
            ≡ take (buf_len - pos) (drop pos buf))
  unfolding file_data_read
  tail_read octets pos fd small room = (
    ground arith,
    read_uint-lt (drop pos buf) octets (omega (arith, length-drop {0} pos buf)) small
        (drop-All IsByte pos buf bytes),
    pointer_to-length (drop (pos + octets) buf) (buf_len - (pos + octets))
        (omega (arith, length-drop {0} (pos + octets) buf)),
    ap₂ ◌++◌
          (be_octets-read_uint (drop pos buf) octets (omega (arith, length-drop {0} pos buf)) small
            (drop-All IsByte pos buf bytes))
          (contents-pointer_to (drop (pos + octets) buf) (buf_len - (pos + octets))
            ∙ ap (take (buf_len - (pos + octets)))
                (sym (drop-drop octets pos (pos + octets) buf refl)))
        ∙ sym (take-add octets (buf_len - (pos + octets)) (drop pos buf))
        ∙ ap (λ k. take k (drop pos buf)) (omega arith),
  )

-- What an accepted payload is.
pub record AcceptedFileData (buf : List ℕ) (buf_len large flag n : ℕ) (fd : FileData) : Type 0 where
  pub consumed : n ≡ buf_len
  pub sendable : IsFileData fd large flag
  pub layout : file_data_octets fd large flag ≡ take buf_len buf

module _ (buf : List ℕ) (buf_len : ℕ) (large flag : ℕ) (old : FileData)
    (inside : buf_len ≤ length buf) (bytes : All IsByte buf) where
  abbrev octets : ℕ
  octets = file_size_octets large

  abbrev reset : FileData
  reset = record old { record_continuation = 0; segment_metadata = none; segment_metadata_len = 0 }

  abbrev with_tail : ℕ → FileData → FileData
  with_tail pos fd = record fd {
    offset = get_uint buf pos octets;
    file_data = pointer_to (drop (pos + octets) buf) (buf_len - (pos + octets));
    file_data_len = buf_len - (pos + octets);
  }

  abbrev Answer : Type 0
  Answer =
      let (n, out) = file_data_deserialize (some buf) buf_len large flag (some old) in
      (n ≡ 0) ⊎ AcceptedFileData buf buf_len large flag n (deref old out)

  tail_cut :
      (pos : ℕ) (fd : FileData)
      → buf_len < pos + octets
      → file_data_read buf buf_len octets pos fd ≡ (0, fd)
  unfolding file_data_read
  tail_cut pos fd cut = ground arith

  plain_accepted :
      (flag == 1) ≡ false
      → get_uint buf 0 octets < 256 ^ octets
      → (let got = with_tail 0 reset in
          (got.file_data_len ≤ length (deref [] got.file_data))
          × (be_octets octets got.offset ++ contents got.file_data got.file_data_len
              ≡ take (buf_len - 0) (drop 0 buf)))
      → AcceptedFileData buf buf_len large flag buf_len (with_tail 0 reset)
  unfolding file_data_octets metadata_octets segment_metadata_consistent
  plain_accepted plain offset tail = record {
    consumed = refl;
    sendable = record {
      offset = offset;
      file_data = tail.0;
      record_continuation = omega arith;
      segment_metadata = omega arith;
      consistent = ground arith;
      plain = λ _. refl;
    };
    layout = rw plain (tail.1 ∙ ap (λ k. take k buf) (omega arith));
  }

  plain_cases : (flag == 1) ≡ false → Answer
  unfolding file_data_deserialize
  plain_cases plain = elim (dec_le octets buf_len) [
    | no cut ↦ inl (rw (plain, tail_cut 0 reset (omega arith)) refl)
    | yes room ↦
        let (read, offset, held, layout) =
          tail_read buf buf_len inside bytes octets 0 reset (file_size_octets-le large)
            (omega arith) in
        inr (rw (plain, read) (plain_accepted plain offset (held, layout)))
  ]

  abbrev first : ℕ
  first = get_or buf 0 0

  abbrev m : ℕ
  m = first % 64

  abbrev tagged : FileData
  tagged = record reset {
    record_continuation = first / 64;
    segment_metadata_len = m;
    segment_metadata = pointer_to (drop 1 buf) m;
  }

  first-lt : first < 256
  first-lt = get_or-All IsByte buf 0 0 bytes (omega arith)

  metadata_fields : (u8 (bit_and first 0x3F) ≡ m) × (bit_and (first >> 6) 0x3 ≡ first / 64)
  metadata_fields =
      (omega (arith, bit_and-mask 6 first), omega (arith, bit_and-mask 2 (first >> 6), first-lt))

  tagged_read : m + 1 ≤ buf_len → segment_metadata_read buf buf_len reset ≡ (m + 1, tagged)
  unfolding segment_metadata_read
  tagged_read room = rw (metadata_fields.0, metadata_fields.1) (ground arith)

  tagged_cut : buf_len < m + 1 → (segment_metadata_read buf buf_len reset).0 ≡ 0
  unfolding segment_metadata_read
  tagged_cut cut = rw metadata_fields.0 (ground arith)

  front_octets :
      m + 1 ≤ buf_len
      → (first / 64 * 64 + m) ∷ contents (pointer_to (drop 1 buf) m) m ≡ take (m + 1) buf
  front_octets room =
      let next : suc m ≡ m + 1 = omega arith in
      let digits : first / 64 * 64 + m ≡ first = omega arith in
      ap₂ ◌∷◌ digits (contents-pointer_to (drop 1 buf) m)
      ∙ ap (take (suc m)) (sym (drop-cons 0 buf 0 (omega arith)))
      ∙ ap (λ k. take k buf) next

  tagged_accepted :
      (flag == 1) ≡ true
      → m + 1 + octets ≤ buf_len
      → get_uint buf (m + 1) octets < 256 ^ octets
      → (let got = with_tail (m + 1) tagged in
          (got.file_data_len ≤ length (deref [] got.file_data))
          × (be_octets octets got.offset ++ contents got.file_data got.file_data_len
              ≡ take (buf_len - (m + 1)) (drop (m + 1) buf)))
      → AcceptedFileData buf buf_len large flag buf_len (with_tail (m + 1) tagged)
  unfolding file_data_octets metadata_octets segment_metadata_consistent
  tagged_accepted is room offset tail = record {
    consumed = refl;
    sendable = record {
      offset = offset;
      file_data = tail.0;
      record_continuation = omega (arith, first-lt);
      segment_metadata = pointer_to-length (drop 1 buf) m (omega (arith, length-drop {0} 1 buf));
      consistent = ground arith;
      plain = λ other. ground arith;
    };
    layout = rw is (
        append_assoc ((first / 64 * 64 + m) ∷ contents (pointer_to (drop 1 buf) m) m)
          (be_octets octets (get_uint buf (m + 1) octets))
          (contents (pointer_to (drop (m + 1 + octets) buf) (buf_len - (m + 1 + octets)))
            (buf_len - (m + 1 + octets)))
        ∙ ap₂ ◌++◌ (front_octets (omega arith)) tail.1
        ∙ sym (take-add (m + 1) (buf_len - (m + 1)) buf)
        ∙ ap (λ k. take k buf) (omega arith));
  }

  tagged_cases : (flag == 1) ≡ true → Answer
  unfolding file_data_deserialize
  tagged_cases is = elim (dec_le (m + 1) buf_len) [
    | no cut ↦ inl (rw (is, tagged_cut (omega arith)) refl)
    | yes some_room ↦ elim (dec_le (m + 1 + octets) buf_len) [
      | no cut ↦
          inl (rw (is, tagged_read some_room, tail_cut (m + 1) tagged (omega arith)) (ground arith))
      | yes room ↦
          let (read, offset, held, layout) =
            tail_read buf buf_len inside bytes octets (m + 1) tagged (file_size_octets-le large)
              room in
          let moved : (m + 1 == 0) ≡ false = ground arith in
          inr (
            rw (is, tagged_read some_room, read, moved)
              (tagged_accepted is room offset (held, layout)))
    ]
  ]

-- Octets, `buf_len` of which are in the buffer: the File Data decoder answers 0, or it consumes all
-- of them, and stores a payload that can be sent under the same flags and is laid out as exactly
-- these octets.
pub file_data_deserialize_cases :
    (buf : List ℕ) (buf_len large_file_flag segment_metadata_flag : ℕ) (old : FileData)
    → buf_len ≤ length buf
    → All IsByte buf
    → let (n, out) =
        file_data_deserialize (some buf) buf_len large_file_flag segment_metadata_flag (some old) in
      (n ≡ 0) ⊎ AcceptedFileData buf buf_len large_file_flag segment_metadata_flag n (deref old out)
file_data_deserialize_cases buf buf_len large flag old inside bytes =
    elim (bool_cases (flag == 1)) [
      | inl is ↦ tagged_cases buf buf_len large flag old inside bytes is
      | inr plain ↦ plain_cases buf buf_len large flag old inside bytes plain
    ]
