-- ===== src/Directive/Metadata/Accepted.antt =====
-- What `cfdp_metadata_deserialize` accepts.
use embedded_cfdp.Base.{
  ℕ, ◌+◌, ◌-◌, ◌^◌, ◌≤◌, ◌<◌, ◌≡◌, ◌⊎◌, inl, inr, bool_cases, refl, ap, ap₂, sym, ◌∙◌, arith, List,
  ◌++◌, none, some, false, ltb, ◌==◌, ◌!=◌, ◌||◌, if◌then◌else◌, deref, length, length-drop, take,
  take-add, drop, drop-drop, drop-All, get_or, All, IsByte, bit_and, u16, ◌>>◌,
}
use embedded_cfdp.Base.Bits.{bit_and-mask}
use embedded_cfdp.Buffer.{Pointer, contents, get_uint}
use embedded_cfdp.Buffer.Overlay.{pointer_to, contents-pointer_to, pointer_to-length}
use embedded_cfdp.Common.{file_size_octets, file_size_octets-le}
use embedded_cfdp.Common.DirectiveCode
use embedded_cfdp.Endian.Octets.{be_octets}
use embedded_cfdp.Endian.Read.{read_uint-lt, be_octets-read_uint}
use embedded_cfdp.Tlv.{lv_deserialize}
use embedded_cfdp.Tlv.Lv.{lv_octets}
use embedded_cfdp.Tlv.Lv.Accepted.{AcceptedLv, lv_deserialize_cases}
use embedded_cfdp.Directive.Metadata.{Metadata, metadata_deserialize}
use embedded_cfdp.Directive.Metadata.Layout.{IsMetadata}

-- A structure that can be sent again, and whose file size, names and options are laid out as
-- the octets behind the flags.
pub record AcceptedMetadata (buf : List ℕ) (buf_len large n : ℕ) (md : Metadata) : Type 0 where
  pub consumed : n ≡ buf_len
  pub sendable : IsMetadata md large
  pub layout :
      be_octets (file_size_octets large) md.file_size
        ++ (lv_octets md.source_filename md.source_filename_len
            ++ (lv_octets md.destination_filename md.destination_filename_len
                ++ contents md.options md.options_len))
      ≡ take (buf_len - 2) (drop 2 buf)

-- A front of octets joins those that stand behind it.
join :
    (p k n : ℕ) (buf front rest : List ℕ)
    → front ≡ take k (drop p buf)
    → rest ≡ take (n - (p + k)) (drop (p + k) buf)
    → p + k ≤ n
    → front ++ rest ≡ take (n - p) (drop p buf)
join p k n buf front rest e f h =
    let whole : k + (n - (p + k)) ≡ n - p = omega arith in
    ap₂ ◌++◌ e (f ∙ ap (take (n - (p + k))) (sym (drop-drop k p (p + k) buf refl)))
    ∙ sym (take-add k (n - (p + k)) (drop p buf))
    ∙ ap (λ j. take j (drop p buf)) whole

module _ (buf : List ℕ) (buf_len large : ℕ) (inside : buf_len ≤ length buf) (bytes : All IsByte buf)
    (small : buf_len < 2 ^ 16) where
  abbrev fs : ℕ
  fs = file_size_octets large

  abbrev options : ℕ → Pointer
  options pos = if ltb pos buf_len then some (drop pos buf) else none

  options_lem :
      (pos : ℕ)
      → pos ≤ buf_len
      → (options pos ≡ pointer_to (drop pos buf) (buf_len - pos))
        × (u16 (buf_len - pos) ≡ buf_len - pos)
  options_lem pos h = (ground arith, omega arith)

  abbrev decoded : Pointer → ℕ → Pointer → ℕ → ℕ → Metadata
  decoded source source_len destination destination_len pos =
      let flags = get_or buf 1 0 in
      record {
        closure_requested = bit_and (flags >> 6) 0x1 != 0;
        checksum_type = bit_and flags 0xF;
        file_size = get_uint buf 2 fs;
        source_filename = source;
        source_filename_len = source_len;
        destination_filename = destination;
        destination_filename_len = destination_len;
        options = options pos;
        options_len = u16 (buf_len - pos);
      }

  accepted :
      (n m : ℕ) (source : Pointer) (source_len : ℕ) (destination : Pointer) (destination_len : ℕ)
      → fs + 2 ≤ buf_len
      → AcceptedLv (drop (2 + fs) buf) (buf_len - (2 + fs)) n source source_len
      → AcceptedLv (drop (2 + fs + n) buf) (buf_len - (2 + fs + n)) m destination destination_len
      → AcceptedMetadata buf buf_len large buf_len
          (decoded source source_len destination destination_len (2 + fs + n + m))
  accepted n m source source_len destination destination_len room first second =
      let pos = 2 + fs + n + m in
      let left = buf_len - pos in
      let reached : pos ≤ buf_len = omega (arith, first.inside, second.inside) in
      let (pointer, count) = options_lem pos reached in
      let have : fs ≤ length (drop 2 buf) = omega (arith, length-drop {0} 2 buf) in
      let octets = drop-All IsByte 2 buf bytes in
      record {
        consumed = refl;
        sendable = record {
          checksum_type = omega (arith, bit_and-mask 4 (get_or buf 1 0));
          file_size = read_uint-lt (drop 2 buf) fs have (file_size_octets-le large) octets;
          source_filename = first.held;
          destination_filename = second.held;
          options =
              rw (pointer, count)
                (pointer_to-length (drop pos buf) left (omega (arith, length-drop {0} pos buf)));
          options_len = omega (arith, count);
        };
        layout =
            join 2 fs buf_len buf _ _
              (be_octets-read_uint (drop 2 buf) fs have (file_size_octets-le large) octets)
              (join (2 + fs) n buf_len buf _ _ first.layout
                (join (2 + fs + n) m buf_len buf _ _ second.layout
                  (rw (pointer, count) (contents-pointer_to (drop pos buf) left)) reached)
                (omega (arith, first.inside)))
              (omega arith);
      }

  abbrev Answer : Metadata → Type 0
  Answer old =
      let (n, out) = metadata_deserialize (some buf) buf_len large (some old) in
      (n ≡ 0) ⊎ AcceptedMetadata buf buf_len large n (deref old out)

  behind : (pos : ℕ) → buf_len - pos ≤ length (drop pos buf)
  behind pos = omega (arith, length-drop {0} pos buf)

  second_name :
      (old : Metadata) (n : ℕ) (source : Pointer) (source_len : ℕ)
      → (ltb buf_len (fs + 2) || get_or buf 0 0 != DirectiveCode.metadata) ≡ false
      → lv_deserialize
          (some (drop (2 + fs) buf))
          (buf_len - (2 + fs))
          (some old.source_filename)
          (some old.source_filename_len)
        ≡ (n, some source, some source_len)
      → AcceptedLv (drop (2 + fs) buf) (buf_len - (2 + fs)) n source source_len
      → Answer old
  unfolding metadata_deserialize
  second_name old n source source_len passed e first =
      let room : fs + 2 ≤ buf_len = ground arith in
      let some_octets : (n == 0) ≡ false = ground (arith, first.size) in
      elim (lv_deserialize_cases (drop (2 + fs + n) buf) (buf_len - (2 + fs + n))
        old.destination_filename old.destination_filename_len (behind (2 + fs + n))) [
          | inl refused ↦ inl (rw (passed, e, some_octets, refused) refl)
          | inr named ↦
              let (m, destination, destination_len, f, second) = named in
              let more_octets : (m == 0) ≡ false = ground (arith, second.size) in
              inr (
                rw (passed, e, some_octets, f, more_octets)
                  (accepted n m source source_len destination destination_len room first second))
        ]

  cases : (old : Metadata) → Answer old
  unfolding metadata_deserialize
  cases old = elim (bool_cases (ltb buf_len (fs + 2) || get_or buf 0 0 != DirectiveCode.metadata)) [
    | inl refused ↦ inl (rw refused refl)
    | inr passed ↦
        elim (lv_deserialize_cases (drop (2 + fs) buf) (buf_len - (2 + fs)) old.source_filename
          old.source_filename_len (behind (2 + fs))) [
            | inl refused ↦ inl (rw (passed, refused) refl)
            | inr named ↦
                let (n, source, source_len, e, first) = named in
                second_name old n source source_len passed e first
          ]
  ]

-- Octets, `buf_len` of which are in the buffer, fewer than 2 ^ 16: the Metadata decoder answers
-- 0, or it consumes all of them, and what it stores can be sent again: its pointers hold the
-- octets that it announces, and the file size, the names and the options are laid out as
-- exactly the octets behind the flags.
pub metadata_deserialize_cases :
    (buf : List ℕ) (buf_len large_file_flag : ℕ) (old : Metadata)
    → buf_len ≤ length buf
    → All IsByte buf
    → buf_len < 2 ^ 16
    → let (n, out) = metadata_deserialize (some buf) buf_len large_file_flag (some old) in
      (n ≡ 0) ⊎ AcceptedMetadata buf buf_len large_file_flag n (deref old out)
metadata_deserialize_cases buf buf_len large_file_flag old inside bytes small =
    cases buf buf_len large_file_flag inside bytes small old
