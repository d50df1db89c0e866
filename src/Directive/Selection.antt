-- ===== src/Directive/Selection.antt =====
-- `cfdp_pdu_directive_code` selects the decoder of a data field.
use native.Mathlib.Decide.{ℕ_discrete}
use embedded_cfdp.Base.{ℕ, ◌≡◌, ◌⊎◌, inl, inr, arith, List, some, true, ◌!=◌, get_or}
use embedded_cfdp.Common.DirectiveCode
use embedded_cfdp.Pdu.FileData.{directive_code}
use embedded_cfdp.Directive.Ack.{Ack, ack_deserialize}
use embedded_cfdp.Directive.Prompt.{prompt_deserialize}
use embedded_cfdp.Directive.KeepAlive.{keep_alive_deserialize}
use embedded_cfdp.Directive.Eof.{Eof, eof_deserialize}
use embedded_cfdp.Directive.Nak.{Nak, nak_deserialize}
use embedded_cfdp.Directive.Metadata.{Metadata, metadata_deserialize}
use embedded_cfdp.Directive.Finished.{Finished, finished_deserialize}

-- What a decoder answers where it takes the directive `code` only.
abbrev pub Selects : ℕ → ℕ → ℕ → Type 0
Selects found n code = (n ≡ 0) ⊎ (found ≡ code)

module _ (buf : List ℕ) (buf_len : ℕ) where
  abbrev first : ℕ
  first = get_or buf 0 0

  refuses-Selects : (n code : ℕ) → ((first != code) ≡ true → n ≡ 0) → Selects first n code
  refuses-Selects n code refuses = elim (ℕ_discrete first code) [
    | yes is ↦ inr is
    | no other ↦ inl (refuses (ground arith))
  ]

  ack-Selects : (ack : Ack) → Selects first (ack_deserialize (some buf) buf_len (some ack)).0 6
  unfolding ack_deserialize
  ack-Selects ack = refuses-Selects _ 6 λ e. rw e (ground arith)

  prompt-Selects :
      (response : ℕ) → Selects first (prompt_deserialize (some buf) buf_len (some response)).0 9
  unfolding prompt_deserialize
  prompt-Selects response = refuses-Selects _ 9 λ e. ground arith

  keep_alive-Selects :
      (flag progress : ℕ)
      → Selects first (keep_alive_deserialize (some buf) buf_len flag (some progress)).0 12
  unfolding keep_alive_deserialize
  keep_alive-Selects flag progress = refuses-Selects _ 12 λ e. ground arith

  eof-Selects :
      (flag : ℕ) (eof : Eof)
      → Selects first (eof_deserialize (some buf) buf_len flag (some eof)).0 4
  unfolding eof_deserialize
  eof-Selects flag eof = refuses-Selects _ 4 λ e. ground arith

  nak-Selects :
      (flag : ℕ) (nak : Nak)
      → Selects first (nak_deserialize (some buf) buf_len flag (some nak)).0 8
  unfolding nak_deserialize
  nak-Selects flag nak = refuses-Selects _ 8 λ e. ground arith

  metadata-Selects :
      (flag : ℕ) (md : Metadata)
      → Selects first (metadata_deserialize (some buf) buf_len flag (some md)).0 7
  unfolding metadata_deserialize
  metadata-Selects flag md = refuses-Selects _ 7 λ e. ground arith

  finished-Selects :
      (fin : Finished) → Selects first (finished_deserialize (some buf) buf_len (some fin)).0 5
  unfolding finished_deserialize
  finished-Selects fin = refuses-Selects _ 5 λ e. ground arith

  code_read :
      (code old : ℕ)
      → directive_code (some buf) buf_len (some old) ≡ (true, some code)
      → first ≡ code
  unfolding directive_code
  code_read code old e = ground arith

-- Where `cfdp_pdu_directive_code` reads `code`, each decoder of src/cfdp_directive.c answers 0
-- unless `code` is that of its directive, so that no two of them accept the same data field.
pub directive_code-Selects :
    (buf : List ℕ) (buf_len code old : ℕ)
    → directive_code (some buf) buf_len (some old) ≡ (true, some code)
    → (large_file_flag : ℕ) (eof : Eof) (fin : Finished) (ack : Ack) (md : Metadata) (nak : Nak)
      (response progress : ℕ)
    → Selects code
        (eof_deserialize (some buf) buf_len large_file_flag (some eof)).0
        DirectiveCode.eof
      × Selects code (finished_deserialize (some buf) buf_len (some fin)).0 DirectiveCode.finished
      × Selects code (ack_deserialize (some buf) buf_len (some ack)).0 DirectiveCode.ack
      × Selects code
          (metadata_deserialize (some buf) buf_len large_file_flag (some md)).0
          DirectiveCode.metadata
      × Selects code
          (nak_deserialize (some buf) buf_len large_file_flag (some nak)).0
          DirectiveCode.nak
      × Selects code (prompt_deserialize (some buf) buf_len (some response)).0 DirectiveCode.prompt
      × Selects code
          (keep_alive_deserialize (some buf) buf_len large_file_flag (some progress)).0
          DirectiveCode.keep_alive
directive_code-Selects buf buf_len code old e flag eof fin ack md nak response progress =
    rw (← code_read buf buf_len code old e) (
      eof-Selects buf buf_len flag eof,
      finished-Selects buf buf_len fin,
      ack-Selects buf buf_len ack,
      metadata-Selects buf buf_len flag md,
      nak-Selects buf buf_len flag nak,
      prompt-Selects buf buf_len response,
      keep_alive-Selects buf buf_len flag progress,
    )
