-- ===== src/Tlv/Filestore/Request/Answers.antt =====
-- What `cfdp_filestore_request_tlv_deserialize` stores, by its branches.
use native.Mathlib.Decide.{dec_le}
use embedded_cfdp.Base.{
  ◌/◌, ℕ, zero, suc, ◌+◌, ◌-◌, ◌≤◌, ◌<◌, ◌≡◌, ◌⊎◌, ◌||◌, inl, inr, refl, ap, sym, ◌∙◌, arith, List,
  [], ◌∷◌, some, Bool, true, not, ◌==◌, ◌!=◌, bool_cases, deref, length, take, get_or, All, IsByte,
  bit_and, ◌>>◌,
}
use embedded_cfdp.Tlv.{blank_tlv, tlv_deserialize}
use embedded_cfdp.Tlv.TlvType
use embedded_cfdp.Tlv.Object.{too_short, tlv_deserialize_lem}
use embedded_cfdp.Tlv.Filestore.{
  Names, no_names, filestore_action_valid, filestore_action_has_second_filename,
  filestore_names_deserialize,
}
use embedded_cfdp.Tlv.Filestore.FileNames.{AreNames, names_octets, names_size}
use embedded_cfdp.Tlv.Codes.{FilestoreAction, filestore_action_wire}
use embedded_cfdp.Base.Bits.{bit_and-mask}
use embedded_cfdp.Tlv.Filestore.Actions.{takes_two, valid-Action}
use embedded_cfdp.Tlv.Filestore.Finish.{value_read}
use embedded_cfdp.Tlv.Filestore.Accepted.{AcceptedNames, names_cases}
use embedded_cfdp.Tlv.Filestore.Request.{
  FilestoreRequest, request_with, filestore_request_tlv_deserialize,
}
use embedded_cfdp.Tlv.Filestore.Request.RoundTrip.{names_of, value_size, IsRequest, accepts}

-- A request that is read from the first `n` octets: its type, the length of its
-- value, an octet whose high half is the value of a defined action, and two names for the actions
-- that rename, append and replace, one for the others.
pub record AcceptedRequest (buf : List ℕ) (buf_len n : ℕ) (req : FilestoreRequest) : Type 0 where
  pub inside : n ≤ buf_len
  pub action : FilestoreAction
  pub action_code : filestore_action_wire action ≡ req.action_code
  pub high_half : get_or buf 2 0 / 16 ≡ req.action_code
  pub names : AreNames (takes_two action) (names_of req)
  pub size : n ≡ 3 + names_size (takes_two action) (names_of req)
  pub fits : n < 258
  pub layout :
      0
        ∷ (1 + names_size (takes_two action) (names_of req))
        ∷ get_or buf 2 0
        ∷ names_octets (takes_two action) (names_of req)
      ≡ take n buf

abbrev pub Answer : List ℕ → ℕ → FilestoreRequest → Type 0
Answer buf buf_len old =
    let (n, out) = filestore_request_tlv_deserialize (some buf) buf_len (some old) in
    (n ≡ 0) ⊎ (IsRequest (deref old out) × AcceptedRequest buf buf_len n (deref old out))

no_tlv :
    (buf : List ℕ) (buf_len : ℕ) (old : FilestoreRequest)
    → buf_len < get_or buf 1 0 + 2
    → Answer buf buf_len old
unfolding filestore_request_tlv_deserialize
no_tlv buf buf_len old h = inl (rw (too_short buf buf_len blank_tlv h) refl)

no_value :
    (type : ℕ) (body : List ℕ) (buf_len : ℕ) (old : FilestoreRequest)
    → 2 ≤ buf_len
    → Answer (type ∷ 0 ∷ body) buf_len old
unfolding filestore_request_tlv_deserialize
no_value type body buf_len old h =
    inl (
      rw (tlv_deserialize_lem (type ∷ 0 ∷ body) buf_len type 0 body blank_tlv refl h)
        (ground arith))

module _ (type k octet : ℕ) (rest : List ℕ) (buf_len : ℕ) (old : FilestoreRequest) where
  abbrev buf : List ℕ
  buf = type ∷ suc k ∷ octet ∷ rest

  abbrev action : ℕ
  action = bit_and (octet >> 4) 0xF

  abbrev two : Bool
  two = filestore_action_has_second_filename action

  abbrev read : ℕ × Names
  read = filestore_names_deserialize rest (suc k - 1) two no_names

  e :
      suc k + 2 ≤ buf_len
      → tlv_deserialize (some buf) buf_len (some blank_tlv)
        ≡ (suc k + 2, some (record { type = type; length = suc k; value = some (octet ∷ rest) }))
  e fits = value_read buf buf_len type (suc k) (octet ∷ rest) refl (omega arith) fits

  other :
      suc k + 2 ≤ buf_len
      → (type != TlvType.filestore_request || not (filestore_action_valid action)) ≡ true
      → Answer buf buf_len old
  unfolding filestore_request_tlv_deserialize
  other fits h = inl (rw (e fits) (ground arith))

  ragged :
      suc k + 2 ≤ buf_len → (read.0 == 0 || read.0 + 1 != suc k) ≡ true → Answer buf buf_len old
  unfolding filestore_request_tlv_deserialize
  ragged fits h = inl (rw (e fits) (ground arith))

  whole :
      suc k + 2 ≤ buf_len
      → buf_len ≤ length buf
      → suc k < 256
      → octet < 256
      → type ≡ TlvType.filestore_request
      → filestore_action_valid action ≡ true
      → read.0 + 1 ≡ suc k
      → 1 ≤ read.0
      → AcceptedNames two rest (suc k - 1) read.0 read.1
      → Answer buf buf_len old
  unfolding value_size
  whole fits inside octets octet_bound request valid size some_octets names =
      let known = valid-Action action valid in
      let count : read.0 ≡ suc k - 1 = omega (arith, size) in
      let value : 1 + names_size two read.1 ≡ suc k = omega (arith, size, names.size) in
      let laid : suc k + 2 ≡ suc (suc (suc read.0)) = omega (arith, size) in
      let run : filestore_request_tlv_deserialize (some buf) buf_len (some old)
          ≡ (suc k + 2, some (request_with action read.1)) =
        accepts buf (octet ∷ rest) buf_len (suc k) action read.1 old
          (e fits ∙ λ i. (
            suc k + 2,
            some (record { type = request i; length = suc k; value = some (octet ∷ rest) }),
          ))
          refl valid (λ i. (count i, read.1)) (omega arith) in
      let sendable : IsRequest (request_with action read.1) = record {
        action_code = valid;
        names = names.held;
        fits = omega (arith, names.size);
      } in
      let accepted : AcceptedRequest buf buf_len (suc k + 2) (request_with action read.1) = record {
        inside = fits;
        action = known.action;
        action_code = known.wire;
        high_half = omega (arith, bit_and-mask 4 (octet >> 4));
        names = rw (← known.names) names.held;
        size = rw (← known.names) (omega (arith, names.size));
        fits = omega arith;
        layout = rw (← known.names) (
            (λ i. sym request i ∷ value i ∷ octet ∷ names.layout i)
            ∙ ap (λ n. take n buf) (sym laid));
      } in
      inr (rw run (sendable, accepted))

  some_value :
      suc k + 2 ≤ buf_len
      → buf_len ≤ length buf
      → suc k < 256
      → octet < 256
      → Answer buf buf_len old
  some_value fits inside octets octet_bound =
      elim (bool_cases (type != TlvType.filestore_request || not (filestore_action_valid action))) [
        | inl wrong ↦ other fits wrong
        | inr right ↦ elim (bool_cases (read.0 == 0 || read.0 + 1 != suc k)) [
          | inl wrong ↦ ragged fits wrong
          | inr full ↦ elim (names_cases two rest (suc k - 1) (omega arith)) [
            | inl nothing ↦ ragged fits (ground (arith, nothing))
            | inr names ↦
                whole fits inside octets octet_bound (ground (arith, right)) (ground (arith, right))
                  (ground (arith, full)) (ground (arith, full)) names
          ]
        ]
      ]

-- The decoder answers 0, or what it stores is accepted.
pub answers :
    (buf : List ℕ) (buf_len : ℕ) (old : FilestoreRequest)
    → buf_len ≤ length buf
    → All IsByte buf
    → Answer buf buf_len old
answers [] buf_len old inside bytes = no_tlv [] buf_len old (omega arith)
answers (a ∷ []) buf_len old inside bytes = no_tlv (a ∷ []) buf_len old (omega arith)
answers (type ∷ zero ∷ body) buf_len old inside bytes = elim (dec_le 2 buf_len) [
  | yes fits ↦ no_value type body buf_len old fits
  | no cut ↦ no_tlv (type ∷ zero ∷ body) buf_len old (omega arith)
]
answers (type ∷ suc k ∷ []) buf_len old inside bytes =
    no_tlv (type ∷ suc k ∷ []) buf_len old (omega arith)
answers (type ∷ suc k ∷ octet ∷ rest) buf_len old inside bytes = elim (dec_le (suc k + 2) buf_len) [
  | yes fits ↦
      some_value type k octet rest buf_len old fits inside (omega (arith, bytes))
        (omega (arith, bytes))
  | no cut ↦ no_tlv (type ∷ suc k ∷ octet ∷ rest) buf_len old (omega arith)
]
