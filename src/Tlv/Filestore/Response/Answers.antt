-- ===== src/Tlv/Filestore/Response/Answers.antt =====
-- What `cfdp_filestore_response_tlv_deserialize` stores, by its branches.
use native.Mathlib.Decide.{dec_le}
use embedded_cfdp.Base.{
  ℕ, zero, suc, ◌+◌, ◌*◌, ◌-◌, ◌≤◌, ◌<◌, ◌≡◌, ◌⊎◌, ◌||◌, inl, inr, refl, ap, ap₂, sym, ◌∙◌, arith,
  List, [], ◌∷◌, ◌++◌, none, some, Bool, true, not, ◌==◌, ◌!=◌, bool_cases, deref, length,
  length-drop, take, take-add, drop, get_or, All, IsByte, bit_and, ◌>>◌,
}
use embedded_cfdp.Base.Bits.{bit_and-mask}
use embedded_cfdp.Buffer.{Pointer}
use embedded_cfdp.Tlv.{blank_tlv, tlv_deserialize, lv_deserialize}
use embedded_cfdp.Tlv.TlvType
use embedded_cfdp.Tlv.Lv.{lv_octets}
use embedded_cfdp.Tlv.Lv.Accepted.{AcceptedLv, lv_deserialize_cases}
use embedded_cfdp.Tlv.Object.{too_short, tlv_deserialize_lem}
use embedded_cfdp.Tlv.Filestore.{
  Names, no_names, filestore_action_valid, filestore_action_has_second_filename,
  filestore_names_deserialize,
}
use embedded_cfdp.Tlv.Filestore.FileNames.{AreNames, names_octets, names_size, names_size_pos}
use embedded_cfdp.Tlv.Codes.{FilestoreAction, filestore_action_wire}
use embedded_cfdp.Tlv.Filestore.Actions.{takes_two, valid-Action}
use embedded_cfdp.Tlv.Filestore.Finish.{value_read}
use embedded_cfdp.Tlv.Filestore.Accepted.{AcceptedNames, names_cases}
use embedded_cfdp.Tlv.Filestore.Response.{
  FilestoreResponse, response_with, filestore_response_tlv_deserialize,
}
use embedded_cfdp.Tlv.Filestore.Response.RoundTrip.{
  response_value_size, IsResponse, response_names, accepts,
}

-- A response that is read from the first `n` octets: its type, the length of its
-- value, the values of a defined action and of a status, two names for the actions that rename,
-- append and replace, one for the others, and its message.
pub record AcceptedResponse (buf : List ℕ) (buf_len n : ℕ) (resp : FilestoreResponse) : Type 0 where
  pub inside : n ≤ buf_len
  pub action : FilestoreAction
  pub action_code : filestore_action_wire action ≡ resp.action_code
  pub status_code : resp.status_code < 16
  pub names : AreNames (takes_two action) (response_names resp)
  pub message : resp.message_len ≤ length (deref [] resp.message)
  pub size : n ≡ 4 + names_size (takes_two action) (response_names resp) + resp.message_len
  pub fits : n < 258
  pub layout :
      1
        ∷ (1 + names_size (takes_two action) (response_names resp) + (resp.message_len + 1))
        ∷ (resp.action_code * 16 + resp.status_code)
        ∷ (names_octets (takes_two action) (response_names resp)
            ++ lv_octets resp.message resp.message_len)
      ≡ take n buf

abbrev pub Answer : List ℕ → ℕ → FilestoreResponse → Type 0
Answer buf buf_len old =
    let (n, out) = filestore_response_tlv_deserialize (some buf) buf_len (some old) in
    (n ≡ 0) ⊎ (IsResponse (deref old out) × AcceptedResponse buf buf_len n (deref old out))

no_tlv :
    (buf : List ℕ) (buf_len : ℕ) (old : FilestoreResponse)
    → buf_len < get_or buf 1 0 + 2
    → Answer buf buf_len old
unfolding filestore_response_tlv_deserialize
no_tlv buf buf_len old h = inl (rw (too_short buf buf_len blank_tlv h) refl)

no_value :
    (type : ℕ) (body : List ℕ) (buf_len : ℕ) (old : FilestoreResponse)
    → 2 ≤ buf_len
    → Answer (type ∷ 0 ∷ body) buf_len old
unfolding filestore_response_tlv_deserialize
no_value type body buf_len old h =
    inl (
      rw (tlv_deserialize_lem (type ∷ 0 ∷ body) buf_len type 0 body blank_tlv refl h)
        (ground arith))

module _ (type k octet : ℕ) (rest : List ℕ) (buf_len : ℕ) (old : FilestoreResponse)
    (fits : suc k + 2 ≤ buf_len) where
  abbrev buf : List ℕ
  buf = type ∷ suc k ∷ octet ∷ rest

  abbrev action : ℕ
  action = bit_and (octet >> 4) 0xF

  abbrev status : ℕ
  status = bit_and octet 0xF

  abbrev two : Bool
  two = filestore_action_has_second_filename action

  abbrev read : ℕ × Names
  read = filestore_names_deserialize rest (suc k - 1) two no_names

  -- The octets of the message.
  abbrev tail : List ℕ
  tail = drop (1 + read.0) (octet ∷ rest)

  e :
      tlv_deserialize (some buf) buf_len (some blank_tlv)
      ≡ (suc k + 2, some (record { type = type; length = suc k; value = some (octet ∷ rest) }))
  e = value_read buf buf_len type (suc k) (octet ∷ rest) refl (omega arith) fits

  other :
      (type != TlvType.filestore_response || not (filestore_action_valid action)) ≡ true
      → Answer buf buf_len old
  unfolding filestore_response_tlv_deserialize
  other h = inl (rw e (ground arith))

  nameless : read.0 ≡ 0 → Answer buf buf_len old
  unfolding filestore_response_tlv_deserialize
  nameless h = inl (rw e (ground arith))

  ragged :
      let (n, message, message_len) =
        lv_deserialize (some tail) (suc k - 1 - read.0) (some none) (some 0) in
      (n == 0 || read.0 + n + 1 != suc k) ≡ true → Answer buf buf_len old
  unfolding filestore_response_tlv_deserialize
  ragged h = inl (rw e (ground arith))

  codes : octet < 256 → (octet ≡ action * 16 + status) × (status < 16)
  codes h = (
    omega (arith, bit_and-mask 4 (octet >> 4), bit_and-mask 4 octet),
    omega (arith, bit_and-mask 4 octet),
  )

  whole :
      (n message_len : ℕ) (message : Pointer)
      → buf_len ≤ length buf
      → suc k < 256
      → octet < 256
      → type ≡ TlvType.filestore_response
      → filestore_action_valid action ≡ true
      → 1 ≤ read.0
      → read.0 + n + 1 ≡ suc k
      → AcceptedNames two rest (suc k - 1) read.0 read.1
      → lv_deserialize (some tail) (suc k - 1 - read.0) (some none) (some 0)
        ≡ (n, some message, some message_len)
      → AcceptedLv tail (suc k - 1 - read.0) n message message_len
      → Answer buf buf_len old
  unfolding response_value_size
  whole n message_len message inside octets octet_bound response valid pos full names h lv =
      let known = valid-Action action valid in
      let run : filestore_response_tlv_deserialize (some buf) buf_len (some old)
          ≡ (suc k + 2, some (response_with action status read.1 message message_len)) =
        accepts buf (octet ∷ rest) buf_len (suc k) action status read.0 message_len read.1 message
          old
          (e ∙ λ i. (
            suc k + 2,
            some (record { type = response i; length = suc k; value = some (octet ∷ rest) }),
          ))
          refl refl valid refl (h ∙ λ i. (lv.size i, some message, some message_len)) pos
          (omega (arith, full, lv.size)) in
      let value : 1 + names_size two read.1 + (message_len + 1) ≡ suc k =
        omega (arith, full, lv.size, names.size) in
      let laid : suc k + 2 ≡ suc (suc (suc (read.0 + n))) = omega (arith, full) in
      let next : 1 + read.0 ≡ suc read.0 = omega arith in
      let behind : tail ≡ drop read.0 rest = ap (λ j. drop j (octet ∷ rest)) next in
      let parts : names_octets two read.1 ++ lv_octets message message_len
          ≡ take (read.0 + n) rest =
        ap₂ (λ a b. a ++ b) names.layout (lv.layout ∙ ap (take n) behind)
        ∙ sym (take-add read.0 n rest) in
      let sendable : IsResponse (response_with action status read.1 message message_len) = record {
        action_code = valid;
        status_code = (codes octet_bound).1;
        names = names.held;
        message = lv.held;
        fits = omega (arith, value);
      } in
      let accepted : AcceptedResponse buf buf_len (suc k + 2)
          (response_with action status read.1 message message_len) =
        record {
          inside = fits;
          action = known.action;
          action_code = known.wire;
          status_code = (codes octet_bound).1;
          names = rw (← known.names) names.held;
          message = lv.held;
          size = rw (← known.names) (omega (arith, value));
          fits = omega arith;
          layout = rw (← known.names) (
              (λ i. sym response i ∷ value i ∷ sym (codes octet_bound).0 i ∷ parts i)
              ∙ ap (λ n. take n buf) (sym laid));
        } in
      inr (rw run (sendable, accepted))

  some_value : buf_len ≤ length buf → suc k < 256 → octet < 256 → Answer buf buf_len old
  some_value inside octets octet_bound =
      elim (bool_cases
        (type != TlvType.filestore_response || not (filestore_action_valid action))) [
          | inl wrong ↦ other wrong
          | inr right ↦ elim (names_cases two rest (suc k - 1) (omega arith)) [
            | inl nothing ↦ nameless nothing
            | inr names ↦
                elim (lv_deserialize_cases tail (suc k - 1 - read.0) none 0
                  (omega (arith, names.inside, length-drop {0} (1 + read.0) (octet ∷ rest)))) [
                    | inl nothing ↦ ragged (rw nothing refl)
                    | inr (n, message, message_len, h, lv) ↦
                        elim (bool_cases (n == 0 || read.0 + n + 1 != suc k)) [
                          | inl wrong ↦ ragged (rw h wrong)
                          | inr full ↦
                              whole n message_len message inside octets octet_bound
                                (ground (arith, right)) (ground (arith, right))
                                (omega (arith, names.size, names_size_pos two read.1))
                                (ground (arith, full)) names h lv
                        ]
                  ]
          ]
        ]

-- The decoder answers 0, or what it stores is accepted.
pub answers :
    (buf : List ℕ) (buf_len : ℕ) (old : FilestoreResponse)
    → buf_len ≤ length buf
    → All IsByte buf
    → Answer buf buf_len old
answers [] buf_len old inside bytes = no_tlv [] buf_len old (omega arith)
answers (a ∷ []) buf_len old inside bytes = no_tlv (a ∷ []) buf_len old (omega arith)
answers (type ∷ zero ∷ body) buf_len old inside bytes = elim (dec_le 2 buf_len) [
  | yes fits ↦ no_value type body buf_len old fits
  | no cut ↦ no_tlv (type ∷ zero ∷ body) buf_len old (omega arith)
]
answers (type ∷ suc k ∷ []) buf_len old inside bytes =
    no_tlv (type ∷ suc k ∷ []) buf_len old (omega arith)
answers (type ∷ suc k ∷ octet ∷ rest) buf_len old inside bytes = elim (dec_le (suc k + 2) buf_len) [
  | yes fits ↦
      some_value type k octet rest buf_len old fits inside (omega (arith, bytes))
        (omega (arith, bytes))
  | no cut ↦ no_tlv (type ∷ suc k ∷ octet ∷ rest) buf_len old (omega arith)
]
