-- ===== src/Tlv/Filestore/Request/Accepted.antt =====
-- What `cfdp_filestore_request_tlv_deserialize` accepts, and what it refuses.
use embedded_cfdp.Base.{
  ◌≢◌, take-drop, drop, ◌++◌, ℕ, ◌+◌, ◌-◌, ◌≤◌, ◌<◌, ◌≡◌, ◌⊎◌, inl, inr, refl, ap, sym, ◌∙◌, arith,
  List, ◌∷◌, some, deref, length, get_or, All, IsByte, ◌>>◌,
}
use embedded_cfdp.Tlv.Filestore.{
  no_names, filestore_action_has_second_filename, filestore_names_deserialize,
}
use embedded_cfdp.Tlv.Filestore.FileNames.{names_read, names_size_pos, names_octets, names_size}
use embedded_cfdp.Base.Bits.{bit_and-mask}
use embedded_cfdp.Tlv.Filestore.Actions.{takes_two, wire-valid}
use embedded_cfdp.Tlv.Filestore.Finish.{action_range, value_read}
use embedded_cfdp.Tlv.Filestore.Request.{FilestoreRequest, filestore_request_tlv_deserialize}
use embedded_cfdp.Tlv.Filestore.Request.RoundTrip.{names_of, IsRequest, accepts}
use embedded_cfdp.Tlv.Filestore.Request.Answers.{AcceptedRequest, answers}

-- Octets of a request are not refused.
accepts_all :
    (buf : List ℕ) (buf_len n : ℕ) (old req : FilestoreRequest)
    → AcceptedRequest buf buf_len n req
    → (filestore_request_tlv_deserialize (some buf) buf_len (some old)).0 ≢ 0
accepts_all buf buf_len n old req ok =
    let (valid, two) = wire-valid ok.action req.action_code ok.action_code in
    let octet = get_or buf 2 0 in
    let s = names_size (takes_two ok.action) (names_of req) in
    let k = 1 + s in
    let names = names_octets (takes_two ok.action) (names_of req) ++ drop n buf in
    let whole : buf ≡ 0 ∷ k ∷ octet ∷ names =
      sym (take-drop n buf) ∙ ap (λ r. r ++ drop n buf) (sym ok.layout) in
    let (got, read, _, _) =
      names_read (takes_two ok.action) (names_of req) names (drop n buf) (k - 1) ok.names refl
        (omega arith) in
    let less : k - 1 ≡ s = omega arith in
    let named : filestore_names_deserialize names (k - 1)
          (filestore_action_has_second_filename req.action_code) no_names
        ≡ (k - 1, got) =
      ap (λ t. filestore_names_deserialize names (k - 1) t no_names) two ∙ read ∙ λ i.
      (sym less i, got) in
    let range : req.action_code < 16 = action_range req.action_code valid in
    let e =
      accepts buf (octet ∷ names) buf_len k req.action_code got old
        (value_read buf buf_len 0 k (octet ∷ names) whole (omega arith)
          (omega (arith, ok.size, ok.inside)))
        (omega (arith, bit_and-mask 4 (octet >> 4), ok.high_half, range)) valid named
        (omega (arith, names_size_pos (takes_two ok.action) (names_of req))) in
    λ none_read. omega (arith, none_read, ap (λ r. r.0) e)

-- Octets, buf_len of which are in the buffer: the Filestore Request decoder consumes n octets of
-- the buffer and stores a request that the serialiser can send: a member of the enumeration of
-- actions, which is the high half of the octet behind the TLV header, and two names if it
-- renames, appends or replaces and one if not; the octets consumed are a TLV header, that octet,
-- and those names. Or it answers 0, and then the octets do not begin with any such request.
pub filestore_request_deserialize_cases :
    (buf : List ℕ) (buf_len : ℕ) (old : FilestoreRequest)
    → buf_len ≤ length buf
    → All IsByte buf
    → let (n, out) = filestore_request_tlv_deserialize (some buf) buf_len (some old) in
      ((n ≡ 0) × ¬ ((m : ℕ) × (req : FilestoreRequest) × AcceptedRequest buf buf_len m req))
      ⊎ (IsRequest (deref old out) × AcceptedRequest buf buf_len n (deref old out))
filestore_request_deserialize_cases buf buf_len old inside bytes =
    elim (answers buf buf_len old inside bytes) [
      | inl refused ↦ inl (refused, λ h. accepts_all buf buf_len h.0 old h.1 h.2 refused)
      | inr accepted ↦ inr accepted
    ]
