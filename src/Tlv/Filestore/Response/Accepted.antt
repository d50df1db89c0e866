-- ===== src/Tlv/Filestore/Response/Accepted.antt =====
-- What `cfdp_filestore_response_tlv_deserialize` accepts, and what it refuses.
use embedded_cfdp.Base.{
  ◌≢◌, take-drop, ℕ, ◌+◌, ◌≤◌, ◌≡◌, ◌⊎◌, inl, inr, ap, sym, ◌∙◌, arith, List, ◌++◌, some, deref,
  length, take, drop, All, IsByte,
}
use embedded_cfdp.Tlv.Filestore.Actions.{wire-valid}
use embedded_cfdp.Tlv.Filestore.Response.{FilestoreResponse, filestore_response_tlv_deserialize}
use embedded_cfdp.Tlv.Filestore.Response.RoundTrip.{
  response_value_size, IsResponse, response_octets, deserialize_lem,
}
use embedded_cfdp.Tlv.Filestore.Response.Answers.{AcceptedResponse, answers}

-- Octets of a response are not refused.
accepts_all :
    (buf : List ℕ) (buf_len n : ℕ) (old resp : FilestoreResponse)
    → AcceptedResponse buf buf_len n resp
    → (filestore_response_tlv_deserialize (some buf) buf_len (some old)).0 ≢ 0
unfolding response_value_size response_octets
accepts_all buf buf_len n old resp ok =
    let (valid, two) = wire-valid ok.action resp.action_code ok.action_code in
    let size : response_value_size resp + 2 ≡ n = rw two (omega (arith, ok.size)) in
    let sendable : IsResponse resp = record {
      action_code = valid;
      status_code = ok.status_code;
      names = rw two ok.names;
      message = ok.message;
      fits = omega (arith, size, ok.fits);
    } in
    let layout : response_octets resp ≡ take n buf = rw two ok.layout in
    let whole : buf ≡ response_octets resp ++ drop n buf =
      sym (take-drop n buf) ∙ ap (λ r. r ++ drop n buf) (sym layout) in
    let (names, message, e, _, _) =
      deserialize_lem resp old buf (drop n buf) buf_len sendable whole
        (omega (arith, size, ok.inside)) in
    λ none_read. omega (arith, none_read, ap (λ r. r.0) e)

-- Octets, buf_len of which are in the buffer: the Filestore Response decoder consumes n octets of
-- the buffer and stores a response that the serialiser can send: a member of the enumeration of
-- actions, two names if it renames, appends or replaces and one if not, a status and a message;
-- the octets consumed are a TLV header, the action and the status in one octet, those names, and
-- the message. Or it answers 0, and then the octets do not begin with any such response.
pub filestore_response_deserialize_cases :
    (buf : List ℕ) (buf_len : ℕ) (old : FilestoreResponse)
    → buf_len ≤ length buf
    → All IsByte buf
    → let (n, out) = filestore_response_tlv_deserialize (some buf) buf_len (some old) in
      ((n ≡ 0) × ¬ ((m : ℕ) × (resp : FilestoreResponse) × AcceptedResponse buf buf_len m resp))
      ⊎ (IsResponse (deref old out) × AcceptedResponse buf buf_len n (deref old out))
filestore_response_deserialize_cases buf buf_len old inside bytes =
    elim (answers buf buf_len old inside bytes) [
      | inl refused ↦ inl (refused, λ h. accepts_all buf buf_len h.0 old h.1 h.2 refused)
      | inr accepted ↦ inr accepted
    ]
