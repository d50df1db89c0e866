-- ===== src/Tlv/Filestore/Response/RoundTrip.antt =====
-- What the Filestore Response codec writes and reads back.
use embedded_cfdp.Base.{
  ℕ, suc, ◌+◌, ◌-◌, ◌*◌, ◌≤◌, ◌<◌, ◌≡◌, refl, ap, ◌∙◌, arith, List, [], ◌∷◌, ◌++◌, append_assoc,
  none, some, Bool, true, deref, length, drop, get_or, bit_and, ◌>>◌,
}
use embedded_cfdp.Base.Nibbles.{pack_nibbles, high_nibble, low_nibble}
use embedded_cfdp.Buffer.{Pointer, contents}
use embedded_cfdp.Buffer.Overlay.{overlay, Wrote-self, Wrote-octet}
use embedded_cfdp.Tlv.{blank_tlv, tlv_deserialize, lv_deserialize}
use embedded_cfdp.Tlv.Lv.{lv_octets}
use embedded_cfdp.Tlv.Lv.Within.{lv-Wrote, stored, contents-stored, lv_read}
use embedded_cfdp.Tlv.Filestore.{
  filestore_action_valid, filestore_action_has_second_filename, Names, no_names,
  filestore_names_deserialize,
}
use embedded_cfdp.Tlv.Filestore.FileNames.{
  AreNames, names_octets, names_size, names-Wrote, SameNames, names_read, names_size_pos,
}
use embedded_cfdp.Tlv.Filestore.Finish.{finish_lem, value_read, action_range}
use embedded_cfdp.Tlv.Filestore.Response.{
  FilestoreResponse, response_with, filestore_response_tlv_serialize,
  filestore_response_tlv_deserialize,
}

abbrev pub response_names : FilestoreResponse → Names
response_names resp = record {
  first = resp.first_filename;
  first_len = resp.first_filename_len;
  second = resp.second_filename;
  second_len = resp.second_filename_len;
}

abbrev pub response_two : FilestoreResponse → Bool
response_two resp = filestore_action_has_second_filename resp.action_code

unfoldable pub response_value_size : FilestoreResponse → ℕ
response_value_size resp =
    1 + names_size (response_two resp) (response_names resp) + (resp.message_len + 1)

-- A response with a defined action, the names that the action takes, and a value that fits.
pub record IsResponse (resp : FilestoreResponse) : Type 0 where
  pub action_code : filestore_action_valid resp.action_code ≡ true
  pub status_code : resp.status_code < 16
  pub names : AreNames (response_two resp) (response_names resp)
  pub message : resp.message_len ≤ length (deref [] resp.message)
  pub fits : response_value_size resp ≤ 255

unfoldable pub response_octets : FilestoreResponse → List ℕ
response_octets resp =
    1
    ∷ response_value_size resp
    ∷ (resp.action_code * 16 + resp.status_code)
    ∷ (names_octets (response_two resp) (response_names resp)
        ++ lv_octets resp.message resp.message_len)

serialize_lem :
    (resp : FilestoreResponse) (buf : List ℕ) (buf_len : ℕ)
    → IsResponse resp
    → response_value_size resp + 2 ≤ buf_len
    → buf_len ≤ length buf
    → filestore_response_tlv_serialize (some resp) (some buf) buf_len
      ≡ (response_value_size resp + 2, some (overlay (response_octets resp) buf))
unfolding filestore_response_tlv_serialize response_octets response_value_size
serialize_lem resp [] buf_len ok room inside = absurd (omega arith)
serialize_lem resp (a ∷ []) buf_len ok room inside = absurd (omega arith)
serialize_lem resp (a ∷ b ∷ buf) buf_len ok room inside =
    let codes =
      pack_nibbles resp.action_code resp.status_code (action_range resp.action_code ok.action_code)
        ok.status_code in
    let action =
      Wrote-octet (resp.action_code * 16 + resp.status_code)
        (Wrote-self (a ∷ b ∷ buf) 2 (omega arith)) (omega arith) in
    let (n, named) =
      names-Wrote (response_two resp) (response_names resp) buf_len action ok.names (omega arith)
        inside in
    let (m, whole) =
      lv-Wrote resp.message resp.message_len buf_len named ok.message (omega arith) inside in
    let finished = finish_lem 1 (response_value_size resp) whole (omega arith) ok.fits in
    rw (codes, ok.action_code, n, m, finished)
      (ground (arith, names_size_pos (response_two resp) (response_names resp)))

pub accepts :
    (buf value : List ℕ) (buf_len k action status s m : ℕ) (names : Names) (message : Pointer)
    (old : FilestoreResponse)
    → tlv_deserialize (some buf) buf_len (some blank_tlv)
      ≡ (k + 2, some (record { type = 1; length = k; value = some value }))
    → bit_and (get_or value 0 0 >> 4) 0xF ≡ action
    → bit_and (get_or value 0 0) 0xF ≡ status
    → filestore_action_valid action ≡ true
    → filestore_names_deserialize
        (drop 1 value)
        (k - 1)
        (filestore_action_has_second_filename action)
        no_names
      ≡ (s, names)
    → lv_deserialize (some (drop (1 + s) value)) (k - 1 - s) (some none) (some 0)
      ≡ (m + 1, some message, some m)
    → 1 ≤ s
    → k ≡ 1 + s + (m + 1)
    → filestore_response_tlv_deserialize (some buf) buf_len (some old)
      ≡ (k + 2, some (response_with action status names message m))
unfolding filestore_response_tlv_deserialize
accepts buf value buf_len k action status s m names message old e f g valid n l pos size =
    rw (e, f, g, valid, n, l) (ground arith)

pub deserialize_lem :
    (resp old : FilestoreResponse) (buf rest : List ℕ) (buf_len : ℕ)
    → IsResponse resp
    → buf ≡ response_octets resp ++ rest
    → response_value_size resp + 2 ≤ buf_len
    → (names : Names) × (message : Pointer) × (filestore_response_tlv_deserialize
          (some buf)
          buf_len
          (some old)
        ≡ (
          response_value_size resp + 2,
          some (response_with resp.action_code resp.status_code names message resp.message_len),
        ))
      × SameNames names (response_names resp)
      × (contents message resp.message_len ≡ contents resp.message resp.message_len)
unfolding response_octets response_value_size
deserialize_lem resp old buf rest buf_len ok e room =
    let s = names_size (response_two resp) (response_names resp) in
    let named = names_octets (response_two resp) (response_names resp) in
    let message = lv_octets resp.message resp.message_len in
    let tail = (named ++ message) ++ rest in
    let value = (resp.action_code * 16 + resp.status_code) ∷ tail in
    let range = action_range resp.action_code ok.action_code in
    let k = response_value_size resp in
    let pos = names_size_pos (response_two resp) (response_names resp) in
    let (got, read, same, behind) =
      names_read (response_two resp) (response_names resp) tail (message ++ rest) (k - 1) ok.names
        (append_assoc named message rest) (omega arith) in
    let next : 1 + s ≡ suc s = omega arith in
    let reached : drop (1 + s) value ≡ message ++ rest = ap (λ n. drop n value) next ∙ behind in
    (
      got,
      stored resp.message resp.message_len rest,
      accepts buf value buf_len k resp.action_code resp.status_code s resp.message_len got
          (stored resp.message resp.message_len rest) old
          (value_read buf buf_len 1 k value e (omega arith) room)
          (high_nibble resp.action_code resp.status_code range ok.status_code)
          (low_nibble resp.action_code resp.status_code ok.status_code) ok.action_code read
          (lv_read (drop (1 + s) value) rest (k - 1 - s) resp.message none resp.message_len 0
            reached (omega arith))
          pos (omega arith),
      same,
      contents-stored resp.message resp.message_len rest ok.message,
    )

-- A response that can be sent, written into a buffer with room for it, is read back from its
-- TLV: all octets are consumed, and the action, the status, the names that the action takes and
-- the message come back.
pub filestore_response_round_trip :
    (resp old : FilestoreResponse) (buf : List ℕ) (buf_len : ℕ)
    → IsResponse resp
    → response_value_size resp + 2 ≤ buf_len
    → buf_len ≤ length buf
    → let (n, out) = filestore_response_tlv_serialize (some resp) (some buf) buf_len in
      (names : Names) × (message : Pointer) × (filestore_response_tlv_deserialize out n (some old)
        ≡ (
          n,
          some (response_with resp.action_code resp.status_code names message resp.message_len),
        ))
      × SameNames names (response_names resp)
      × (contents message resp.message_len ≡ contents resp.message resp.message_len)
      × (out ≡ some (overlay (response_octets resp) buf))
unfolding overlay
filestore_response_round_trip resp old buf buf_len ok room inside =
    rw (serialize_lem resp buf buf_len ok room inside) (
      let (names, message, e, same, said) =
        deserialize_lem resp old _ _ (response_value_size resp + 2) ok refl (omega arith) in
      (names, message, e, same, said, refl))
