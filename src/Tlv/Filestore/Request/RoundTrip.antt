-- ===== src/Tlv/Filestore/Request/RoundTrip.antt =====
-- What the Filestore Request codec writes and reads back.
use embedded_cfdp.Base.{
  ℕ, ◌+◌, ◌-◌, ◌*◌, ◌≤◌, ◌<◌, ◌≡◌, refl, sym, ◌∙◌, arith, List, [], ◌∷◌, ◌++◌, some, Bool, true,
  length, drop, get_or, u8, bit_and, ◌<<◌, ◌>>◌,
}
use embedded_cfdp.Base.Bits.{bit_and-mask}
use embedded_cfdp.Buffer.Overlay.{overlay, Wrote-self, Wrote-octet}
use embedded_cfdp.Tlv.{blank_tlv, tlv_deserialize}
use embedded_cfdp.Tlv.Filestore.{
  filestore_action_valid, filestore_action_has_second_filename, Names, no_names,
  filestore_names_deserialize,
}
use embedded_cfdp.Tlv.Filestore.FileNames.{
  AreNames, names_octets, names_size, names-Wrote, SameNames, names_read, names_size_pos,
}
use embedded_cfdp.Tlv.Filestore.Finish.{finish_lem, value_read, action_range}
use embedded_cfdp.Tlv.Filestore.Request.{
  FilestoreRequest, request_with, filestore_request_tlv_serialize,
  filestore_request_tlv_deserialize,
}

abbrev pub names_of : FilestoreRequest → Names
names_of req = record {
  first = req.first_filename;
  first_len = req.first_filename_len;
  second = req.second_filename;
  second_len = req.second_filename_len;
}

abbrev pub two_names : FilestoreRequest → Bool
two_names req = filestore_action_has_second_filename req.action_code

unfoldable pub value_size : FilestoreRequest → ℕ
value_size req = 1 + names_size (two_names req) (names_of req)

-- A request with a defined action, the names that the action takes, and a value that fits.
pub record IsRequest (req : FilestoreRequest) : Type 0 where
  pub action_code : filestore_action_valid req.action_code ≡ true
  pub names : AreNames (two_names req) (names_of req)
  pub fits : value_size req ≤ 255

unfoldable pub request_octets : FilestoreRequest → List ℕ
request_octets req =
    0 ∷ value_size req ∷ (req.action_code * 16) ∷ names_octets (two_names req) (names_of req)

pub action_octet : (action : ℕ) → action < 16 → u8 (bit_and (u8 action) 0xF << 4) ≡ action * 16
action_octet action h = ground (arith, bit_and-mask 4 (u8 action))

pub action_field : (action : ℕ) → action < 16 → bit_and ((action * 16) >> 4) 0xF ≡ action
action_field action h = ground (arith, bit_and-mask 4 ((action * 16) >> 4))

serialize_lem :
    (req : FilestoreRequest) (buf : List ℕ) (buf_len : ℕ)
    → IsRequest req
    → value_size req + 2 ≤ buf_len
    → buf_len ≤ length buf
    → filestore_request_tlv_serialize (some req) (some buf) buf_len
      ≡ (3 + names_size (two_names req) (names_of req), some (overlay (request_octets req) buf))
unfolding filestore_request_tlv_serialize request_octets value_size
serialize_lem req [] buf_len ok room inside = absurd (omega arith)
serialize_lem req (a ∷ []) buf_len ok room inside = absurd (omega arith)
serialize_lem req (a ∷ b ∷ buf) buf_len ok room inside =
    let action =
      Wrote-octet (req.action_code * 16) (Wrote-self (a ∷ b ∷ buf) 2 (omega arith)) (omega arith) in
    let (n, named) =
      names-Wrote (two_names req) (names_of req) buf_len action ok.names (omega arith) inside in
    let finished = finish_lem 0 (value_size req) named (omega arith) ok.fits in
    rw
      (
        action_octet req.action_code (action_range req.action_code ok.action_code),
        ok.action_code,
        n,
        finished,
      )
      (ground (arith, names_size_pos (two_names req) (names_of req)))

pub accepts :
    (buf value : List ℕ) (buf_len k action : ℕ) (names : Names) (old : FilestoreRequest)
    → tlv_deserialize (some buf) buf_len (some blank_tlv)
      ≡ (k + 2, some (record { type = 0; length = k; value = some value }))
    → bit_and (get_or value 0 0 >> 4) 0xF ≡ action
    → filestore_action_valid action ≡ true
    → filestore_names_deserialize
        (drop 1 value)
        (k - 1)
        (filestore_action_has_second_filename action)
        no_names
      ≡ (k - 1, names)
    → 2 ≤ k
    → filestore_request_tlv_deserialize (some buf) buf_len (some old)
      ≡ (k + 2, some (request_with action names))
unfolding filestore_request_tlv_deserialize
accepts buf value buf_len k action names old e f valid g h = rw (e, f, valid, g) (ground arith)

deserialize_lem :
    (req old : FilestoreRequest) (buf rest : List ℕ) (buf_len : ℕ)
    → IsRequest req
    → buf ≡ request_octets req ++ rest
    → value_size req + 2 ≤ buf_len
    → (names : Names) × (filestore_request_tlv_deserialize (some buf) buf_len (some old)
        ≡ (value_size req + 2, some (request_with req.action_code names)))
      × SameNames names (names_of req)
unfolding request_octets value_size
deserialize_lem req old buf rest buf_len ok e room =
    let s = names_size (two_names req) (names_of req) in
    let names = names_octets (two_names req) (names_of req) ++ rest in
    let value = (req.action_code * 16) ∷ names in
    let less : value_size req - 1 ≡ s = omega arith in
    let some_names = names_size_pos (two_names req) (names_of req) in
    let (got, read, same, _) =
      names_read (two_names req) (names_of req) names rest (value_size req - 1) ok.names refl
        (omega arith) in
    (
      got,
      accepts buf value buf_len (value_size req) req.action_code got old
          (value_read buf buf_len 0 (value_size req) value e (omega arith) room)
          (action_field req.action_code (action_range req.action_code ok.action_code))
          ok.action_code (read ∙ λ i. (sym less i, got)) (omega arith),
      same,
    )

-- A request that can be sent, written into a buffer with room for it, is read back from its
-- TLV: all octets are consumed, and the action and the names that it takes come back.
pub filestore_request_round_trip :
    (req old : FilestoreRequest) (buf : List ℕ) (buf_len : ℕ)
    → IsRequest req
    → value_size req + 2 ≤ buf_len
    → buf_len ≤ length buf
    → let (n, out) = filestore_request_tlv_serialize (some req) (some buf) buf_len in
      (names : Names) × (filestore_request_tlv_deserialize out n (some old)
        ≡ (n, some (request_with req.action_code names)))
      × SameNames names (names_of req)
      × (out ≡ some (overlay (request_octets req) buf))
unfolding overlay value_size
filestore_request_round_trip req old buf buf_len ok room inside =
    let size : 3 + names_size (two_names req) (names_of req) ≡ value_size req + 2 = omega arith in
    rw (serialize_lem req buf buf_len ok room inside, size)
      (let (names, e, same) =
          deserialize_lem req old _ _ (value_size req + 2) ok refl (omega arith) in
        (names, e, same, refl))
