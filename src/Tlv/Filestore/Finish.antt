-- ===== src/Tlv/Filestore/Finish.antt =====
-- The type and the length that end the writing of a filestore TLV.
use embedded_cfdp.Base.{
  ℕ, ◌+◌, ◌-◌, ◌≤◌, ◌<◌, ◌≡◌, refl, ◌∙◌, arith, List, ◌∷◌, true, ltb-true, some, u8,
}
use embedded_cfdp.Buffer.Overlay.{Wrote, overlay, pointer_to}
use embedded_cfdp.Tlv.{blank_tlv, tlv_deserialize}
use embedded_cfdp.Tlv.Object.{tlv_deserialize_lem}
use embedded_cfdp.Tlv.Filestore.{filestore_tlv_finish, filestore_action_valid}

-- The value is written, behind two octets that still are those of the buffer; the type and the
-- length of the value then take their place.
pub finish_lem :
    {a b : ℕ} {buf body named : List ℕ} {n : ℕ} (type k : ℕ)
    → Wrote (a ∷ b ∷ buf) (a ∷ b ∷ body) n named
    → n ≡ 2 + k
    → k ≤ 255
    → filestore_tlv_finish named type n ≡ (n, overlay (type ∷ k ∷ body) (a ∷ b ∷ buf))
unfolding filestore_tlv_finish overlay
finish_lem {n = n} type k w e h =
    let len : n - 2 ≡ k = omega arith in
    let octet : u8 k ≡ k = omega arith in rw (len, octet, w.octets) (ground arith)

pub value_there : (k : ℕ) (value : List ℕ) → 1 ≤ k → pointer_to value k ≡ some value
value_there k value h = rw (ltb-true 0 k (omega arith)) refl

pub action_range : (action : ℕ) → filestore_action_valid action ≡ true → action < 16
unfolding filestore_action_valid
action_range action h = ground arith

-- A TLV with a value, as a filestore decoder sees it.
pub value_read :
    (buf : List ℕ) (buf_len type k : ℕ) (value : List ℕ)
    → buf ≡ type ∷ k ∷ value
    → 1 ≤ k
    → k + 2 ≤ buf_len
    → tlv_deserialize (some buf) buf_len (some blank_tlv)
      ≡ (k + 2, some (record { type = type; length = k; value = some value }))
value_read buf buf_len type k value e h room =
    let there = value_there k value h in
    tlv_deserialize_lem buf buf_len type k value blank_tlv e room ∙ λ i.
    (k + 2, some (record { type = type; length = k; value = there i }))
