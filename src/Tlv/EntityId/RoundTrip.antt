-- ===== src/Tlv/EntityId/RoundTrip.antt =====
-- What the Entity ID codec writes, reads back and refuses.
use native.Mathlib.Decide.{dec_le, ℕ_discrete}
use native.Mathlib.Numerals.{add-two}
use embedded_cfdp.Base.{
  ℕ, ◌+◌, ◌^◌, ◌≤◌, ◌<◌, ◌≡◌, ◌⊎◌, inl, inr, refl, ap, sym, ◌∙◌, arith, List, [], ◌∷◌, ◌++◌, some,
  length, take, All, IsByte,
}
use embedded_cfdp.Common.{IsIdLen}
use embedded_cfdp.Buffer.Overlay.{overlay, Wrote-nothing, Wrote-octet, Wrote-uint}
use embedded_cfdp.Endian.{read_uint}
use embedded_cfdp.Endian.Octets.{be_octets}
use embedded_cfdp.Endian.Read.{read_uint-be_octets, read_uint-lt, be_octets-read_uint}
use embedded_cfdp.Tlv.{blank_tlv}
use embedded_cfdp.Tlv.TlvType
use embedded_cfdp.Tlv.Object.{tlv_deserialize_lem, too_short}
use embedded_cfdp.Tlv.EntityId.{entity_id_tlv_serialize, entity_id_tlv_deserialize}

-- The layout: the type, the length of the identifier, the identifier.
unfoldable pub entity_id_octets : ℕ → ℕ → List ℕ
entity_id_octets entity_id id_len = TlvType.entity_id ∷ id_len ∷ be_octets id_len entity_id

pub entity_id_tlv_serialize_lem :
    (entity_id id_len : ℕ) (buf : List ℕ) (buf_len : ℕ)
    → IsIdLen id_len
    → id_len + 2 ≤ buf_len
    → buf_len ≤ length buf
    → entity_id_tlv_serialize entity_id id_len (some buf) buf_len
      ≡ (id_len + 2, some (overlay (entity_id_octets entity_id id_len) buf))
unfolding entity_id_tlv_serialize entity_id_octets
entity_id_tlv_serialize_lem entity_id id_len buf buf_len h k l = ground (
  arith,
  (Wrote-uint entity_id id_len
      (Wrote-octet id_len (Wrote-octet TlvType.entity_id (Wrote-nothing buf) (omega arith))
        (omega arith))
      (omega arith)).octets,
)

pub entity_id_tlv_deserialize_lem :
    (buf : List ℕ) (buf_len entity_id id_len old old_len : ℕ) (rest : List ℕ)
    → buf ≡ entity_id_octets entity_id id_len ++ rest
    → IsIdLen id_len
    → id_len + 2 ≤ buf_len
    → entity_id < 256 ^ id_len
    → entity_id_tlv_deserialize (some buf) buf_len (some old) (some old_len)
      ≡ (id_len + 2, some entity_id, some id_len)
unfolding entity_id_tlv_deserialize entity_id_octets
entity_id_tlv_deserialize_lem buf buf_len entity_id id_len old old_len rest e h k l =
    rw
      (tlv_deserialize_lem buf buf_len TlvType.entity_id id_len (be_octets id_len entity_id ++ rest)
        blank_tlv e k)
      (ground (
        arith,
        read_uint-be_octets (be_octets id_len entity_id ++ rest) id_len entity_id rest refl h.1 l,
      ))

-- An identifier that fits its length of 1 to 8, written into a buffer with room for it, is read
-- back from its TLV: all octets are consumed, and the identifier and its length are stored.
pub entity_id_round_trip :
    (entity_id id_len old old_len : ℕ) (buf : List ℕ) (buf_len : ℕ)
    → IsIdLen id_len
    → entity_id < 256 ^ id_len
    → id_len + 2 ≤ buf_len
    → buf_len ≤ length buf
    → let (n, out) = entity_id_tlv_serialize entity_id id_len (some buf) buf_len in
      (n ≡ id_len + 2)
      × (entity_id_tlv_deserialize out n (some old) (some old_len)
          ≡ (n, some entity_id, some id_len))
unfolding overlay
entity_id_round_trip entity_id id_len old old_len buf buf_len h k l m =
    rw (entity_id_tlv_serialize_lem entity_id id_len buf buf_len h l m) (
      refl,
      entity_id_tlv_deserialize_lem _ (id_len + 2) entity_id id_len old old_len _ refl h
          (omega arith) k,
    )

-- What the Entity ID decoder may answer on any octets: nothing consumed and nothing stored, or
-- the octets consumed are the TLV of the identifier stored, whose length is 1 to 8.
pub entity_id_tlv_deserialize_cases :
    (buf : List ℕ) (buf_len old old_len : ℕ)
    → buf_len ≤ length buf
    → All IsByte buf
    → (entity_id_tlv_deserialize (some buf) buf_len (some old) (some old_len)
        ≡ (0, some old, some old_len))
      ⊎ ((entity_id : ℕ) × (id_len : ℕ) × (entity_id_tlv_deserialize
              (some buf)
              buf_len
              (some old)
              (some old_len)
            ≡ (id_len + 2, some entity_id, some id_len))
          × IsIdLen id_len
          × (id_len + 2 ≤ buf_len)
          × (entity_id_octets entity_id id_len ≡ take (id_len + 2) buf)
          × (entity_id < 256 ^ id_len))
unfolding entity_id_tlv_deserialize entity_id_octets
entity_id_tlv_deserialize_cases [] buf_len old old_len inside bytes =
    inl (ground (arith, too_short [] buf_len blank_tlv))
entity_id_tlv_deserialize_cases (a ∷ []) buf_len old old_len inside bytes =
    inl (ground (arith, too_short (a ∷ []) buf_len blank_tlv))
entity_id_tlv_deserialize_cases (type ∷ n ∷ body) buf_len old old_len inside bytes =
    elim (dec_le (n + 2) buf_len) [
      | no cut ↦ inl (rw (too_short (type ∷ n ∷ body) buf_len blank_tlv (omega arith)) refl)
      | yes fits ↦
          let decoded =
            tlv_deserialize_lem (type ∷ n ∷ body) buf_len type n body blank_tlv refl fits in
          elim (dec_le 1 n) [
            | no short ↦ inl (rw decoded (ground arith))
            | yes a ↦ elim (dec_le n 8) [
              | no long ↦ inl (rw decoded (ground arith))
              | yes b ↦ elim (ℕ_discrete type 6) [
                | no other ↦ inl (rw decoded (ground arith))
                | yes e ↦ inr (
                  read_uint body n,
                  n,
                  rw decoded (ground arith),
                  (a, b),
                  fits,
                  rw e (
                      ap (λ r. 6 ∷ n ∷ r) (be_octets-read_uint body n (omega arith) b bytes.1.1)
                      ∙ ap (λ k. take k (6 ∷ n ∷ body)) (sym (add-two n))),
                  read_uint-lt body n (omega arith) b bytes.1.1,
                )
              ]
            ]
          ]
    ]
