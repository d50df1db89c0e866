-- ===== src/Tlv/FaultHandler/RoundTrip.antt =====
-- What the Fault Handler Override codec writes, reads back and accepts.
use native.Mathlib.Decide.{dec_le}
use embedded_cfdp.Base.{
  ◌↔◌, drop, take-drop, ℕ, ◌+◌, ◌*◌, ◌≤◌, ◌<◌, ◌≡◌, ◌⊎◌, inl, inr, refl, ap, ap₂, sym, ◌∙◌, arith,
  List, [], ◌∷◌, ◌++◌, some, true, not, ◌||◌, ◌!=◌, bool_cases, length, take, All, IsByte, bit_and,
  ◌>>◌,
}
use embedded_cfdp.Base.Nibbles.{pack_nibbles, high_nibble, low_nibble, octet_nibbles}
use embedded_cfdp.Buffer.Overlay.{overlay, pointer_to, Wrote-nothing, Wrote-octet}
use embedded_cfdp.Tlv.{blank_tlv, tlv_deserialize}
use embedded_cfdp.Tlv.Object.{tlv_deserialize_lem, too_short}
use embedded_cfdp.Tlv.FaultHandler.{
  fault_condition_valid, fault_handler_valid, fault_handler_tlv_serialize,
  fault_handler_tlv_deserialize,
}

-- The layout: the type, the length, and both codes in one octet.
unfoldable pub override_octets : ℕ → ℕ → List ℕ
override_octets condition_code handler_code = 4 ∷ 1 ∷ (condition_code * 16 + handler_code) ∷ []

condition_range : (condition : ℕ) → fault_condition_valid condition ≡ true → condition < 16
unfolding fault_condition_valid
condition_range condition h = ground arith

handler_range : (handler : ℕ) → fault_handler_valid handler ≡ true → handler < 16
unfolding fault_handler_valid
handler_range handler h = ground arith

serialize_lem :
    (condition_code handler_code : ℕ) (buf : List ℕ) (buf_len : ℕ)
    → fault_condition_valid condition_code ≡ true
    → fault_handler_valid handler_code ≡ true
    → 3 ≤ buf_len
    → buf_len ≤ length buf
    → fault_handler_tlv_serialize condition_code handler_code (some buf) buf_len
      ≡ (3, some (overlay (override_octets condition_code handler_code) buf))
unfolding fault_handler_tlv_serialize override_octets
serialize_lem condition_code handler_code buf buf_len h k room inside =
    rw
      (
        h,
        k,
        pack_nibbles condition_code handler_code (condition_range condition_code h)
            (handler_range handler_code k),
      )
      (ground (
        arith,
        (Wrote-octet (condition_code * 16 + handler_code)
            (Wrote-octet 1 (Wrote-octet 4 (Wrote-nothing buf) (omega arith)) (omega arith))
            (omega arith)).octets,
      ))

deserialize_lem :
    (condition_code handler_code old older : ℕ) (buf rest : List ℕ) (buf_len : ℕ)
    → buf ≡ override_octets condition_code handler_code ++ rest
    → fault_condition_valid condition_code ≡ true
    → fault_handler_valid handler_code ≡ true
    → 3 ≤ buf_len
    → fault_handler_tlv_deserialize (some buf) buf_len (some old) (some older)
      ≡ (3, some condition_code, some handler_code)
unfolding fault_handler_tlv_deserialize override_octets
deserialize_lem condition_code handler_code old older buf rest buf_len e h k room =
    let codes = condition_code * 16 + handler_code in
    rw
      (
        tlv_deserialize_lem buf buf_len 4 1 (codes ∷ rest) blank_tlv e room,
        high_nibble condition_code handler_code (condition_range condition_code h)
            (handler_range handler_code k),
        low_nibble condition_code handler_code (handler_range handler_code k),
        h,
        k,
      )
      refl

-- An override that table 5-19 admits, written into a buffer with room for it, is read back from
-- its TLV.
pub fault_handler_round_trip :
    (condition_code handler_code old older : ℕ) (buf : List ℕ) (buf_len : ℕ)
    → fault_condition_valid condition_code ≡ true
    → fault_handler_valid handler_code ≡ true
    → 3 ≤ buf_len
    → buf_len ≤ length buf
    → let (n, out) = fault_handler_tlv_serialize condition_code handler_code (some buf) buf_len in
      (n ≡ 3)
      × (fault_handler_tlv_deserialize out n (some old) (some older)
          ≡ (3, some condition_code, some handler_code))
unfolding overlay
fault_handler_round_trip condition_code handler_code old older buf buf_len h k room inside =
    rw (serialize_lem condition_code handler_code buf buf_len h k room inside)
      (refl, deserialize_lem condition_code handler_code old older _ _ 3 refl h k (omega arith))

-- The same with the code's own tests of both codes.
tested_cases :
    (buf : List ℕ) (buf_len old older : ℕ)
    → buf_len ≤ length buf
    → All IsByte buf
    → (fault_handler_tlv_deserialize (some buf) buf_len (some old) (some older)
        ≡ (0, some old, some older))
      ⊎ ((condition_code : ℕ) × (handler_code : ℕ) × (fault_handler_tlv_deserialize
              (some buf)
              buf_len
              (some old)
              (some older)
            ≡ (3, some condition_code, some handler_code))
          × (fault_condition_valid condition_code ≡ true)
          × (fault_handler_valid handler_code ≡ true)
          × (3 ≤ buf_len)
          × (override_octets condition_code handler_code ≡ take 3 buf))
unfolding fault_handler_tlv_deserialize override_octets
tested_cases [] buf_len old older inside bytes =
    inl (ground (arith, too_short [] buf_len blank_tlv))
tested_cases (a ∷ []) buf_len old older inside bytes =
    inl (ground (arith, too_short (a ∷ []) buf_len blank_tlv))
tested_cases (type ∷ n ∷ []) buf_len old older inside bytes = elim (dec_le (n + 2) buf_len) [
  | no cut ↦ inl (rw (too_short (type ∷ n ∷ []) buf_len blank_tlv (omega arith)) refl)
  | yes fits ↦ inl (
      rw (tlv_deserialize_lem (type ∷ n ∷ []) buf_len type n [] blank_tlv refl fits) (ground arith))
]
tested_cases (type ∷ n ∷ codes ∷ body) buf_len old older inside bytes =
    elim (dec_le (n + 2) buf_len) [
      | no cut ↦ inl (rw (too_short (type ∷ n ∷ codes ∷ body) buf_len blank_tlv (omega arith)) refl)
      | yes fits ↦
          let condition = bit_and (codes >> 4) 0xF in
          let handler = bit_and codes 0xF in
          let decoded =
            tlv_deserialize_lem (type ∷ n ∷ codes ∷ body) buf_len type n (codes ∷ body) blank_tlv
              refl fits in
          elim (bool_cases (type != 4 || n != 1)) [
            | inl other ↦ inl (rw decoded (ground arith))
            | inr match ↦
                let is_override : type ≡ 4 = ground arith in
                let one : n ≡ 1 = ground arith in
                let read : tlv_deserialize (some (type ∷ n ∷ codes ∷ body)) buf_len (some blank_tlv)
                    ≡ (3, some (record { type = 4; length = 1; value = some (codes ∷ body) })) =
                  decoded ∙ λ i. (
                    one i + 2,
                    some (record {
                      type = is_override i;
                      length = one i;
                      value = pointer_to (codes ∷ body) (one i);
                    }),
                  ) in
                elim (bool_cases
                  (not (fault_condition_valid condition) || not (fault_handler_valid handler))) [
                    | inl bad ↦ inl (rw (read, bad) refl)
                    | inr good ↦ inr (
                      condition,
                      handler,
                      rw (read, good) refl,
                      ground arith,
                      ground arith,
                      omega arith,
                      ap (λ o. 4 ∷ 1 ∷ o ∷ []) (octet_nibbles codes bytes.1.1.0)
                          ∙ ap₂ (λ a b. a ∷ b ∷ codes ∷ []) (sym is_override) (sym one),
                    )
                  ]
          ]
    ]

-- An override in the first three octets: its TLV, with one of the conditions 1 to 11 and one of
-- the handlers 1 to 4.
pub record AcceptedOverride (buf : List ℕ) (buf_len condition_code handler_code : ℕ) : Type 0 where
  pub condition : (1 ≤ condition_code) × (condition_code ≤ 11)
  pub handler : (1 ≤ handler_code) × (handler_code ≤ 4)
  pub inside : 3 ≤ buf_len
  pub layout : 4 ∷ 1 ∷ (condition_code * 16 + handler_code) ∷ [] ≡ take 3 buf

condition_valid :
    (condition : ℕ)
    → (fault_condition_valid condition ≡ true) ↔ ((1 ≤ condition) × (condition ≤ 11))
unfolding fault_condition_valid
condition_valid condition = (λ h. (ground arith, ground arith), λ h. ground arith)

handler_valid :
    (handler : ℕ) → (fault_handler_valid handler ≡ true) ↔ ((1 ≤ handler) × (handler ≤ 4))
unfolding fault_handler_valid
handler_valid handler = (λ h. (ground arith, ground arith), λ h. ground arith)

override_read :
    (buf : List ℕ) (buf_len old older condition_code handler_code : ℕ)
    → AcceptedOverride buf buf_len condition_code handler_code
    → fault_handler_tlv_deserialize (some buf) buf_len (some old) (some older)
      ≡ (3, some condition_code, some handler_code)
unfolding override_octets
override_read buf buf_len old older condition_code handler_code ok =
    deserialize_lem condition_code handler_code old older buf (drop 3 buf) buf_len
      (sym (take-drop 3 buf) ∙ ap (λ r. r ++ drop 3 buf) (sym ok.layout))
      ((condition_valid condition_code).1 ok.condition) ((handler_valid handler_code).1 ok.handler)
      ok.inside

-- Octets, buf_len of which are in the buffer: the decoder of overrides stores a condition of 1 to
-- 11 and a handler of 1 to 4, whose TLV is exactly the three octets that it consumes; or it
-- consumes and stores nothing, and then the octets do not begin with such a TLV.
pub fault_handler_tlv_deserialize_cases :
    (buf : List ℕ) (buf_len old older : ℕ)
    → buf_len ≤ length buf
    → All IsByte buf
    → ((fault_handler_tlv_deserialize (some buf) buf_len (some old) (some older)
          ≡ (0, some old, some older))
        × ¬ (
            (condition_code : ℕ) × (handler_code : ℕ) × AcceptedOverride buf buf_len condition_code
              handler_code))
      ⊎ ((condition_code : ℕ) × (handler_code : ℕ) × (fault_handler_tlv_deserialize
              (some buf)
              buf_len
              (some old)
              (some older)
            ≡ (3, some condition_code, some handler_code))
          × AcceptedOverride buf buf_len condition_code handler_code)
unfolding override_octets
fault_handler_tlv_deserialize_cases buf buf_len old older inside bytes =
    elim (tested_cases buf buf_len old older inside bytes) [
      | inl refused ↦ inl (
        refused,
        λ h.
            let read = override_read buf buf_len old older h.0 h.1 h.2 in
            omega (arith, ap (λ r. r.0) (sym refused ∙ read)),
      )
      | inr (condition_code, handler_code, e, condition, handler, room, layout) ↦ inr (
        condition_code,
        handler_code,
        e,
        record {
          condition = (condition_valid condition_code).0 condition;
          handler = (handler_valid handler_code).0 handler;
          inside = room;
          layout = layout;
        },
      )
    ]
