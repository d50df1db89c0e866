-- ===== src/Directive/Ack/RoundTrip.antt =====
-- What the ACK codec writes, reads back and accepts.
use native.Mathlib.Decide.{ℕ_discrete}
use embedded_cfdp.Base.{
  get_or-All, false, ◌/◌, ◌%◌, ℕ, ◌+◌, ◌*◌, ◌≤◌, ◌<◌, ◌≡◌, ◌⊎◌, inl, inr, refl, ap, ap₂, sym,
  get_or, arith, List, [], ◌∷◌, some, true, not, ◌||◌, ltb, ◌!=◌, length, take, All, IsByte,
  bit_and, bit_or, u8, ◌<<◌, ◌>>◌, bool_cases,
}
use embedded_cfdp.Base.Bits.{bit_and-mask, bit_or_disjoint}
use embedded_cfdp.Base.Nibbles.{octet_nibbles}
use embedded_cfdp.Buffer.Overlay.{overlay, Wrote-nothing, Wrote-octet}
use embedded_cfdp.Directive.Ack.{
  Ack, ack_directive_valid, ack_directive_subtype, ack_serialize, ack_deserialize,
}

-- An ACK that table 5-8 admits.
pub record IsAck (ack : Ack) : Type 0 where
  pub ack_directive_code : ack_directive_valid ack.ack_directive_code ≡ true
  pub condition_code : ack.condition_code < 16
  pub transaction_status : ack.transaction_status < 4

unfoldable pub ack_octets : Ack → List ℕ
ack_octets ack =
    6
    ∷ (ack.ack_directive_code * 16 + ack_directive_subtype ack.ack_directive_code)
    ∷ (ack.condition_code * 16 + ack.transaction_status)
    ∷ []

second_octet :
    (code : ℕ)
    → ack_directive_valid code ≡ true
    → u8 (bit_or (bit_and (u8 code) 0xF << 4) (bit_and (ack_directive_subtype code) 0xF))
      ≡ code * 16 + ack_directive_subtype code
unfolding ack_directive_valid ack_directive_subtype
second_octet code h = ground arith

third_octet :
    (condition status : ℕ)
    → condition < 16
    → status < 4
    → u8 (bit_or (bit_and (u8 condition) 0xF << 4) (bit_and (u8 status) 0x3))
      ≡ condition * 16 + status
third_octet condition status h k = ground (
  arith,
  bit_and-mask 4 (u8 condition),
  bit_and-mask 2 (u8 status),
  bit_or_disjoint 4 (condition * 16) status,
)

pub ack_serialize_lem :
    (ack : Ack) (buf : List ℕ) (buf_len : ℕ)
    → IsAck ack
    → 3 ≤ buf_len
    → buf_len ≤ length buf
    → ack_serialize (some ack) (some buf) buf_len ≡ (3, some (overlay (ack_octets ack) buf))
unfolding ack_serialize ack_octets
ack_serialize_lem ack buf buf_len ok room inside =
    rw
      (
        second_octet ack.ack_directive_code ok.ack_directive_code,
        third_octet ack.condition_code ack.transaction_status ok.condition_code
            ok.transaction_status,
        ok.ack_directive_code,
      )
      (ground (
        arith,
        (Wrote-octet (ack.condition_code * 16 + ack.transaction_status)
            (Wrote-octet
              (ack.ack_directive_code * 16 + ack_directive_subtype ack.ack_directive_code)
              (Wrote-octet 6 (Wrote-nothing buf) (omega arith)) (omega arith))
            (omega arith)).octets,
      ))

-- Three octets in which the second has the subtype that its directive calls for are an ACK.
ack_deserialize_lem :
    (code condition status : ℕ) (rest : List ℕ) (buf_len : ℕ) (old : Ack)
    → ack_directive_valid code ≡ true
    → condition < 16
    → status < 4
    → 3 ≤ buf_len
    → ack_deserialize
        (some (6 ∷ (code * 16 + ack_directive_subtype code) ∷ (condition * 16 + status) ∷ rest))
        buf_len
        (some old)
      ≡ (
        3,
        some (record {
          ack_directive_code = code;
          condition_code = condition;
          transaction_status = status;
        }),
      )
unfolding ack_deserialize ack_directive_valid ack_directive_subtype
ack_deserialize_lem code condition status rest buf_len old h k l room = ground (
  arith,
  bit_and-mask 4 ((code * 16 + ack_directive_subtype code) >> 4),
  bit_and-mask 4 (code * 16 + ack_directive_subtype code),
  bit_and-mask 4 ((condition * 16 + status) >> 4),
  bit_and-mask 2 (condition * 16 + status),
)

-- An ACK that table 5-8 admits, written into a buffer with room for it, is read back.
pub ack_round_trip :
    (ack old : Ack) (buf : List ℕ) (buf_len : ℕ)
    → IsAck ack
    → 3 ≤ buf_len
    → buf_len ≤ length buf
    → let (n, out) = ack_serialize (some ack) (some buf) buf_len in
      (n ≡ 3) × (ack_deserialize out n (some old) ≡ (3, some ack))
unfolding overlay ack_octets
ack_round_trip ack old buf buf_len ok room inside =
    rw (ack_serialize_lem ack buf buf_len ok room inside) (
      refl,
      ack_deserialize_lem ack.ack_directive_code ack.condition_code ack.transaction_status _ 3 old
          ok.ack_directive_code ok.condition_code ok.transaction_status (omega arith),
    )

-- The octets with which an acknowledgement of an EOF, and of a Finished PDU, begins: its own
-- directive code, and the code of the other with the subtype 0 or 1.
pub data Acknowledges (buf : List ℕ) : ℕ → Type 0 where
  an_eof : take 2 buf ≡ 6 ∷ 0x40 ∷ [] → Acknowledges buf 4
  a_finished : take 2 buf ≡ 6 ∷ 0x51 ∷ [] → Acknowledges buf 5

-- An ACK that was read from three octets.
pub record AcceptedAck (buf : List ℕ) (ack : Ack) : Type 0 where
  pub acknowledges : Acknowledges buf ack.ack_directive_code
  pub condition_code : ack.condition_code ≡ get_or buf 2 0 / 16
  pub transaction_status : ack.transaction_status ≡ get_or buf 2 0 % 4

acknowledged :
    (a b : ℕ) (rest : List ℕ)
    → 6 ≡ a
    → b < 256
    → (not (ack_directive_valid (bit_and (b >> 4) 0xF))
        || bit_and b 0xF != ack_directive_subtype (bit_and (b >> 4) 0xF))
      ≡ false
    → Acknowledges (a ∷ b ∷ rest) (bit_and (b >> 4) 0xF)
unfolding ack_directive_valid ack_directive_subtype
acknowledged a b rest first octet h =
    let code = bit_and (b >> 4) 0xF in
    elim (ℕ_discrete code 4) [
      | yes is ↦
          let second : 0x40 ≡ b = ground (arith, octet_nibbles b octet) in
          rw is (an_eof (sym (ap₂ (λ x y. x ∷ y ∷ []) first second)))
      | no other ↦
          let is : code ≡ 5 = ground arith in
          let second : 0x51 ≡ b = ground (arith, octet_nibbles b octet) in
          rw is (a_finished (sym (ap₂ (λ x y. x ∷ y ∷ []) first second)))
    ]

-- Octets with which an acknowledgement begins pass the decoder's tests.
begins :
    (a b code : ℕ) (rest : List ℕ)
    → Acknowledges (a ∷ b ∷ rest) code
    → (a ≡ 6)
      × ((not (ack_directive_valid (bit_and (b >> 4) 0xF))
            || bit_and b 0xF != ack_directive_subtype (bit_and (b >> 4) 0xF))
          ≡ false)
unfolding ack_directive_valid ack_directive_subtype
begins a b code rest (an_eof e) =
    let second : b ≡ 0x40 = ap (λ o. get_or o 1 0) e in (ap (λ o. get_or o 0 0) e, rw second refl)
begins a b code rest (a_finished e) =
    let second : b ≡ 0x51 = ap (λ o. get_or o 1 0) e in (ap (λ o. get_or o 0 0) e, rw second refl)

-- Octets, buf_len of which are in the buffer: the ACK decoder consumes and stores nothing, and
-- then these are fewer than three or do not begin with 6, 0x40 or 6, 0x51; or it consumes three
-- octets and stores an acknowledgement of an EOF, for octets that begin with 6, 0x40, or of a
-- Finished PDU, for 6, 0x51, whose condition code is the high half of the third octet and whose
-- transaction status are its two lowest bits.
pub ack_deserialize_cases :
    (buf : List ℕ) (buf_len : ℕ) (old : Ack)
    → buf_len ≤ length buf
    → All IsByte buf
    → ((ack_deserialize (some buf) buf_len (some old) ≡ (0, some old))
        × ¬ ((3 ≤ buf_len) × ((code : ℕ) × Acknowledges buf code)))
      ⊎ ((ack : Ack) × (ack_deserialize (some buf) buf_len (some old) ≡ (3, some ack))
          × IsAck ack
          × (3 ≤ buf_len)
          × AcceptedAck buf ack)
unfolding ack_deserialize
ack_deserialize_cases [] buf_len old inside bytes = inl (ground arith, λ h. omega (arith, h.0))
ack_deserialize_cases (a ∷ []) buf_len old inside bytes =
    inl (ground arith, λ h. omega (arith, h.0))
ack_deserialize_cases (a ∷ b ∷ rest) buf_len old inside bytes =
    let code = bit_and (b >> 4) 0xF in
    let o2 = get_or rest 0 0 in
    elim (bool_cases (ltb buf_len 3 || a != 6)) [
      | inl e ↦ inl (
        rw e refl,
        λ h. let first = (begins a b h.1.0 rest h.1.1).0 in let long = h.0 in ground arith,
      )
      | inr e ↦
          elim (bool_cases
            (not (ack_directive_valid code) || bit_and b 0xF != ack_directive_subtype code)) [
              | inl f ↦
                  inl (rw (e, f) refl, λ h. let passes = (begins a b h.1.0 rest h.1.1).1 in cc)
              | inr f ↦ inr (
                record {
                  ack_directive_code = code;
                  condition_code = bit_and (o2 >> 4) 0xF;
                  transaction_status = bit_and o2 0x3;
                },
                rw (e, f) refl,
                record {
                  ack_directive_code = ground arith;
                  condition_code = omega (arith, bit_and-mask 4 (o2 >> 4));
                  transaction_status = omega (arith, bit_and-mask 2 o2);
                },
                ground arith,
                record {
                  acknowledges = acknowledged a b rest (ground arith) bytes.1.0 f;
                  condition_code = omega (
                    arith,
                    bit_and-mask 4 (o2 >> 4),
                    get_or-All IsByte rest 0 0 bytes.1.1 (omega arith),
                  );
                  transaction_status = omega (arith, bit_and-mask 2 o2);
                },
              )
            ]
    ]
