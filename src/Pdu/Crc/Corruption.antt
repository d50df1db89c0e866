-- ===== src/Pdu/Crc/Corruption.antt =====
-- A corrupted PDU does not pass the check.
use embedded_cfdp.Base.{
  ℕ, zero, suc, ◌+◌, ◌-◌, ◌≤◌, ◌≡◌, ◌≢◌, ◌⊎◌, inl, inr, bool_cases, refl, ap, sym, ◌∙◌, arith, List,
  [], ◌∷◌, ◌++◌, some, true, false, length, take, All, IsByte,
}
use embedded_cfdp.Buffer.Agree.{Agree-front, Agree-le}
use embedded_cfdp.Crc.{crc_init, crc_octets}
use embedded_cfdp.Crc.Burst.{crc_octets_burst}
use embedded_cfdp.Pdu.Header.{Header, blank_header, header_deserialize}
use embedded_cfdp.Pdu.Header.Local.{header_deserialize_stable}
use embedded_cfdp.Pdu.Crc.{crc_verify}
use embedded_cfdp.Pdu.Crc.Residue.{crc_matches_iff}
use embedded_cfdp.Pdu.Crc.Append.{crc_verify-crc_matches}

take_through :
    (front : List ℕ) (x y : ℕ) (back : List ℕ) (k n : ℕ)
    → length front + 2 + k ≡ n
    → take n (front ++ (x ∷ y ∷ back)) ≡ front ++ (x ∷ y ∷ take k back)
take_through [] x y back k (suc (suc n)) e = ap (λ m. x ∷ y ∷ take m back) (omega arith)
take_through [] x y back k zero e = absurd (omega arith)
take_through [] x y back k (suc zero) e = absurd (omega arith)
take_through (f ∷ front) x y back k zero e = absurd (omega arith)
take_through (f ∷ front) x y back k (suc n) e =
    ap (λ r. f ∷ r) (take_through front x y back k n (omega arith))

same_length :
    (front back : List ℕ) (x y x' y' : ℕ)
    → length (front ++ (x ∷ y ∷ back)) ≡ length (front ++ (x' ∷ y' ∷ back))
same_length [] back x y x' y' = refl
same_length (f ∷ front) back x y x' y' = ap suc (same_length front back x y x' y')

All-mid :
    (front back : List ℕ) (x y : ℕ) → All IsByte (front ++ (x ∷ y ∷ back)) → IsByte x × IsByte y
All-mid [] back x y h = (h.0, h.1.0)
All-mid (f ∷ front) back x y h = All-mid front back x y h.1

-- The residue of a PDU that passes the check is zero.
residue_of_pass :
    (buf : List ℕ) (buf_len n : ℕ) (h : Header)
    → header_deserialize (some buf) buf_len (some blank_header) ≡ (n, some h)
    → n ≢ 0
    → h.crc_flag ≡ 1
    → 2 ≤ h.data_field_length
    → n + h.data_field_length ≤ buf_len
    → buf_len ≤ length buf
    → All IsByte buf
    → crc_verify (some buf) buf_len ≡ true
    → crc_octets crc_init (take (n + h.data_field_length) buf) ≡ 0
residue_of_pass buf buf_len n h e ne flag big room inside bytes pass =
    (crc_matches_iff buf (n + h.data_field_length) (omega arith) (omega arith) bytes).0
      (sym (crc_verify-crc_matches buf buf_len n h e ne flag big room) ∙ pass)

-- A PDU of octets, with the CRC flag set, that passes the check on a buffer that holds it, no
-- longer passes it when octets are changed within two neighbouring ones anywhere behind its
-- header, its CRC included.
pub crc_verify_detects :
    (front back : List ℕ) (x y x' y' buf_len n : ℕ) (h : Header)
    → header_deserialize (some (front ++ (x ∷ y ∷ back))) buf_len (some blank_header) ≡ (n, some h)
    → n ≢ 0
    → h.crc_flag ≡ 1
    → n ≤ length front
    → length front + 2 ≤ n + h.data_field_length
    → n + h.data_field_length ≤ buf_len
    → buf_len ≤ length (front ++ (x ∷ y ∷ back))
    → All IsByte (front ++ (x ∷ y ∷ back))
    → All IsByte (front ++ (x' ∷ y' ∷ back))
    → (x ≢ x') ⊎ (y ≢ y')
    → crc_verify (some (front ++ (x ∷ y ∷ back))) buf_len ≡ true
    → crc_verify (some (front ++ (x' ∷ y' ∷ back))) buf_len ≡ false
crc_verify_detects front back x y x' y' buf_len n h e ne flag behind within room inside bytes bytes'
      changed pass =
    elim (bool_cases (crc_verify (some ys) buf_len)) [
      | inr failed ↦ failed
      | inl passed ↦ absurd (
          differs (
            residue_of_pass ys buf_len n h e' ne flag (omega arith) room
              (omega (arith, same_length front back x y x' y')) bytes' passed))
    ]
  where
    xs : List ℕ
    xs = front ++ (x ∷ y ∷ back)

    ys : List ℕ
    ys = front ++ (x' ∷ y' ∷ back)

    e' : header_deserialize (some ys) buf_len (some blank_header) ≡ (n, some h)
    e' =
        header_deserialize_stable xs ys buf_len buf_len n blank_header h e ne
          (Agree-le n (length front) xs ys (Agree-front front (x ∷ y ∷ back) (x' ∷ y' ∷ back))
            behind)
          (omega arith)

    k : ℕ
    k = n + h.data_field_length - (length front + 2)

    cut :
        (a b : ℕ)
        → crc_octets crc_init (take (n + h.data_field_length) (front ++ (a ∷ b ∷ back)))
          ≡ crc_octets crc_init (front ++ (a ∷ b ∷ take k back))
    cut a b =
        ap (crc_octets crc_init)
          (take_through front a b back k (n + h.data_field_length) (omega arith))

    differs : crc_octets crc_init (take (n + h.data_field_length) ys) ≢ 0
    differs zero' =
        let b = All-mid front back x y bytes in
        let b' = All-mid front back x' y' bytes' in
        let same =
          crc_octets_burst crc_init front (take k back) x y x' y' (omega arith) b.0 b.1 b'.0 b'.1 (
            sym (cut x y)
            ∙ residue_of_pass xs buf_len n h e ne flag (omega arith) room inside bytes pass
            ∙ sym zero'
            ∙ cut x' y') in
        elim changed [ inl d ↦ d same.0 | inr d ↦ d same.1 ]
