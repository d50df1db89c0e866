-- ===== src/Crc/Register.antt =====
-- The shift register of CCSDS 232.0-B-3, fed one bit at a time, against the code's octets.
use embedded_cfdp.Base.{
  ℕ, zero, suc, ◌+◌, ◌*◌, ◌/◌, ◌%◌, ◌^◌, ◌<◌, ◌≡◌, refl, ap, ap₂, sym, ◌∙◌, arith, List, [], ◌∷◌,
  ◌++◌, bit_xor, u16, ◌<<◌, IsU16, IsByte, All,
}
use embedded_cfdp.Base.Bits.Digit.{zero-bit_xor}
use embedded_cfdp.Base.Bits.Xor.{
  bit_xor-lt, bit_xor_comm, bit_xor_assoc, bit_xor_zero, bit_xor-shift,
}
use embedded_cfdp.Crc.{crc_bit, crc_bits, crc_octet, crc_octets}
use embedded_cfdp.Crc.Detection.{crc_bit-IsU16, crc_bit_low, crc_octet-IsU16}
use embedded_cfdp.Crc.Linear.{feedback, feedback-bit_xor, crc_bit-feedback, crc_bit-bit_xor}

-- A message bit meets the register's highest bit, and the sum is fed back at the polynomial's taps.
unfoldable pub register_bit : ℕ → ℕ → ℕ
register_bit crc bit = bit_xor (u16 (crc * 2)) (feedback ((crc / 2 ^ 15 + bit) % 2))

unfoldable pub register : ℕ → List ℕ → ℕ
register crc [] = crc
register crc (bit ∷ bits) = register (register_bit crc bit) bits

-- The bits of an octet, the most significant first.
unfoldable pub octet_bits : ℕ → List ℕ
octet_bits o =
    o / 128 ∷ o / 64 % 2 ∷ o / 32 % 2 ∷ o / 16 % 2 ∷ o / 8 % 2 ∷ o / 4 % 2 ∷ o / 2 % 2 ∷ o % 2 ∷ []

unfoldable pub message_bits : List ℕ → List ℕ
message_bits [] = []
message_bits (o ∷ os) = octet_bits o ++ message_bits os

high_bit_alone : (bit : ℕ) → bit < 2 → crc_bit (bit * 2 ^ 15) ≡ feedback bit
unfolding crc_bit
high_bit_alone zero h = refl
high_bit_alone (suc zero) h = refl
high_bit_alone (suc (suc bit)) h = absurd (omega arith)

parity_of_bits : (a b : ℕ) → a < 2 → b < 2 → bit_xor a b ≡ (a + b) % 2
parity_of_bits zero b h k = zero-bit_xor b ∙ omega arith
parity_of_bits (suc zero) zero h k = refl
parity_of_bits (suc zero) (suc zero) h k = refl
parity_of_bits (suc (suc a)) b h k = absurd (omega arith)
parity_of_bits (suc zero) (suc (suc b)) h k = absurd (omega arith)

register_bit-crc_bit :
    (crc bit : ℕ)
    → IsU16 crc
    → bit < 2
    → crc_bit (bit_xor crc (bit * 2 ^ 15)) ≡ register_bit crc bit
unfolding register_bit
register_bit-crc_bit crc bit h k =
    crc_bit-bit_xor crc (bit * 2 ^ 15) h (omega arith)
    ∙ ap₂ bit_xor (crc_bit-feedback crc h) (high_bit_alone bit k)
    ∙ bit_xor_assoc _ _ _
    ∙ ap (bit_xor (u16 (crc * 2))) (
        sym (feedback-bit_xor (crc / 2 ^ 15) bit (omega arith) k)
        ∙ ap feedback (parity_of_bits (crc / 2 ^ 15) bit (omega arith) k))

-- The `n` highest bits of 16, and what is left of them after as many shifts.
abbrev high_bits : ℕ → ℕ → List ℕ
high_bits zero w = []
high_bits (suc n) w = w / 2 ^ 15 ∷ high_bits n (u16 (w * 2))

abbrev left_over : ℕ → ℕ → ℕ
left_over zero w = w
left_over (suc n) w = left_over n (u16 (w * 2))

split_high : (w : ℕ) → w ≡ bit_xor (w / 2 ^ 15 * 2 ^ 15) (w % 2 ^ 15)
split_high w =
    let e : 0 * 2 ^ 15 + w % 2 ^ 15 ≡ w % 2 ^ 15 = omega arith in
    ground (
      arith,
      bit_xor_comm (w / 2 ^ 15 * 2 ^ 15) (w % 2 ^ 15),
      rw e at (bit_xor-shift 15 0 (w / 2 ^ 15) (w % 2 ^ 15) (omega arith)),
      zero-bit_xor (w / 2 ^ 15),
    )

round_with :
    (crc w : ℕ)
    → IsU16 crc
    → IsU16 w
    → crc_bit (bit_xor crc w) ≡ bit_xor (register_bit crc (w / 2 ^ 15)) (u16 (w * 2))
round_with crc w h k =
    ap (λ t. crc_bit (bit_xor crc t)) (split_high w)
    ∙ ap crc_bit (sym (bit_xor_assoc crc (w / 2 ^ 15 * 2 ^ 15) (w % 2 ^ 15)))
    ∙ crc_bit-bit_xor (bit_xor crc (w / 2 ^ 15 * 2 ^ 15)) (w % 2 ^ 15)
        (bit_xor-lt 16 crc (w / 2 ^ 15 * 2 ^ 15) h (omega arith)) (omega arith)
    ∙ ap₂ bit_xor (register_bit-crc_bit crc (w / 2 ^ 15) h (omega arith))
        (crc_bit_low (w % 2 ^ 15) (omega arith) ∙ omega arith)

register_bit-IsU16 : (crc bit : ℕ) → IsU16 crc → bit < 2 → IsU16 (register_bit crc bit)
register_bit-IsU16 crc bit h k = rw (← register_bit-crc_bit crc bit h k) (crc_bit-IsU16 _)

crc_bits-register :
    (n crc w : ℕ)
    → IsU16 crc
    → IsU16 w
    → crc_bits n (bit_xor crc w) ≡ bit_xor (register crc (high_bits n w)) (left_over n w)
unfolding crc_bits register
crc_bits-register zero crc w h k = refl
crc_bits-register (suc n) crc w h k =
    ap (crc_bits n) (round_with crc w h k)
    ∙ crc_bits-register n (register_bit crc (w / 2 ^ 15)) (u16 (w * 2))
        (register_bit-IsU16 crc (w / 2 ^ 15) h (omega arith)) (omega arith)

crc_octet-register :
    (crc o : ℕ) → IsU16 crc → IsByte o → crc_octet crc o ≡ register crc (octet_bits o)
unfolding crc_octet octet_bits
crc_octet-register crc o h k =
    crc_bits-register 8 crc (u16 (o << 8)) h (omega arith)
    ∙ ap₂ bit_xor (ap (register crc) bits) none_left
    ∙ bit_xor_zero _
  where
    bits : high_bits 8 (u16 (o << 8)) ≡ octet_bits o
    bits = ground arith

    none_left : left_over 8 (u16 (o << 8)) ≡ 0
    none_left = omega arith

register-append :
    (crc : ℕ) (xs ys : List ℕ) → register crc (xs ++ ys) ≡ register (register crc xs) ys
unfolding register
register-append crc [] ys = refl
register-append crc (x ∷ xs) ys = register-append (register_bit crc x) xs ys

-- From any 16-bit register, octet by octet the code computes what the register of the standard
-- holds after the message's bits.
pub crc_octets-register :
    (crc : ℕ) (octets : List ℕ)
    → IsU16 crc
    → All IsByte octets
    → crc_octets crc octets ≡ register crc (message_bits octets)
unfolding crc_octets register message_bits
crc_octets-register crc [] h k = refl
crc_octets-register crc (o ∷ os) h k =
    crc_octets-register (crc_octet crc o) os (crc_octet-IsU16 crc o h) k.1
    ∙ ap (λ t. register t (message_bits os)) (crc_octet-register crc o h k.0)
    ∙ sym (register-append crc (octet_bits o) (message_bits os))
