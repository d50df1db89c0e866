-- ===== src/Crc/Detection.antt =====
-- What the CRC keeps apart: its rounds lose nothing, so one changed octet always shows.
use embedded_cfdp.Base.{
  ℕ, zero, suc, ◌*◌, ◌/◌, ◌%◌, ◌^◌, ◌<◌, ◌≡◌, ◌∙◌, arith, List, [], ◌∷◌, bit_xor, u16, ◌<<◌, IsU16,
  IsByte,
}
use embedded_cfdp.Base.Bits.{bit_and-bit}
use embedded_cfdp.Base.Bits.Digit.{bit_xor_digit}
use embedded_cfdp.Base.Bits.Xor.{bit_xor-lt, bit_xor_cancel, bit_xor_comm}
use embedded_cfdp.Crc.{crc_bit, crc_bits, crc_octet, crc_octets}

pub crc_bit-IsU16 : (crc : ℕ) → IsU16 (crc_bit crc)
unfolding crc_bit
crc_bit-IsU16 crc = ground (arith, bit_xor-lt 16 (crc * 2 % 2 ^ 16) 0x1021)

-- The lowest bit of the result says whether the polynomial was added.
crc_bit_parity : (crc : ℕ) → IsU16 crc → crc_bit crc % 2 ≡ crc / 2 ^ 15
unfolding crc_bit
crc_bit_parity crc h = ground (arith, bit_and-bit 15 crc, bit_xor_digit (crc * 2 % 2 ^ 16) 0x1021)

crc_bit_high :
    (crc : ℕ) → IsU16 crc → crc / 2 ^ 15 ≡ 1 → crc_bit crc ≡ bit_xor (crc * 2 % 2 ^ 16) 0x1021
unfolding crc_bit
crc_bit_high crc h e = ground (arith, bit_and-bit 15 crc)

pub crc_bit_low : (crc : ℕ) → crc < 2 ^ 15 → crc_bit crc ≡ crc * 2
unfolding crc_bit
crc_bit_low crc h = ground (arith, bit_and-bit 15 crc)

crc_bit_injective : (a b : ℕ) → IsU16 a → IsU16 b → crc_bit a ≡ crc_bit b → a ≡ b
crc_bit_injective a b h k e = ground (
  arith,
  crc_bit_parity a,
  crc_bit_parity b,
  crc_bit_high a,
  crc_bit_high b,
  crc_bit_low a,
  crc_bit_low b,
  bit_xor_cancel (a * 2 % 2 ^ 16) (b * 2 % 2 ^ 16) 0x1021,
)

pub crc_bits-IsU16 : (n crc : ℕ) → IsU16 crc → IsU16 (crc_bits n crc)
unfolding crc_bits
crc_bits-IsU16 zero crc h = h
crc_bits-IsU16 (suc n) crc h = crc_bits-IsU16 n (crc_bit crc) (crc_bit-IsU16 crc)

crc_bits_injective : (n a b : ℕ) → IsU16 a → IsU16 b → crc_bits n a ≡ crc_bits n b → a ≡ b
unfolding crc_bits
crc_bits_injective zero a b h k e = e
crc_bits_injective (suc n) a b h k e =
    crc_bit_injective a b h k
      (crc_bits_injective n (crc_bit a) (crc_bit b) (crc_bit-IsU16 a) (crc_bit-IsU16 b) e)

pub crc_octet-IsU16 : (crc octet : ℕ) → IsU16 crc → IsU16 (crc_octet crc octet)
unfolding crc_octet
crc_octet-IsU16 crc octet h =
    crc_bits-IsU16 8 _ (bit_xor-lt 16 crc (u16 (octet << 8)) h (omega arith))

pub crc_octets-IsU16 : (crc : ℕ) (octets : List ℕ) → IsU16 crc → IsU16 (crc_octets crc octets)
unfolding crc_octets
crc_octets-IsU16 crc [] h = h
crc_octets-IsU16 crc (o ∷ os) h = crc_octets-IsU16 (crc_octet crc o) os (crc_octet-IsU16 crc o h)

-- Equal registers after an octet each were equal after the octets had joined them.
pub crc_octet_inputs :
    (a b x y : ℕ)
    → IsU16 a
    → IsU16 b
    → crc_octet a x ≡ crc_octet b y
    → bit_xor a (u16 (x << 8)) ≡ bit_xor b (u16 (y << 8))
unfolding crc_octet
crc_octet_inputs a b x y h k e =
    crc_bits_injective 8 _ _ (bit_xor-lt 16 a (u16 (x << 8)) h (omega arith))
      (bit_xor-lt 16 b (u16 (y << 8)) k (omega arith)) e

pub crc_octets_injective :
    (octets : List ℕ) (a b : ℕ)
    → IsU16 a
    → IsU16 b
    → crc_octets a octets ≡ crc_octets b octets
    → a ≡ b
unfolding crc_octets
crc_octets_injective [] a b h k e = e
crc_octets_injective (o ∷ os) a b h k e = bit_xor_cancel a b (u16 (o << 8)) (
    crc_octet_inputs a b o o h k (
      crc_octets_injective os (crc_octet a o) (crc_octet b o) (crc_octet-IsU16 a o h)
        (crc_octet-IsU16 b o k) e))

pub crc_octet_injective :
    (crc x y : ℕ) → IsU16 crc → IsByte x → IsByte y → crc_octet crc x ≡ crc_octet crc y → x ≡ y
crc_octet_injective crc x y h k l e =
    let cancelled : u16 (x << 8) ≡ u16 (y << 8) =
      bit_xor_cancel _ _ crc
        (bit_xor_comm _ crc ∙ crc_octet_inputs crc crc x y h h e ∙ bit_xor_comm crc _) in
    omega arith
