-- ===== src/Crc/Linear.antt =====
-- The register is linear over bits: `^` of two registers runs as the `^` of their runs.
use embedded_cfdp.Base.{
  ℕ, zero, suc, ◌*◌, ◌/◌, ◌%◌, ◌^◌, ◌<◌, ◌≡◌, refl, ap, ap₂, sym, true, ◌||◌, ◌==◌, below,
  below_sound, IsByte, ◌∙◌, arith, bit_xor, u16, ◌<<◌, ◌!=◌, if◌then◌else◌, IsU16,
}
use embedded_cfdp.Base.Bits.{bit_and-bit}
use embedded_cfdp.Base.Bits.Digit.{bit_xor_digit}
use embedded_cfdp.Base.Bits.Xor.{
  bit_xor-lt, bit_xor_zero, bit_xor-mod, bit_xor-div, bit_xor_interchange,
}
use embedded_cfdp.Crc.{crc_bit, crc_bits, crc_polynomial}
use embedded_cfdp.Crc.Detection.{crc_bit-IsU16}

-- The polynomial once for an odd number of high bits.
double_half : (a : ℕ) → a * 2 / 2 ≡ a
double_half a = omega arith

abbrev pub feedback : ℕ → ℕ
feedback bit = if bit == 1 then crc_polynomial else 0

pub crc_bit-feedback :
    (crc : ℕ) → IsU16 crc → crc_bit crc ≡ bit_xor (u16 (crc << 1)) (feedback (crc / 2 ^ 15))
unfolding crc_bit
crc_bit-feedback crc h = ground (arith, bit_and-bit 15 crc, bit_xor_zero (crc * 2 % 2 ^ 16))

shifted-bit_xor : (a b : ℕ) → u16 (bit_xor a b << 1) ≡ bit_xor (u16 (a << 1)) (u16 (b << 1))
shifted-bit_xor a b = ap u16 doubled ∙ bit_xor-mod 16 (a * 2) (b * 2)
  where
    halves : bit_xor (a * 2 / 2) (b * 2 / 2) ≡ bit_xor a b
    halves = ap₂ bit_xor (double_half a) (double_half b)

    doubled : bit_xor a b * 2 ≡ bit_xor (a * 2) (b * 2)
    doubled = omega (arith, bit_xor_digit (a * 2) (b * 2), halves)

pub feedback-bit_xor :
    (a b : ℕ) → a < 2 → b < 2 → feedback (bit_xor a b) ≡ bit_xor (feedback a) (feedback b)
feedback-bit_xor zero zero h k = refl
feedback-bit_xor zero (suc zero) h k = refl
feedback-bit_xor (suc zero) zero h k = refl
feedback-bit_xor (suc zero) (suc zero) h k = refl
feedback-bit_xor (suc (suc a)) b h k = absurd (omega arith)
feedback-bit_xor zero (suc (suc b)) h k = absurd (omega arith)
feedback-bit_xor (suc zero) (suc (suc b)) h k = absurd (omega arith)

-- One round is linear.
pub crc_bit-bit_xor :
    (a b : ℕ) → IsU16 a → IsU16 b → crc_bit (bit_xor a b) ≡ bit_xor (crc_bit a) (crc_bit b)
crc_bit-bit_xor a b h k =
    crc_bit-feedback (bit_xor a b) (bit_xor-lt 16 a b h k)
    ∙ ap₂ bit_xor (shifted-bit_xor a b) (
        ap feedback (bit_xor-div 15 a b)
        ∙ feedback-bit_xor (a / 2 ^ 15) (b / 2 ^ 15) (omega arith) (omega arith))
    ∙ bit_xor_interchange _ _ _ _
    ∙ sym (ap₂ bit_xor (crc_bit-feedback a h) (crc_bit-feedback b k))

-- So is any number of rounds.
pub crc_bits-bit_xor :
    (n a b : ℕ)
    → IsU16 a
    → IsU16 b
    → crc_bits n (bit_xor a b) ≡ bit_xor (crc_bits n a) (crc_bits n b)
unfolding crc_bits
crc_bits-bit_xor zero a b h k = refl
crc_bits-bit_xor (suc n) a b h k =
    ap (crc_bits n) (crc_bit-bit_xor a b h k)
    ∙ crc_bits-bit_xor n (crc_bit a) (crc_bit b) (crc_bit-IsU16 a) (crc_bit-IsU16 b)

-- The low octet of what an octet leaves in an empty register tells the octet zero from the others.
low_octet_table : below 256 (λ z. (crc_bits 8 (z * 256) % 256 != 0) || (z == 0)) ≡ true
unfolding below crc_bits crc_bit
low_octet_table = refl

pub crc_bits_low_octet : (z : ℕ) → IsByte z → crc_bits 8 (z * 256) % 256 ≡ 0 → z ≡ 0
crc_bits_low_octet z h e = ground (arith, below_sound 256 _ z low_octet_table h)
