-- ===== src/Crc/Burst.antt =====
-- Two messages that differ within two neighbouring octets have different CRCs.
use embedded_cfdp.Base.{
  ℕ, ◌+◌, ◌*◌, ◌%◌, ◌^◌, ◌≡◌, ap, ap₂, sym, ◌∙◌, arith, List, ◌∷◌, ◌++◌, bit_xor, u16, ◌<<◌, IsU16,
  IsByte,
}
use embedded_cfdp.Base.Bits.Xor.{
  bit_xor_self, bit_xor_cancel, bit_xor-lt, bit_xor-shift, bit_xor-mod, bit_xor_interchange,
  bit_xor_zero,
}
use embedded_cfdp.Base.Bits.Digit.{zero-bit_xor}
use embedded_cfdp.Crc.{crc_bits, crc_octet, crc_octets}
use embedded_cfdp.Crc.Detection.{
  crc_octet-IsU16, crc_octets-IsU16, crc_octet_inputs, crc_octets_injective, crc_octet_injective,
}
use embedded_cfdp.Crc.Linear.{crc_bits-bit_xor, crc_bits_low_octet}
use embedded_cfdp.Crc.Stream.{crc_octets-append}

-- The difference of two octets' registers is the register of their difference.
difference :
    (crc x y : ℕ)
    → IsU16 crc
    → IsByte x
    → IsByte y
    → bit_xor (crc_octet crc x) (crc_octet crc y) ≡ crc_bits 8 (bit_xor x y * 256)
unfolding crc_octet
difference crc x y h k l =
    let ex : u16 (x << 8) ≡ x * 2 ^ 8 + 0 = omega arith in
    let ey : u16 (y << 8) ≡ y * 2 ^ 8 = omega arith in
    let shifted : bit_xor (u16 (x << 8)) (u16 (y << 8)) ≡ bit_xor x y * 256 + 0 =
      ap₂ bit_xor ex ey ∙ bit_xor-shift 8 x y 0 (omega arith) in
    sym (
      crc_bits-bit_xor 8 _ _ (bit_xor-lt 16 crc (u16 (x << 8)) h (omega arith))
        (bit_xor-lt 16 crc (u16 (y << 8)) h (omega arith)))
    ∙ ap (crc_bits 8) (
        bit_xor_interchange crc (u16 (x << 8)) crc (u16 (y << 8))
        ∙ ap₂ bit_xor (bit_xor_self crc) shifted
        ∙ zero-bit_xor (bit_xor x y * 256 + 0)
        ∙ omega arith)

same_low_octet :
    (crc x y : ℕ)
    → IsU16 crc
    → IsByte x
    → IsByte y
    → crc_octet crc x % 256 ≡ crc_octet crc y % 256
    → x ≡ y
same_low_octet crc x y h k l e =
    bit_xor_cancel x y y
      (crc_bits_low_octet (bit_xor x y) (bit_xor-lt 8 x y k l) low ∙ sym (bit_xor_self y))
  where
    low : crc_bits 8 (bit_xor x y * 256) % 256 ≡ 0
    low =
        ap (λ t. t % 256) (sym (difference crc x y h k l))
        ∙ bit_xor-mod 8 (crc_octet crc x) (crc_octet crc y)
        ∙ ap (λ t. bit_xor t (crc_octet crc y % 256)) e
        ∙ bit_xor_self (crc_octet crc y % 256)

two_octets :
    (crc x y x' y' : ℕ)
    → IsU16 crc
    → IsByte x
    → IsByte y
    → IsByte x'
    → IsByte y'
    → crc_octet (crc_octet crc x) y ≡ crc_octet (crc_octet crc x') y'
    → (x ≡ x') × (y ≡ y')
two_octets crc x y x' y' h k l k' l' e = (
  same,
  crc_octet_injective (crc_octet crc x) y y' before l l'
      (e ∙ ap (λ t. crc_octet (crc_octet crc t) y') (sym same)),
)
  where
    before : IsU16 (crc_octet crc x)
    before = crc_octet-IsU16 crc x h

    joined : bit_xor (crc_octet crc x) (u16 (y << 8)) ≡ bit_xor (crc_octet crc x') (u16 (y' << 8))
    joined = crc_octet_inputs _ _ y y' before (crc_octet-IsU16 crc x' h) e

    no_low : (a z : ℕ) → bit_xor a (u16 (z << 8)) % 256 ≡ a % 256
    no_low a z =
        let e : u16 (z << 8) % 2 ^ 8 ≡ 0 = omega arith in
        bit_xor-mod 8 a (u16 (z << 8)) ∙ ap (bit_xor (a % 256)) e ∙ bit_xor_zero (a % 256)

    same : x ≡ x'
    same =
        same_low_octet crc x x' h k k' (
          sym (no_low (crc_octet crc x) y)
          ∙ ap (λ t. t % 256) joined
          ∙ no_low (crc_octet crc x') y')

-- Messages that agree but for two neighbouring octets, and leave the same register from the
-- same one, are the same.
pub crc_octets_burst :
    (crc : ℕ) (front back : List ℕ) (x y x' y' : ℕ)
    → IsU16 crc
    → IsByte x
    → IsByte y
    → IsByte x'
    → IsByte y'
    → crc_octets crc (front ++ (x ∷ y ∷ back)) ≡ crc_octets crc (front ++ (x' ∷ y' ∷ back))
    → (x ≡ x') × (y ≡ y')
unfolding crc_octets
crc_octets_burst crc front back x y x' y' h k l k' l' e =
    two_octets start x y x' y' start_fits k l k' l' (
      crc_octets_injective back _ _ (after x y) (after x' y') (
        sym (crc_octets-append crc front (x ∷ y ∷ back))
        ∙ e
        ∙ crc_octets-append crc front (x' ∷ y' ∷ back)))
  where
    start : ℕ
    start = crc_octets crc front

    start_fits : IsU16 start
    start_fits = crc_octets-IsU16 crc front h

    after : (a b : ℕ) → IsU16 (crc_octet (crc_octet start a) b)
    after a b = crc_octet-IsU16 _ b (crc_octet-IsU16 start a start_fits)
