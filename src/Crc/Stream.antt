-- ===== src/Crc/Stream.antt =====
-- The CRC of a message in parts, and of a message that carries its CRC.
use embedded_cfdp.Base.{
  ℕ, zero, suc, ◌+◌, ◌*◌, ◌/◌, ◌%◌, ◌^◌, ◌<◌, ◌≡◌, refl, ap, sym, ◌∙◌, arith, List, [], ◌∷◌, ◌++◌,
  some, bit_xor, u16, ◌<<◌, IsU16, length, length-append, take, take_all,
}
use embedded_cfdp.Base.Bits.Xor.{bit_xor_self, bit_xor-shift}
use embedded_cfdp.Endian.Octets.{be_octets}
use embedded_cfdp.Crc.{crc_init, crc_bit, crc_bits, crc_octet, crc_octets, crc_update, crc_compute}
use embedded_cfdp.Crc.Detection.{crc_bit_low}

pub crc_octets-append :
    (crc : ℕ) (xs ys : List ℕ) → crc_octets crc (xs ++ ys) ≡ crc_octets (crc_octets crc xs) ys
unfolding crc_octets
crc_octets-append crc [] ys = refl
crc_octets-append crc (x ∷ xs) ys = crc_octets-append (crc_octet crc x) xs ys

-- `cfdp_crc_update` folds in exactly the first `len` octets.
pub crc_update-take :
    (crc : ℕ) (octets : List ℕ) (len : ℕ)
    → crc_update crc (some octets) len ≡ crc_octets crc (take len octets)
unfolding crc_update crc_octets
crc_update-take crc octets zero = refl
crc_update-take crc octets (suc len) = ground arith

-- The CRC of a message taken in two parts, one update after the other, is that of the whole.
pub crc_update-append :
    (crc : ℕ) (xs ys : List ℕ)
    → crc_update crc (some (xs ++ ys)) (length xs + length ys)
      ≡ crc_update (crc_update crc (some xs) (length xs)) (some ys) (length ys)
crc_update-append crc xs ys =
    crc_update-take crc (xs ++ ys) (length xs + length ys)
    ∙ ap (λ n. crc_octets crc (take n (xs ++ ys))) (sym (length-append xs ys))
    ∙ ap (crc_octets crc) (take_all (xs ++ ys))
    ∙ crc_octets-append crc xs ys
    ∙ ap (λ c. crc_octets c ys) (sym (whole crc xs))
    ∙ sym (whole (crc_update crc (some xs) (length xs)) ys)
  where
    whole : (c : ℕ) (os : List ℕ) → crc_update c (some os) (length os) ≡ crc_octets c os
    whole c os = crc_update-take c os (length os) ∙ ap (crc_octets c) (take_all os)

shifts_only : (v : ℕ) → v < 256 → crc_bits 8 v ≡ v * 256
unfolding crc_bits
shifts_only v h = ground (
  arith,
  crc_bit_low v,
  crc_bit_low (v * 2),
  crc_bit_low (v * 4),
  crc_bit_low (v * 8),
  crc_bit_low (v * 16),
  crc_bit_low (v * 32),
  crc_bit_low (v * 64),
  crc_bit_low (v * 128),
)

empty_register : crc_bits 8 0 ≡ 0
unfolding crc_bits crc_bit
empty_register = refl

-- The register is emptied by its own high octet and then its low one.
high_then_low : (h l : ℕ) → h < 256 → l < 256 → crc_octet (crc_octet (h * 256 + l) h) l ≡ 0
unfolding crc_octet
high_then_low h l hh hl =
    let eh : u16 (h << 8) ≡ h * 2 ^ 8 = omega arith in
    let el : u16 (l << 8) ≡ l * 256 = omega arith in
    let first : bit_xor (h * 256 + l) (h * 2 ^ 8) ≡ l =
      omega (arith, bit_xor-shift 8 h h l hl, bit_xor_self h) in
    rw (eh, first, shifts_only l hl, el, bit_xor_self (l * 256)) empty_register

-- A 16-bit register is emptied by its own two octets: a message with its CRC behind it has the
-- CRC 0.
pub crc_octets_residue : (crc : ℕ) → IsU16 crc → crc_octets crc (be_octets 2 crc) ≡ 0
unfolding crc_octets be_octets
crc_octets_residue crc h =
    let e : crc / 256 % 256 ≡ crc / 256 = omega arith in
    let whole : crc / 256 * 256 + crc % 256 ≡ crc = omega arith in
    rw e (rw whole at (high_then_low (crc / 256) (crc % 256) (omega arith) (omega arith)))

-- `cfdp_crc_compute` is the CRC of exactly the first `len` octets.
pub crc_compute-take :
    (octets : List ℕ) (len : ℕ)
    → crc_compute (some octets) len ≡ crc_octets crc_init (take len octets)
unfolding crc_compute
crc_compute-take octets len = crc_update-take crc_init octets len
