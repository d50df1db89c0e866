-- ===== src/Crc.antt =====
-- src/cfdp_crc.c: the 16-bit CRC of a PDU.
pub mod Register
pub mod Detection
pub mod Linear
pub mod Burst
pub mod Stream
use embedded_cfdp.Base.{
  ℕ, zero, suc, List, [], ◌∷◌, Option, none, some, bit_and, bit_xor, u16, ◌<<◌,
}
use embedded_cfdp.Base.{◌==◌, ◌!=◌, if◌then◌else◌, take}

abbrev pub crc_polynomial : ℕ
crc_polynomial = 0x1021

abbrev pub crc_init : ℕ
crc_init = 0xFFFF

-- One round of the inner loop of `cfdp_crc_update`.
unfoldable pub crc_bit : ℕ → ℕ
crc_bit crc =
    let msb_set = bit_and crc 0x8000 != 0 in
    let shifted = u16 (crc << 1) in if msb_set then bit_xor shifted crc_polynomial else shifted

-- The inner loop, with `left` rounds to go.
unfoldable pub crc_bits : ℕ → ℕ → ℕ
crc_bits zero crc = crc
crc_bits (suc left) crc = crc_bits left (crc_bit crc)

-- One round of the outer loop: the octet joins the high end.
unfoldable pub crc_octet : ℕ → ℕ → ℕ
crc_octet crc octet = crc_bits 8 (bit_xor crc (u16 (octet << 8)))

-- The outer loop, over `data[i..len)`.
unfoldable pub crc_octets : ℕ → List ℕ → ℕ
crc_octets crc [] = crc
crc_octets crc (octet ∷ octets) = crc_octets (crc_octet crc octet) octets

-- `cfdp_crc_update`
unfoldable pub crc_update : ℕ → Option (List ℕ) → ℕ → ℕ
crc_update crc none len = crc
crc_update crc (some octets) len = if len == 0 then crc else crc_octets crc (take len octets)

-- `cfdp_crc_compute`
unfoldable pub crc_compute : Option (List ℕ) → ℕ → ℕ
crc_compute octets len = crc_update crc_init octets len
