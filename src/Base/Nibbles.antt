-- ===== src/Base/Nibbles.antt =====
-- Two halves of an octet, packed and unpacked.
use embedded_cfdp.Base.{ℕ, ◌+◌, ◌*◌, ◌<◌, ◌≡◌, arith, bit_and, bit_or, u8, ◌<<◌, ◌>>◌}
use embedded_cfdp.Base.Bits.{bit_and-mask, bit_or_disjoint}

pub pack_nibbles :
    (high low : ℕ)
    → high < 16
    → low < 16
    → u8 (bit_or (bit_and (u8 high) 0xF << 4) (bit_and (u8 low) 0xF)) ≡ high * 16 + low
pack_nibbles high low h k =
    ground
      (arith, bit_and-mask 4 (u8 high), bit_and-mask 4 (u8 low), bit_or_disjoint 4 (high * 16) low)

pub high_nibble :
    (high low : ℕ) → high < 16 → low < 16 → bit_and ((high * 16 + low) >> 4) 0xF ≡ high
high_nibble high low h k = ground (arith, bit_and-mask 4 ((high * 16 + low) >> 4))

pub low_nibble : (high low : ℕ) → low < 16 → bit_and (high * 16 + low) 0xF ≡ low
low_nibble high low h = ground (arith, bit_and-mask 4 (high * 16 + low))

pub octet_nibbles :
    (octet : ℕ) → octet < 256 → bit_and (octet >> 4) 0xF * 16 + bit_and octet 0xF ≡ octet
octet_nibbles octet h = ground (arith, bit_and-mask 4 (octet >> 4), bit_and-mask 4 octet)
