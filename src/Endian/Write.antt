-- ===== src/Endian/Write.antt =====
-- `cfdp_write_uint` writes the big-endian octets of its value, and nothing else.
use embedded_cfdp.Base.{
  ℕ, zero, suc, ◌/◌, ◌%◌, ◌≤◌, ◌≡◌, refl, arith, List, ◌++◌, length, drop, set, bit_and, u8,
  length-set, drop-set_self, append_assoc,
}
use embedded_cfdp.Base.Bits.{bit_and-mask}
use embedded_cfdp.Endian.{write_uint}
use embedded_cfdp.Endian.Octets.{be_octets}

low_octet : (v : ℕ) → u8 (bit_and v 0xFF) ≡ v % 256
low_octet v = omega (arith, bit_and-mask 8 v)

pub write_uint-be_octets :
    (buf : List ℕ) (v n : ℕ) → n ≤ length buf → write_uint buf v n ≡ be_octets n v ++ drop n buf
unfolding write_uint be_octets
write_uint-be_octets buf v zero h = refl
write_uint-be_octets buf v (suc n) h = rw (
  low_octet,
  write_uint-be_octets (set buf n (v % 256)) (v / 256) n (rw length-set (omega arith)),
  drop-set_self n buf (v % 256) h,
  append_assoc,
)
