-- ===== src/Endian.antt =====
-- include/cfdp_endian.h: big-endian integers in a buffer.
pub mod Octets
pub mod Read
pub mod Write
use embedded_cfdp.Base.{
  ℕ, zero, suc, ◌+◌, List, [], ◌∷◌, bit_and, bit_or, get_or, set, u8, u64, ◌<<◌, ◌>>◌,
}

-- `cfdp_write_uint`. With `left` rounds to go the index `nbytes - 1 - i` is `left - 1`.
unfoldable pub write_uint : List ℕ → ℕ → ℕ → List ℕ
write_uint buf value zero = buf
write_uint buf value (suc left) =
    write_uint (set buf left (u8 (bit_and value 0xFF))) (value >> 8) left

-- The loop of `cfdp_read_uint`: `i` octets are read and `left` are still to be read.
unfoldable pub read_uint_from : List ℕ → ℕ → ℕ → ℕ → ℕ
read_uint_from buf i value zero = value
read_uint_from buf i value (suc left) =
    read_uint_from buf (i + 1) (bit_or (u64 (value << 8)) (get_or buf i 0)) left

-- `cfdp_read_uint`
unfoldable pub read_uint : List ℕ → ℕ → ℕ
read_uint buf nbytes = read_uint_from buf 0 0 nbytes
