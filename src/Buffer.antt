-- ===== src/Buffer.antt =====
-- Memory behind a pointer: the octets from it to the end of its object. `&buf[pos]` is
-- `drop pos buf`, and a write through it is put back by `splice`.
pub mod Overlay
pub mod Agree
pub mod Frame
use embedded_cfdp.Base.{
  ℕ, zero, suc, ◌+◌, List, [], ◌∷◌, ◌++◌, take, drop, set, get_or, Option, none, some, deref,
}
use embedded_cfdp.Endian.{write_uint, read_uint}

-- A pointer to octets; `none` is NULL.
abbrev pub Pointer : Type 0
Pointer = Option (List ℕ)

-- The `n` octets that a pointer points to.
abbrev pub contents : Pointer → ℕ → List ℕ
contents p n = take n (deref [] p)

-- `buf` after the memory from `&buf[pos]` on has become `tail`.
pub splice : List ℕ → ℕ → List ℕ → List ℕ
splice buf pos tail = take pos buf ++ tail

-- The `memcpy` of C.
pub memcpy : List ℕ → List ℕ → ℕ → List ℕ
memcpy dst src zero = dst
memcpy [] src (suc n) = []
memcpy (d ∷ dst) [] (suc n) = d ∷ dst
memcpy (d ∷ dst) (s ∷ src) (suc n) = s ∷ memcpy dst src n

-- `buf` after a call that was given `&buf[pos]` has left `out` there.
unfoldable pub put_back : List ℕ → ℕ → Pointer → List ℕ
unfolding splice
put_back buf pos out = splice buf pos (deref (drop pos buf) out)

-- `cfdp_write_uint(&buf[pos], value, nbytes)`
unfoldable pub put_uint : List ℕ → ℕ → ℕ → ℕ → List ℕ
unfolding splice
put_uint buf pos value nbytes = splice buf pos (write_uint (drop pos buf) value nbytes)

-- `memcpy(&buf[pos], src, n)`
unfoldable pub put_octets : List ℕ → ℕ → List ℕ → ℕ → List ℕ
unfolding splice memcpy
put_octets buf pos src n = splice buf pos (memcpy (drop pos buf) src n)

-- `cfdp_read_uint(&buf[pos], nbytes)`
abbrev pub get_uint : List ℕ → ℕ → ℕ → ℕ
get_uint buf pos nbytes = read_uint (drop pos buf) nbytes
