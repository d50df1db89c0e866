-- ===== src/Directive/KeepAlive/Codec.antt =====
-- What the Keep Alive codec writes, reads back and accepts.
use embedded_cfdp.Base.{ℕ, ◌+◌, ◌^◌, ◌≤◌, ◌<◌, ◌≡◌, refl, arith, List, ◌∷◌, ◌++◌, some, length}
use embedded_cfdp.Buffer.Overlay.{overlay, Wrote-nothing, Wrote-octet, Wrote-uint}
use embedded_cfdp.Common.{file_size_octets, file_size_octets_cases}
use embedded_cfdp.Endian.Octets.{be_octets}
use embedded_cfdp.Endian.Read.{read_uint-be_octets}
use embedded_cfdp.Directive.KeepAlive.{keep_alive_serialize, keep_alive_deserialize}

unfoldable pub keep_alive_octets : ℕ → ℕ → List ℕ
keep_alive_octets progress large_file_flag =
    12 ∷ be_octets (file_size_octets large_file_flag) progress

keep_alive_serialize_lem :
    (progress large_file_flag : ℕ) (buf : List ℕ) (buf_len : ℕ)
    → file_size_octets large_file_flag + 1 ≤ buf_len
    → buf_len ≤ length buf
    → keep_alive_serialize progress large_file_flag (some buf) buf_len ≡ (
      file_size_octets large_file_flag + 1,
      some (overlay (keep_alive_octets progress large_file_flag) buf),
    )
unfolding keep_alive_serialize keep_alive_octets
keep_alive_serialize_lem progress large_file_flag buf buf_len room inside = ground (
  arith,
  (Wrote-uint progress (file_size_octets large_file_flag)
      (Wrote-octet 12 (Wrote-nothing buf) (omega arith)) (omega arith)).octets,
)

keep_alive_deserialize_lem :
    (progress large_file_flag old : ℕ) (rest : List ℕ) (buf_len : ℕ)
    → progress < 256 ^ file_size_octets large_file_flag
    → file_size_octets large_file_flag + 1 ≤ buf_len
    → keep_alive_deserialize
        (some (keep_alive_octets progress large_file_flag ++ rest))
        buf_len
        large_file_flag
        (some old)
      ≡ (file_size_octets large_file_flag + 1, some progress)
unfolding keep_alive_deserialize keep_alive_octets
keep_alive_deserialize_lem progress large_file_flag old rest buf_len small room =
    let fs = file_size_octets large_file_flag in
    ground (
      arith,
      read_uint-be_octets (be_octets fs progress ++ rest) fs progress rest refl
          (ground (arith, file_size_octets_cases large_file_flag)) small,
    )

-- A progress that fits the field, written into a buffer with room for it, is read back: the
-- directive code and the big-endian progress, of 4 or 8 octets as the large file flag says.
pub keep_alive_round_trip :
    (progress large_file_flag old : ℕ) (buf : List ℕ) (buf_len : ℕ)
    → progress < 256 ^ file_size_octets large_file_flag
    → file_size_octets large_file_flag + 1 ≤ buf_len
    → buf_len ≤ length buf
    → let (n, out) = keep_alive_serialize progress large_file_flag (some buf) buf_len in
      (n ≡ file_size_octets large_file_flag + 1)
      × (out ≡ some (overlay (keep_alive_octets progress large_file_flag) buf))
      × (keep_alive_deserialize out n large_file_flag (some old) ≡ (n, some progress))
unfolding overlay
keep_alive_round_trip progress large_file_flag old buf buf_len small room inside =
    rw (keep_alive_serialize_lem progress large_file_flag buf buf_len room inside)
      (refl, refl, keep_alive_deserialize_lem progress large_file_flag old _ _ small (omega arith))
