-- ===== src/Directive/KeepAlive.antt =====
-- The Keep Alive PDU: `cfdp_keep_alive_serialize` and `cfdp_keep_alive_deserialize`.
pub mod Codec
use embedded_cfdp.Base.{
  ℕ, ◌+◌, List, Option, none, some, ◌||◌, ltb, ◌!=◌, if◌then◌else◌, set, get_or,
}
use embedded_cfdp.Buffer.{Pointer, put_uint, get_uint}
use embedded_cfdp.Common.{file_size_octets}
use embedded_cfdp.Common.DirectiveCode

-- `cfdp_keep_alive_serialize`
unfoldable pub keep_alive_serialize : ℕ → ℕ → Pointer → ℕ → ℕ × Pointer
keep_alive_serialize progress large_file_flag none buf_len = (0, none)
keep_alive_serialize progress large_file_flag (some buf) buf_len =
    let fs = file_size_octets large_file_flag in
    let size = fs + 1 in
    if ltb buf_len size
    then (0, some buf)
    else (size, some (put_uint (set buf 0 DirectiveCode.keep_alive) 1 progress fs))

-- `cfdp_keep_alive_deserialize`
unfoldable pub keep_alive_deserialize : Pointer → ℕ → ℕ → Option ℕ → ℕ × Option ℕ
keep_alive_deserialize (some buf) buf_len large_file_flag (some progress) =
    let fs = file_size_octets large_file_flag in
    let size = fs + 1 in
    if ltb buf_len size || get_or buf 0 0 != DirectiveCode.keep_alive
    then (0, some progress)
    else (size, some (get_uint buf 1 fs))
keep_alive_deserialize _ _ _ progress = (0, progress)
