-- ===== src/Directive/Prompt.antt =====
-- The Prompt PDU: `cfdp_prompt_serialize` and `cfdp_prompt_deserialize`.
pub mod Codec
use embedded_cfdp.Base.{
  ℕ, List, Option, none, some, ◌||◌, ltb, ◌!=◌, if◌then◌else◌, set, get_or, bit_and, u8, ◌<<◌, ◌>>◌,
}
use embedded_cfdp.Buffer.{Pointer}
use embedded_cfdp.Common.DirectiveCode

-- `cfdp_prompt_serialize`
unfoldable pub prompt_serialize : ℕ → Pointer → ℕ → ℕ × Pointer
prompt_serialize response none buf_len = (0, none)
prompt_serialize response (some buf) buf_len =
    if ltb buf_len 2
    then (0, some buf)
    else (2, some (set (set buf 0 DirectiveCode.prompt) 1 (u8 (bit_and (u8 response) 0x1 << 7))))

-- `cfdp_prompt_deserialize`
unfoldable pub prompt_deserialize : Pointer → ℕ → Option ℕ → ℕ × Option ℕ
prompt_deserialize (some buf) buf_len (some response) =
    if ltb buf_len 2 || get_or buf 0 0 != DirectiveCode.prompt
    then (0, some response)
    else (2, some (bit_and (get_or buf 1 0 >> 7) 0x1))
prompt_deserialize _ _ response = (0, response)
