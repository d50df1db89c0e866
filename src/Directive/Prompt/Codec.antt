-- ===== src/Directive/Prompt/Codec.antt =====
-- What the Prompt codec writes and reads back.
use embedded_cfdp.Base.{
  ℕ, ◌*◌, ◌%◌, ◌≤◌, ◌<◌, ◌≡◌, refl, arith, List, [], ◌∷◌, some, length, drop, bit_and, u8, ◌<<◌,
  ◌>>◌,
}
use embedded_cfdp.Base.Bits.{bit_and-mask}
use embedded_cfdp.Buffer.Overlay.{overlay, Wrote-nothing, Wrote-octet}
use embedded_cfdp.Directive.Prompt.{prompt_serialize, prompt_deserialize}

prompt_serialize_lem :
    (response : ℕ) (buf : List ℕ) (buf_len : ℕ)
    → 2 ≤ buf_len
    → buf_len ≤ length buf
    → prompt_serialize response (some buf) buf_len
      ≡ (2, some (overlay (9 ∷ (response % 2 * 128) ∷ []) buf))
unfolding prompt_serialize
prompt_serialize_lem response buf buf_len room inside =
    let value : u8 (bit_and (u8 response) 0x1 << 7) ≡ response % 2 * 128 =
      ground (arith, bit_and-mask 1 (u8 response)) in
    rw value (
      ground (
        arith,
        (Wrote-octet (response % 2 * 128) (Wrote-octet 9 (Wrote-nothing buf) (omega arith))
            (omega arith)).octets,
      ))

prompt_deserialize_lem :
    (bit : ℕ) (rest : List ℕ) (old : ℕ)
    → bit < 2
    → prompt_deserialize (some (9 ∷ (bit * 128) ∷ rest)) 2 (some old) ≡ (2, some bit)
unfolding prompt_deserialize
prompt_deserialize_lem bit rest old h = ground (arith, bit_and-mask 1 (bit * 128 >> 7))

-- In a buffer with room for it, the response is written into the top bit of the second octet,
-- and read back from there; of a number that is no response the lowest bit is what remains.
pub prompt_round_trip :
    (response old : ℕ) (buf : List ℕ) (buf_len : ℕ)
    → 2 ≤ buf_len
    → buf_len ≤ length buf
    → let (n, out) = prompt_serialize response (some buf) buf_len in
      (n ≡ 2)
      × (out ≡ some (overlay (9 ∷ (response % 2 * 128) ∷ []) buf))
      × (prompt_deserialize out n (some old) ≡ (2, some (response % 2)))
unfolding overlay
prompt_round_trip response old buf buf_len room inside =
    rw (prompt_serialize_lem response buf buf_len room inside)
      (refl, refl, prompt_deserialize_lem (response % 2) (drop 2 buf) old (omega arith))
