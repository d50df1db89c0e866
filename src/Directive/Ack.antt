-- ===== src/Directive/Ack.antt =====
-- The ACK PDU: `cfdp_ack_pdu_t` and its codec.
pub mod RoundTrip
use embedded_cfdp.Base.{
  ℕ, ◌+◌, List, Option, none, some, Bool, true, false, not, ◌||◌, ltb, ◌==◌, ◌!=◌, if◌then◌else◌,
  set, get_or, bit_and, bit_or, u8, ◌<<◌, ◌>>◌,
}
use embedded_cfdp.Buffer.{Pointer}
use embedded_cfdp.Common.DirectiveCode

abbrev pub ack_subtype_finished : ℕ
ack_subtype_finished = 1

abbrev pub ack_subtype_other : ℕ
ack_subtype_other = 0

-- `cfdp_ack_pdu_t`
pub record Ack : Type 0 where
  pub ack_directive_code : ℕ
  pub condition_code : ℕ
  pub transaction_status : ℕ

-- `cfdp_ack_directive_valid`
unfoldable pub ack_directive_valid : ℕ → Bool
ack_directive_valid code = (code == DirectiveCode.eof) || (code == DirectiveCode.finished)

-- `cfdp_ack_directive_subtype`
pub ack_directive_subtype : ℕ → ℕ
ack_directive_subtype code =
    if code == DirectiveCode.finished then ack_subtype_finished else ack_subtype_other

-- `cfdp_ack_serialize`
unfoldable pub ack_serialize : Option Ack → Pointer → ℕ → ℕ × Pointer
ack_serialize (some ack) (some buf) buf_len =
    let code = set buf 0 DirectiveCode.ack in
    let acknowledged = set code 1 (
      u8 (
        bit_or (bit_and (u8 ack.ack_directive_code) 0xF << 4)
          (bit_and (ack_directive_subtype ack.ack_directive_code) 0xF))) in
    let status = set acknowledged 2 (
      u8 (
        bit_or (bit_and (u8 ack.condition_code) 0xF << 4)
          (bit_and (u8 ack.transaction_status) 0x3))) in
    if ltb buf_len 3 || not (ack_directive_valid ack.ack_directive_code)
    then (0, some buf)
    else (3, some status)
ack_serialize _ buf _ = (0, buf)

-- `cfdp_ack_deserialize`
unfoldable pub ack_deserialize : Pointer → ℕ → Option Ack → ℕ × Option Ack
ack_deserialize (some buf) buf_len (some ack) =
    let o1 = get_or buf 1 0 in
    let o2 = get_or buf 2 0 in
    let acknowledged = bit_and (o1 >> 4) 0xF in
    if ltb buf_len 3 || get_or buf 0 0 != DirectiveCode.ack
    then (0, some ack)
    else if not (ack_directive_valid acknowledged)
        || bit_and o1 0xF != ack_directive_subtype acknowledged
    then (0, some ack)
    else (
      3,
      some (record {
        ack_directive_code = acknowledged;
        condition_code = bit_and (o2 >> 4) 0xF;
        transaction_status = bit_and o2 0x3;
      }),
    )
ack_deserialize _ _ ack = (0, ack)
