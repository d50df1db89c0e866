-- ===== src/Common/DirectiveCode.antt =====
-- `cfdp_directive_code_t`, the octet that names a File Directive.
use Prim.Native.Nat.{ℕ}

abbrev pub eof : ℕ
eof = 0x04

abbrev pub finished : ℕ
finished = 0x05

abbrev pub ack : ℕ
ack = 0x06

abbrev pub metadata : ℕ
metadata = 0x07

abbrev pub nak : ℕ
nak = 0x08

abbrev pub prompt : ℕ
prompt = 0x09

abbrev pub keep_alive : ℕ
keep_alive = 0x0C
