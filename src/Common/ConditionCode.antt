-- ===== src/Common/ConditionCode.antt =====
-- `cfdp_condition_code_t`: the codes that the sources name.
use Prim.Native.Nat.{ℕ}

abbrev pub no_error : ℕ
no_error = 0x0

abbrev pub positive_ack_limit_reached : ℕ
positive_ack_limit_reached = 0x1

abbrev pub unsupported_checksum_type : ℕ
unsupported_checksum_type = 0xB
