-- ===== src/Tlv/TlvType.antt =====
-- `cfdp_tlv_type_t`: the types that the sources write or expect.
use Prim.Native.Nat.{ℕ}

abbrev pub filestore_request : ℕ
filestore_request = 0x00

abbrev pub filestore_response : ℕ
filestore_response = 0x01

abbrev pub fault_handler_override : ℕ
fault_handler_override = 0x04

abbrev pub entity_id : ℕ
entity_id = 0x06
