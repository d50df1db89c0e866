-- ===== src/Common/Enumeration/Codes.antt =====
-- The enumerations of the directives and of the conditions.
use embedded_cfdp.Base.{ℕ, ◌≡◌, refl, List, [], ◌∷◌, some}
use embedded_cfdp.Common.Enumeration.{Enumeration, find}

-- `cfdp_directive_code_t`
pub data Directive : Type 0 where
  eof : Directive
  finished : Directive
  ack : Directive
  metadata : Directive
  nak : Directive
  prompt : Directive
  keep_alive : Directive

abbrev pub directive_wire : Directive → ℕ
directive_wire eof = 0x04
directive_wire finished = 0x05
directive_wire ack = 0x06
directive_wire metadata = 0x07
directive_wire nak = 0x08
directive_wire prompt = 0x09
directive_wire keep_alive = 0x0C

abbrev pub directive_members : List Directive
directive_members = eof ∷ finished ∷ ack ∷ metadata ∷ nak ∷ prompt ∷ keep_alive ∷ []

pub directive_found :
    (a : Directive) → find directive_wire directive_members (directive_wire a) ≡ some a
directive_found eof = refl
directive_found finished = refl
directive_found ack = refl
directive_found metadata = refl
directive_found nak = refl
directive_found prompt = refl
directive_found keep_alive = refl

instance abbrev pub directive_enumeration : Enumeration Directive
directive_enumeration = record {
  wire = directive_wire;
  bits = 8;
  members = directive_members;
  fits = refl;
  found = directive_found;
}

-- `cfdp_condition_code_t`
pub data Condition : Type 0 where
  no_error : Condition
  positive_ack_limit_reached : Condition
  keep_alive_limit_reached : Condition
  invalid_transmission_mode : Condition
  filestore_rejection : Condition
  file_checksum_failure : Condition
  file_size_error : Condition
  nak_limit_reached : Condition
  inactivity_detected : Condition
  invalid_file_structure : Condition
  check_limit_reached : Condition
  unsupported_checksum_type : Condition
  suspend_request_received : Condition
  cancel_request_received : Condition

abbrev pub condition_wire : Condition → ℕ
condition_wire no_error = 0x0
condition_wire positive_ack_limit_reached = 0x1
condition_wire keep_alive_limit_reached = 0x2
condition_wire invalid_transmission_mode = 0x3
condition_wire filestore_rejection = 0x4
condition_wire file_checksum_failure = 0x5
condition_wire file_size_error = 0x6
condition_wire nak_limit_reached = 0x7
condition_wire inactivity_detected = 0x8
condition_wire invalid_file_structure = 0x9
condition_wire check_limit_reached = 0xA
condition_wire unsupported_checksum_type = 0xB
condition_wire suspend_request_received = 0xE
condition_wire cancel_request_received = 0xF

abbrev pub condition_members : List Condition
condition_members =
    no_error ∷ positive_ack_limit_reached ∷ keep_alive_limit_reached ∷ invalid_transmission_mode
    ∷ filestore_rejection ∷ file_checksum_failure ∷ file_size_error ∷ nak_limit_reached
    ∷ inactivity_detected ∷ invalid_file_structure ∷ check_limit_reached ∷ unsupported_checksum_type
    ∷ suspend_request_received ∷ cancel_request_received ∷ []

pub condition_found :
    (a : Condition) → find condition_wire condition_members (condition_wire a) ≡ some a
condition_found no_error = refl
condition_found positive_ack_limit_reached = refl
condition_found keep_alive_limit_reached = refl
condition_found invalid_transmission_mode = refl
condition_found filestore_rejection = refl
condition_found file_checksum_failure = refl
condition_found file_size_error = refl
condition_found nak_limit_reached = refl
condition_found inactivity_detected = refl
condition_found invalid_file_structure = refl
condition_found check_limit_reached = refl
condition_found unsupported_checksum_type = refl
condition_found suspend_request_received = refl
condition_found cancel_request_received = refl

instance abbrev pub condition_enumeration : Enumeration Condition
condition_enumeration = record {
  wire = condition_wire;
  bits = 4;
  members = condition_members;
  fits = refl;
  found = condition_found;
}
