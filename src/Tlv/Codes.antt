-- ===== src/Tlv/Codes.antt =====
-- The enumerations of include/cfdp_tlv.h.
use embedded_cfdp.Base.{ℕ, ◌≡◌, refl, List, [], ◌∷◌, some}
use embedded_cfdp.Common.Enumeration.{Enumeration, find}

-- `cfdp_tlv_type_t`
pub data TlvTypeCode : Type 0 where
  tlv_filestore_request : TlvTypeCode
  tlv_filestore_response : TlvTypeCode
  tlv_message_to_user : TlvTypeCode
  tlv_fault_handler_override : TlvTypeCode
  tlv_flow_label : TlvTypeCode
  tlv_entity_id : TlvTypeCode

abbrev pub tlv_type_code_wire : TlvTypeCode → ℕ
tlv_type_code_wire tlv_filestore_request = 0x00
tlv_type_code_wire tlv_filestore_response = 0x01
tlv_type_code_wire tlv_message_to_user = 0x02
tlv_type_code_wire tlv_fault_handler_override = 0x04
tlv_type_code_wire tlv_flow_label = 0x05
tlv_type_code_wire tlv_entity_id = 0x06

abbrev pub tlv_type_code_members : List TlvTypeCode
tlv_type_code_members =
    tlv_filestore_request ∷ tlv_filestore_response ∷ tlv_message_to_user
    ∷ tlv_fault_handler_override ∷ tlv_flow_label ∷ tlv_entity_id ∷ []

pub tlv_type_code_found :
    (a : TlvTypeCode)
    → find tlv_type_code_wire tlv_type_code_members (tlv_type_code_wire a) ≡ some a
tlv_type_code_found tlv_filestore_request = refl
tlv_type_code_found tlv_filestore_response = refl
tlv_type_code_found tlv_message_to_user = refl
tlv_type_code_found tlv_fault_handler_override = refl
tlv_type_code_found tlv_flow_label = refl
tlv_type_code_found tlv_entity_id = refl

instance abbrev pub tlv_type_code_enumeration : Enumeration TlvTypeCode
tlv_type_code_enumeration = record {
  wire = tlv_type_code_wire;
  bits = 8;
  members = tlv_type_code_members;
  fits = refl;
  found = tlv_type_code_found;
}

-- `cfdp_filestore_action_t`
pub data FilestoreAction : Type 0 where
  create_file : FilestoreAction
  delete_file : FilestoreAction
  rename_file : FilestoreAction
  append_file : FilestoreAction
  replace_file : FilestoreAction
  create_directory : FilestoreAction
  remove_directory : FilestoreAction
  deny_file : FilestoreAction
  deny_directory : FilestoreAction

abbrev pub filestore_action_wire : FilestoreAction → ℕ
filestore_action_wire create_file = 0x0
filestore_action_wire delete_file = 0x1
filestore_action_wire rename_file = 0x2
filestore_action_wire append_file = 0x3
filestore_action_wire replace_file = 0x4
filestore_action_wire create_directory = 0x5
filestore_action_wire remove_directory = 0x6
filestore_action_wire deny_file = 0x7
filestore_action_wire deny_directory = 0x8

abbrev pub filestore_action_members : List FilestoreAction
filestore_action_members =
    create_file ∷ delete_file ∷ rename_file ∷ append_file ∷ replace_file ∷ create_directory
    ∷ remove_directory ∷ deny_file ∷ deny_directory ∷ []

pub filestore_action_found :
    (a : FilestoreAction)
    → find filestore_action_wire filestore_action_members (filestore_action_wire a) ≡ some a
filestore_action_found create_file = refl
filestore_action_found delete_file = refl
filestore_action_found rename_file = refl
filestore_action_found append_file = refl
filestore_action_found replace_file = refl
filestore_action_found create_directory = refl
filestore_action_found remove_directory = refl
filestore_action_found deny_file = refl
filestore_action_found deny_directory = refl

instance abbrev pub filestore_action_enumeration : Enumeration FilestoreAction
filestore_action_enumeration = record {
  wire = filestore_action_wire;
  bits = 4;
  members = filestore_action_members;
  fits = refl;
  found = filestore_action_found;
}

-- `cfdp_filestore_status_t`
pub data FilestoreStatus : Type 0 where
  successful : FilestoreStatus
  error_1 : FilestoreStatus
  error_2 : FilestoreStatus
  error_3 : FilestoreStatus
  not_performed : FilestoreStatus

abbrev pub filestore_status_wire : FilestoreStatus → ℕ
filestore_status_wire successful = 0x0
filestore_status_wire error_1 = 0x1
filestore_status_wire error_2 = 0x2
filestore_status_wire error_3 = 0x3
filestore_status_wire not_performed = 0xF

abbrev pub filestore_status_members : List FilestoreStatus
filestore_status_members = successful ∷ error_1 ∷ error_2 ∷ error_3 ∷ not_performed ∷ []

pub filestore_status_found :
    (a : FilestoreStatus)
    → find filestore_status_wire filestore_status_members (filestore_status_wire a) ≡ some a
filestore_status_found successful = refl
filestore_status_found error_1 = refl
filestore_status_found error_2 = refl
filestore_status_found error_3 = refl
filestore_status_found not_performed = refl

instance abbrev pub filestore_status_enumeration : Enumeration FilestoreStatus
filestore_status_enumeration = record {
  wire = filestore_status_wire;
  bits = 4;
  members = filestore_status_members;
  fits = refl;
  found = filestore_status_found;
}

-- `cfdp_fault_handler_code_t`
pub data FaultHandlerCode : Type 0 where
  reserved : FaultHandlerCode
  notice_of_cancellation : FaultHandlerCode
  notice_of_suspension : FaultHandlerCode
  ignore_error : FaultHandlerCode
  abandon_transaction : FaultHandlerCode

abbrev pub fault_handler_code_wire : FaultHandlerCode → ℕ
fault_handler_code_wire reserved = 0x0
fault_handler_code_wire notice_of_cancellation = 0x1
fault_handler_code_wire notice_of_suspension = 0x2
fault_handler_code_wire ignore_error = 0x3
fault_handler_code_wire abandon_transaction = 0x4

abbrev pub fault_handler_code_members : List FaultHandlerCode
fault_handler_code_members =
    reserved ∷ notice_of_cancellation ∷ notice_of_suspension ∷ ignore_error ∷ abandon_transaction
    ∷ []

pub fault_handler_code_found :
    (a : FaultHandlerCode)
    → find fault_handler_code_wire fault_handler_code_members (fault_handler_code_wire a) ≡ some a
fault_handler_code_found reserved = refl
fault_handler_code_found notice_of_cancellation = refl
fault_handler_code_found notice_of_suspension = refl
fault_handler_code_found ignore_error = refl
fault_handler_code_found abandon_transaction = refl

instance abbrev pub fault_handler_code_enumeration : Enumeration FaultHandlerCode
fault_handler_code_enumeration = record {
  wire = fault_handler_code_wire;
  bits = 4;
  members = fault_handler_code_members;
  fits = refl;
  found = fault_handler_code_found;
}
