-- ===== src/Common/Enumeration/Outcomes.antt =====
-- The enumerations of the outcomes and of the choices that File Directives carry.
use embedded_cfdp.Base.{ℕ, ◌≡◌, refl, List, [], ◌∷◌, some}
use embedded_cfdp.Common.Enumeration.{Enumeration, find}

-- `cfdp_delivery_code_t`
pub data DeliveryCode : Type 0 where
  complete : DeliveryCode
  incomplete : DeliveryCode

abbrev pub delivery_code_wire : DeliveryCode → ℕ
delivery_code_wire complete = 0
delivery_code_wire incomplete = 1

abbrev pub delivery_code_members : List DeliveryCode
delivery_code_members = complete ∷ incomplete ∷ []

pub delivery_code_found :
    (a : DeliveryCode)
    → find delivery_code_wire delivery_code_members (delivery_code_wire a) ≡ some a
delivery_code_found complete = refl
delivery_code_found incomplete = refl

instance abbrev pub delivery_code_enumeration : Enumeration DeliveryCode
delivery_code_enumeration = record {
  wire = delivery_code_wire;
  bits = 1;
  members = delivery_code_members;
  fits = refl;
  found = delivery_code_found;
}

-- `cfdp_file_status_t`
pub data FileStatus : Type 0 where
  discarded : FileStatus
  discarded_filestore_rejection : FileStatus
  retained : FileStatus
  unreported : FileStatus

abbrev pub file_status_wire : FileStatus → ℕ
file_status_wire discarded = 0
file_status_wire discarded_filestore_rejection = 1
file_status_wire retained = 2
file_status_wire unreported = 3

abbrev pub file_status_members : List FileStatus
file_status_members = discarded ∷ discarded_filestore_rejection ∷ retained ∷ unreported ∷ []

pub file_status_found :
    (a : FileStatus) → find file_status_wire file_status_members (file_status_wire a) ≡ some a
file_status_found discarded = refl
file_status_found discarded_filestore_rejection = refl
file_status_found retained = refl
file_status_found unreported = refl

instance abbrev pub file_status_enumeration : Enumeration FileStatus
file_status_enumeration = record {
  wire = file_status_wire;
  bits = 2;
  members = file_status_members;
  fits = refl;
  found = file_status_found;
}

-- `cfdp_transaction_status_t`
pub data TransactionStatus : Type 0 where
  undefined : TransactionStatus
  active : TransactionStatus
  terminated : TransactionStatus
  unrecognized : TransactionStatus

abbrev pub transaction_status_wire : TransactionStatus → ℕ
transaction_status_wire undefined = 0
transaction_status_wire active = 1
transaction_status_wire terminated = 2
transaction_status_wire unrecognized = 3

abbrev pub transaction_status_members : List TransactionStatus
transaction_status_members = undefined ∷ active ∷ terminated ∷ unrecognized ∷ []

pub transaction_status_found :
    (a : TransactionStatus)
    → find transaction_status_wire transaction_status_members (transaction_status_wire a) ≡ some a
transaction_status_found undefined = refl
transaction_status_found active = refl
transaction_status_found terminated = refl
transaction_status_found unrecognized = refl

instance abbrev pub transaction_status_enumeration : Enumeration TransactionStatus
transaction_status_enumeration = record {
  wire = transaction_status_wire;
  bits = 2;
  members = transaction_status_members;
  fits = refl;
  found = transaction_status_found;
}

-- `cfdp_checksum_type_t`
pub data ChecksumType : Type 0 where
  modular : ChecksumType
  null_checksum : ChecksumType

abbrev pub checksum_type_wire : ChecksumType → ℕ
checksum_type_wire modular = 0
checksum_type_wire null_checksum = 15

abbrev pub checksum_type_members : List ChecksumType
checksum_type_members = modular ∷ null_checksum ∷ []

pub checksum_type_found :
    (a : ChecksumType)
    → find checksum_type_wire checksum_type_members (checksum_type_wire a) ≡ some a
checksum_type_found modular = refl
checksum_type_found null_checksum = refl

instance abbrev pub checksum_type_enumeration : Enumeration ChecksumType
checksum_type_enumeration = record {
  wire = checksum_type_wire;
  bits = 4;
  members = checksum_type_members;
  fits = refl;
  found = checksum_type_found;
}

-- `cfdp_prompt_response_t`
pub data PromptResponse : Type 0 where
  prompt_nak : PromptResponse
  prompt_keep_alive : PromptResponse

abbrev pub prompt_response_wire : PromptResponse → ℕ
prompt_response_wire prompt_nak = 0
prompt_response_wire prompt_keep_alive = 1

abbrev pub prompt_response_members : List PromptResponse
prompt_response_members = prompt_nak ∷ prompt_keep_alive ∷ []

pub prompt_response_found :
    (a : PromptResponse)
    → find prompt_response_wire prompt_response_members (prompt_response_wire a) ≡ some a
prompt_response_found prompt_nak = refl
prompt_response_found prompt_keep_alive = refl

instance abbrev pub prompt_response_enumeration : Enumeration PromptResponse
prompt_response_enumeration = record {
  wire = prompt_response_wire;
  bits = 1;
  members = prompt_response_members;
  fits = refl;
  found = prompt_response_found;
}
