-- ===== src/Tests/Filestore.antt =====
-- What the decoders of the filestore TLVs accept, on concrete memory.
use embedded_cfdp.Base.{ℕ, ◌≡◌, ◌⊎◌, arith, List, [], ◌∷◌, some, deref}
use embedded_cfdp.Tlv.Filestore.Request.{FilestoreRequest, filestore_request_tlv_deserialize}
use embedded_cfdp.Tlv.Filestore.Request.Accepted.{filestore_request_deserialize_cases}
use embedded_cfdp.Tlv.Filestore.Response.{FilestoreResponse, filestore_response_tlv_deserialize}
use embedded_cfdp.Tlv.Filestore.Response.Accepted.{filestore_response_deserialize_cases}
use embedded_cfdp.Tlv.Filestore.Request.Answers.{AcceptedRequest}
use embedded_cfdp.Tlv.Filestore.Response.Answers.{AcceptedResponse}
use embedded_cfdp.Tlv.Filestore.Request.RoundTrip.{IsRequest}
use embedded_cfdp.Tlv.Filestore.Response.RoundTrip.{IsResponse}
use embedded_cfdp.Tests.Structures.{a_request, a_response}

-- Renaming a to bc, and one octet behind the TLV.
abbrev rename_tlv : List ℕ
rename_tlv = 0 ∷ 6 ∷ 32 ∷ 1 ∷ 97 ∷ 2 ∷ 98 ∷ 99 ∷ 7 ∷ []

filestore_request_deserialize_cases_example :
    let (n, out) = filestore_request_tlv_deserialize (some rename_tlv) 9 (some a_request) in
    ((n ≡ 0) × ¬ ((m : ℕ) × (req : FilestoreRequest) × AcceptedRequest rename_tlv 9 m req))
    ⊎ (IsRequest (deref a_request out) × AcceptedRequest rename_tlv 9 n (deref a_request out))
filestore_request_deserialize_cases_example =
    filestore_request_deserialize_cases rename_tlv 9 a_request (omega arith) (omega arith)

-- Deleting a failed in the first way, with a message of two octets.
abbrev deleted_tlv : List ℕ
deleted_tlv = 1 ∷ 6 ∷ 17 ∷ 1 ∷ 97 ∷ 2 ∷ 110 ∷ 111 ∷ []

filestore_response_deserialize_cases_example :
    let (n, out) = filestore_response_tlv_deserialize (some deleted_tlv) 8 (some a_response) in
    ((n ≡ 0) × ¬ ((m : ℕ) × (resp : FilestoreResponse) × AcceptedResponse deleted_tlv 8 m resp))
    ⊎ (IsResponse (deref a_response out) × AcceptedResponse deleted_tlv 8 n (deref a_response out))
filestore_response_deserialize_cases_example =
    filestore_response_deserialize_cases deleted_tlv 8 a_response (omega arith) (omega arith)
