-- ===== src/Tests/Chains.antt =====
-- The filestore TLVs and the Finished PDU on concrete memory.
use embedded_cfdp.Base.{ℕ, ◌≡◌, refl, arith, List, [], ◌∷◌, some, none}
use embedded_cfdp.Buffer.{Pointer, contents}
use embedded_cfdp.Buffer.Overlay.{overlay}
use embedded_cfdp.Tlv.Filestore.{
  Names, filestore_action_valid, filestore_action_has_second_filename,
}
use embedded_cfdp.Tlv.Filestore.FileNames.{SameNames, names_size}
use embedded_cfdp.Tlv.Filestore.Request.{
  FilestoreRequest, request_with, filestore_request_tlv_serialize,
  filestore_request_tlv_deserialize,
}
use embedded_cfdp.Tlv.Filestore.Request.RoundTrip.{
  IsRequest, names_of, value_size, request_octets, filestore_request_round_trip,
}
use embedded_cfdp.Tlv.Filestore.Response.{
  FilestoreResponse, response_with, filestore_response_tlv_serialize,
  filestore_response_tlv_deserialize,
}
use embedded_cfdp.Tlv.Filestore.Response.RoundTrip.{
  IsResponse, response_names, response_value_size, response_octets, filestore_response_round_trip,
}
use embedded_cfdp.Directive.Finished.{
  Finished, fault_location_required, finished_serialize, finished_deserialize,
}
use embedded_cfdp.Directive.Finished.Chain.{responses_octets}
use embedded_cfdp.Directive.Finished.Layout.{IsFinished, finished_size}
use embedded_cfdp.Directive.Finished.Reading.{SameFinished}
use embedded_cfdp.Directive.Finished.RoundTrip.{finished_round_trip}

abbrev room : List ℕ
room = 0 ∷ 0 ∷ 0 ∷ 0 ∷ 0 ∷ 0 ∷ 0 ∷ 0 ∷ 0 ∷ 0 ∷ 0 ∷ 0 ∷ 0 ∷ 0 ∷ 0 ∷ 0 ∷ []

-- Rename a to bc.
abbrev rename : FilestoreRequest
rename = record {
  action_code = 2;
  first_filename = some (97 ∷ []);
  first_filename_len = 1;
  second_filename = some (98 ∷ 99 ∷ []);
  second_filename_len = 2;
}

rename-IsRequest : IsRequest rename
unfolding filestore_action_valid filestore_action_has_second_filename value_size names_size
rename-IsRequest = record {
  action_code = refl;
  names = (omega arith, omega arith);
  fits = omega arith;
}

filestore_request_round_trip_example :
    let (n, out) = filestore_request_tlv_serialize (some rename) (some room) 16 in
    (names : Names) × (filestore_request_tlv_deserialize out n (some rename)
      ≡ (n, some (request_with 2 names)))
    × SameNames names (names_of rename)
    × (out ≡ some (overlay (request_octets rename) room))
unfolding filestore_action_has_second_filename value_size names_size
filestore_request_round_trip_example =
    filestore_request_round_trip rename rename room 16 rename-IsRequest (omega arith) (omega arith)

-- Deleting a failed in the first way, with a message of two octets.
abbrev deleted : FilestoreResponse
deleted = record {
  action_code = 1;
  status_code = 1;
  first_filename = some (97 ∷ []);
  first_filename_len = 1;
  second_filename = none;
  second_filename_len = 0;
  message = some (110 ∷ 111 ∷ []);
  message_len = 2;
}

deleted-IsResponse : IsResponse deleted
unfolding filestore_action_valid filestore_action_has_second_filename response_value_size names_size
deleted-IsResponse = record {
  action_code = refl;
  status_code = omega arith;
  names = (omega arith, refl);
  message = omega arith;
  fits = omega arith;
}

filestore_response_round_trip_example :
    let (n, out) = filestore_response_tlv_serialize (some deleted) (some room) 16 in
    (names : Names) × (message : Pointer) × (filestore_response_tlv_deserialize out n (some deleted)
      ≡ (n, some (response_with 1 1 names message 2)))
    × SameNames names (response_names deleted)
    × (contents message 2 ≡ 110 ∷ 111 ∷ [])
    × (out ≡ some (overlay (response_octets deleted) room))
unfolding filestore_action_has_second_filename response_value_size names_size
filestore_response_round_trip_example =
    filestore_response_round_trip deleted deleted room 16 deleted-IsResponse (omega arith)
      (omega arith)

-- Two filestore responses, and a fault location.
abbrev sample_finished : Finished
sample_finished = record {
  condition_code = 4;
  delivery_code = 1;
  file_status = 2;
  filestore_responses = some (1 ∷ 1 ∷ 7 ∷ 1 ∷ 2 ∷ 8 ∷ 9 ∷ []);
  filestore_responses_len = 7;
  fault_location_entity_id = 300;
  fault_location_len = 2;
}

sample_finished-IsFinished : IsFinished sample_finished
unfolding fault_location_required
sample_finished-IsFinished = record {
  condition_code = omega arith;
  delivery_code = omega arith;
  file_status = omega arith;
  filestore_responses = omega arith;
  filestore_responses_len = omega arith;
  fault_location = ((omega arith, omega arith), omega arith);
}

abbrev values : List (List ℕ)
values = (7 ∷ []) ∷ (8 ∷ 9 ∷ []) ∷ []

finished_round_trip_example :
    let (n, out) = finished_serialize (some sample_finished) (some room) 16 in
    (got : Finished) × (finished_deserialize out n (some sample_finished) ≡ (n, some got))
    × SameFinished got sample_finished
    × (n ≡ finished_size sample_finished)
unfolding responses_octets finished_size fault_location_required
finished_round_trip_example =
    finished_round_trip sample_finished sample_finished values room 16 sample_finished-IsFinished
      refl (omega arith) (omega arith)
