-- ===== src/Tests/Structures.antt =====
-- Structures that the tests put into the memory of the decoders and serialisers.
use embedded_cfdp.Base.{[], ◌∷◌, none, some, true}
use embedded_cfdp.Tlv.Filestore.Request.{FilestoreRequest}
use embedded_cfdp.Tlv.Filestore.Response.{FilestoreResponse}
use embedded_cfdp.Pdu.FileData.{FileData}
use embedded_cfdp.Directive.Ack.{Ack}
use embedded_cfdp.Directive.Eof.{Eof}
use embedded_cfdp.Directive.Nak.{Nak}
use embedded_cfdp.Directive.Metadata.{Metadata}
use embedded_cfdp.Directive.Finished.{Finished}

-- Structures with no octets behind their pointers.
abbrev pub an_ack : Ack
an_ack = record { ack_directive_code = 4; condition_code = 0; transaction_status = 1 }

abbrev pub an_eof : Eof
an_eof = record {
  condition_code = 0;
  file_checksum = 7;
  file_size = 5;
  fault_location_entity_id = 0;
  fault_location_len = 0;
}

abbrev pub a_nak : Nak
a_nak = record {
  start_of_scope = 0;
  end_of_scope = 5;
  segment_requests = [];
  segment_request_count = 0;
}

abbrev pub some_metadata : Metadata
some_metadata = record {
  closure_requested = true;
  checksum_type = 0;
  file_size = 5;
  source_filename = none;
  source_filename_len = 0;
  destination_filename = none;
  destination_filename_len = 0;
  options = none;
  options_len = 0;
}

abbrev pub a_finished : Finished
a_finished = record {
  condition_code = 0;
  delivery_code = 0;
  file_status = 2;
  filestore_responses = none;
  filestore_responses_len = 0;
  fault_location_entity_id = 0;
  fault_location_len = 0;
}

abbrev pub a_payload : FileData
a_payload = record {
  offset = 3;
  file_data = some (1 ∷ 2 ∷ []);
  file_data_len = 2;
  record_continuation = 0;
  segment_metadata = none;
  segment_metadata_len = 0;
}

abbrev pub a_request : FilestoreRequest
a_request = record {
  action_code = 1;
  first_filename = some (97 ∷ []);
  first_filename_len = 1;
  second_filename = none;
  second_filename_len = 0;
}

abbrev pub a_response : FilestoreResponse
a_response = record {
  action_code = 1;
  status_code = 0;
  first_filename = some (97 ∷ []);
  first_filename_len = 1;
  second_filename = none;
  second_filename_len = 0;
  message = none;
  message_len = 0;
}
