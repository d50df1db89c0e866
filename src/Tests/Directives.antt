-- ===== src/Tests/Directives.antt =====
-- The File Directive PDUs and the fault handler override on concrete memory.
use embedded_cfdp.Base.{ℕ, ◌≤◌, ◌≡◌, ◌⊎◌, refl, arith, List, [], ◌∷◌, some, none, true}
use embedded_cfdp.Common.{file_size_octets}
use embedded_cfdp.Tlv.FaultHandler.{fault_handler_tlv_deserialize}
use embedded_cfdp.Tlv.FaultHandler.RoundTrip.{AcceptedOverride, fault_handler_tlv_deserialize_cases}
use embedded_cfdp.Directive.Ack.{Ack, ack_directive_valid, ack_serialize, ack_deserialize}
use embedded_cfdp.Directive.Ack.RoundTrip.{
  IsAck, Acknowledges, AcceptedAck, ack_round_trip, ack_deserialize_cases,
}
use embedded_cfdp.Directive.Eof.{Eof, eof_serialize, eof_deserialize}
use embedded_cfdp.Directive.Eof.RoundTrip.{IsEof, eof_size, eof_round_trip}
use embedded_cfdp.Directive.Nak.{SegmentRequest, blank_request, Nak, nak_serialize, nak_deserialize}
use embedded_cfdp.Directive.Nak.Requests.{requests_size}
use embedded_cfdp.Base.{length}
use embedded_cfdp.Directive.Nak.{nak_max_segment_requests}
use embedded_cfdp.Directive.Nak.Accepted.{nak_deserialize_cases}
use embedded_cfdp.Directive.Nak.Layout.{IsNak, nak_size}
use embedded_cfdp.Directive.Nak.RoundTrip.{SameNak, nak_round_trip}
use embedded_cfdp.Directive.Metadata.{Metadata, metadata_serialize, metadata_deserialize}
use embedded_cfdp.Directive.Metadata.Layout.{IsMetadata, metadata_size}
use embedded_cfdp.Directive.Metadata.RoundTrip.{SameMetadata, metadata_round_trip}

abbrev zeros : List ℕ
zeros = 0 ∷ 0 ∷ 0 ∷ 0 ∷ 0 ∷ 0 ∷ 0 ∷ 0 ∷ 0 ∷ 0 ∷ 0 ∷ 0 ∷ 0 ∷ 0 ∷ 0 ∷ 0 ∷ 0 ∷ 0 ∷ 0 ∷ 0 ∷ []

abbrev override_tlv : List ℕ
override_tlv = 4 ∷ 1 ∷ 0x51 ∷ []

fault_handler_tlv_deserialize_cases_example :
    ((fault_handler_tlv_deserialize (some override_tlv) 3 (some 0) (some 0) ≡ (0, some 0, some 0))
      × ¬ (
          (condition_code : ℕ) × (handler_code : ℕ) × AcceptedOverride override_tlv 3 condition_code
            handler_code))
    ⊎ ((condition_code : ℕ) × (handler_code : ℕ) × (fault_handler_tlv_deserialize
            (some override_tlv)
            3
            (some 0)
            (some 0)
          ≡ (3, some condition_code, some handler_code))
        × AcceptedOverride override_tlv 3 condition_code handler_code)
fault_handler_tlv_deserialize_cases_example =
    fault_handler_tlv_deserialize_cases override_tlv 3 0 0 (omega arith) (omega arith)

abbrev sample_ack : Ack
sample_ack = record { ack_directive_code = 5; condition_code = 4; transaction_status = 2 }

sample_ack-IsAck : IsAck sample_ack
unfolding ack_directive_valid
sample_ack-IsAck = record {
  ack_directive_code = refl;
  condition_code = omega arith;
  transaction_status = omega arith;
}

ack_round_trip_example :
    let (n, out) = ack_serialize (some sample_ack) (some zeros) 20 in
    (n ≡ 3) × (ack_deserialize out n (some sample_ack) ≡ (3, some sample_ack))
ack_round_trip_example =
    ack_round_trip sample_ack sample_ack zeros 20 sample_ack-IsAck (omega arith) (omega arith)

abbrev ack_pdu : List ℕ
ack_pdu = 6 ∷ 0x51 ∷ 0x42 ∷ []

ack_deserialize_cases_example :
    ((ack_deserialize (some ack_pdu) 3 (some sample_ack) ≡ (0, some sample_ack))
      × ¬ ((3 ≤ 3) × ((code : ℕ) × Acknowledges ack_pdu code)))
    ⊎ ((got : Ack) × (ack_deserialize (some ack_pdu) 3 (some sample_ack) ≡ (3, some got))
        × IsAck got
        × (3 ≤ 3)
        × AcceptedAck ack_pdu got)
ack_deserialize_cases_example =
    ack_deserialize_cases ack_pdu 3 sample_ack (omega arith) (omega arith)

-- A file checksum failure, found by entity 300.
abbrev sample_eof : Eof
sample_eof = record {
  condition_code = 5;
  file_checksum = 77;
  file_size = 1000;
  fault_location_entity_id = 300;
  fault_location_len = 2;
}

sample_eof-IsEof : IsEof sample_eof 0
unfolding file_size_octets
sample_eof-IsEof = record {
  condition_code = omega arith;
  file_checksum = omega arith;
  file_size = omega arith;
  fault_location = ((omega arith, omega arith), omega arith);
}

eof_round_trip_example :
    let (n, out) = eof_serialize (some sample_eof) 0 (some zeros) 20 in
    (n ≡ eof_size sample_eof 0) × (eof_deserialize out n 0 (some sample_eof) ≡ (n, some sample_eof))
unfolding eof_size file_size_octets
eof_round_trip_example =
    eof_round_trip sample_eof sample_eof 0 zeros 20 sample_eof-IsEof (omega arith) (omega arith)

abbrev b : SegmentRequest
b = blank_request

-- One request that counts in the array of 32.
abbrev sample_nak : Nak
sample_nak = record {
  start_of_scope = 0;
  end_of_scope = 900;
  segment_requests =
      record { start_offset = 100; end_offset = 200 }
      ∷ b
      ∷ b
      ∷ b
      ∷ b
      ∷ b
      ∷ b
      ∷ b
      ∷ b
      ∷ b
      ∷ b
      ∷ b
      ∷ b
      ∷ b
      ∷ b
      ∷ b
      ∷ b
      ∷ b
      ∷ b
      ∷ b
      ∷ b
      ∷ b
      ∷ b
      ∷ b
      ∷ b
      ∷ b
      ∷ b
      ∷ b
      ∷ b
      ∷ b
      ∷ b
      ∷ b
      ∷ [];
  segment_request_count = 1;
}

sample_nak-IsNak : IsNak sample_nak 0
unfolding file_size_octets
sample_nak-IsNak = record {
  array = refl;
  count = omega arith;
  start_of_scope = omega arith;
  end_of_scope = omega arith;
  requests = omega arith;
}

nak_round_trip_example :
    let (n, out) = nak_serialize (some sample_nak) 0 (some zeros) 20 in
    (got : Nak) × (nak_deserialize out n 0 (some sample_nak) ≡ (n, some got))
    × SameNak got sample_nak
    × (n ≡ nak_size sample_nak 0)
unfolding nak_size requests_size file_size_octets
nak_round_trip_example =
    nak_round_trip sample_nak sample_nak 0 zeros 20 sample_nak-IsNak refl (omega arith)
      (omega arith)

abbrev sample_metadata : Metadata
sample_metadata = record {
  closure_requested = true;
  checksum_type = 15;
  file_size = 1000;
  source_filename = some (97 ∷ []);
  source_filename_len = 1;
  destination_filename = none;
  destination_filename_len = 0;
  options = some (5 ∷ 1 ∷ 3 ∷ []);
  options_len = 3;
}

sample_metadata-IsMetadata : IsMetadata sample_metadata 0
unfolding file_size_octets
sample_metadata-IsMetadata = record {
  checksum_type = omega arith;
  file_size = omega arith;
  source_filename = omega arith;
  destination_filename = omega arith;
  options = omega arith;
  options_len = omega arith;
}

metadata_round_trip_example :
    let (n, out) = metadata_serialize (some sample_metadata) 0 (some zeros) 20 in
    (got : Metadata) × (metadata_deserialize out n 0 (some sample_metadata) ≡ (n, some got))
    × SameMetadata got sample_metadata
    × (n ≡ metadata_size sample_metadata 0)
unfolding metadata_size file_size_octets
metadata_round_trip_example =
    metadata_round_trip sample_metadata sample_metadata 0 zeros 20 sample_metadata-IsMetadata
      (omega arith) (omega arith)

-- The scope from 0 to 900, and no requests.
abbrev nak_pdu : List ℕ
nak_pdu = 8 ∷ 0 ∷ 0 ∷ 0 ∷ 0 ∷ 0 ∷ 0 ∷ 3 ∷ 132 ∷ []

nak_deserialize_cases_example :
    ((nak_deserialize (some nak_pdu) 9 0 (some sample_nak)).0 ≡ 0)
    ⊎ ((got : Nak) × (nak_deserialize (some nak_pdu) 9 0 (some sample_nak) ≡ (9, some got))
        × (got.segment_request_count ≤ nak_max_segment_requests)
        × (9 ≡ nak_size got 0)
        × (length got.segment_requests ≡ nak_max_segment_requests))
nak_deserialize_cases_example = nak_deserialize_cases nak_pdu 9 0 sample_nak refl
