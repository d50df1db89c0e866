-- ===== src/Tests/Pdus.antt =====
-- The header, the PDU CRC and the File Data PDU on concrete memory.
use embedded_cfdp.Base.{
  ℕ, ◌+◌, ◌≤◌, ◌≡◌, ◌⊎◌, inl, inr, refl, arith, List, [], ◌∷◌, ◌++◌, some, true, false, take,
}
use embedded_cfdp.Buffer.{put_uint}
use embedded_cfdp.Endian.{write_uint, read_uint, read_uint_from}
use embedded_cfdp.Common.{file_size_octets}
use embedded_cfdp.Buffer.Overlay.{overlay}
use embedded_cfdp.Crc.{crc_octets, crc_compute, crc_update, crc_octet, crc_bits, crc_bit}
use embedded_cfdp.Pdu.Header.{
  Header, blank_header, header_serialize, header_deserialize, header_size, id_len_valid,
  header_write, pack_octet0, pack_octet3, unpack_flags, read_ids,
}
use embedded_cfdp.Pdu.Header.Layout.{
  IsHeader, size_of, header_octets, header_serialize-octets, header_serialize_refuses,
}
use embedded_cfdp.Pdu.Header.RoundTrip.{canonical, header_round_trip}
use embedded_cfdp.Pdu.Header.Accepted.{header_deserialize_cases}
use embedded_cfdp.Pdu.Crc.{crc_append, crc_verify, crc_matches}
use embedded_cfdp.Pdu.Crc.Append.{crc_append_verifies}
use embedded_cfdp.Pdu.Crc.Corruption.{crc_verify_detects}
use embedded_cfdp.Pdu.FileData.{
  FileData, file_data_serialize, file_data_deserialize, segment_metadata_consistent,
}
use embedded_cfdp.Pdu.FileData.Layout.{
  IsFileData, file_data_octets, payload_octets, metadata_size, file_data_serialize-octets,
}
use embedded_cfdp.Pdu.FileData.RoundTrip.{SamePayload, file_data_round_trip}

-- From entity 5 to entity 6, transaction 7, with a CRC.
abbrev sample : Header
sample = record {
  version = 1;
  pdu_type = 0;
  direction = 0;
  transmission_mode = 0;
  crc_flag = 1;
  large_file_flag = 0;
  data_field_length = 3;
  segmentation_control = 0;
  segment_metadata_flag = 0;
  entity_id_length = 1;
  transaction_seq_length = 1;
  source_entity_id = 5;
  transaction_seq_number = 7;
  destination_entity_id = 6;
}

abbrev header : List ℕ
header = 34 ∷ 0 ∷ 3 ∷ 0 ∷ 5 ∷ 7 ∷ 6 ∷ []

abbrev unprotected : List ℕ
unprotected = 34 ∷ 0 ∷ 3 ∷ 0 ∷ 5 ∷ 7 ∷ 6 ∷ 9 ∷ 0 ∷ 0 ∷ []

abbrev protected : List ℕ
protected = 34 ∷ 0 ∷ 3 ∷ 0 ∷ 5 ∷ 7 ∷ 6 ∷ 9 ∷ 9 ∷ 74 ∷ []

abbrev zeros : List ℕ
zeros = 0 ∷ 0 ∷ 0 ∷ 0 ∷ 0 ∷ 0 ∷ 0 ∷ 0 ∷ 0 ∷ 0 ∷ 0 ∷ []

sample-IsHeader : IsHeader sample
sample-IsHeader = record {
  version = refl;
  pdu_type = omega arith;
  direction = omega arith;
  transmission_mode = omega arith;
  crc_flag = omega arith;
  large_file_flag = omega arith;
  data_field_length = omega arith;
  segmentation_control = omega arith;
  segment_metadata_flag = omega arith;
  entity_id_length = omega arith;
  transaction_seq_length = omega arith;
  source_entity_id = omega arith;
  transaction_seq_number = omega arith;
  destination_entity_id = omega arith;
}

header_serialize-sample :
    header_serialize (some sample) (some zeros) 11 ≡ (7, some (header ++ (0 ∷ 0 ∷ 0 ∷ 0 ∷ [])))
unfolding header_serialize header_write header_size id_len_valid pack_octet0 pack_octet3 put_uint
    write_uint
header_serialize-sample = refl

header_deserialize-sample :
    header_deserialize (some protected) 10 (some blank_header) ≡ (7, some sample)
unfolding header_deserialize header_size id_len_valid unpack_flags read_ids read_uint read_uint_from
header_deserialize-sample = refl

crc_append-sample : crc_append (some unprotected) 8 10 ≡ (10, some protected)
unfolding crc_append header_deserialize header_size id_len_valid unpack_flags read_ids read_uint
    read_uint_from crc_compute crc_update crc_octets crc_octet crc_bits crc_bit put_uint write_uint
crc_append-sample = refl

crc_verify-sample : crc_verify (some protected) 10 ≡ true
unfolding crc_verify crc_matches header_deserialize header_size id_len_valid unpack_flags read_ids
    read_uint read_uint_from crc_compute crc_update crc_octets crc_octet crc_bits crc_bit
crc_verify-sample = refl

crc_verify_detects_example : crc_verify (some (header ++ (10 ∷ 9 ∷ 74 ∷ []))) 10 ≡ false
crc_verify_detects_example =
    crc_verify_detects header (74 ∷ []) 9 9 10 9 10 7 sample header_deserialize-sample (omega arith)
      refl (omega arith) (omega arith) (omega arith) (omega arith) (omega arith) (omega arith)
      (inl (omega arith)) crc_verify-sample

crc_append_verifies_example :
    (10 ≡ 8 + 2) × (crc_verify (some protected) 10 ≡ true) × (take 8 protected ≡ take 8 unprotected)
crc_append_verifies_example =
    crc_append_verifies unprotected protected 8 10 10 10 crc_append-sample (omega arith)
      (omega arith) (omega arith) (omega arith) (omega arith)

header_serialize-octets_example :
    header_serialize (some sample) (some zeros) 11
    ≡ (size_of sample, some (overlay (header_octets sample) zeros))
unfolding size_of
header_serialize-octets_example =
    header_serialize-octets sample zeros 11 sample-IsHeader (omega arith) (omega arith)

header_round_trip_example :
    let (n, out) = header_serialize (some sample) (some zeros) 11 in
    (n ≡ size_of sample)
    × (header_deserialize out n (some blank_header) ≡ (n, some (canonical sample)))
unfolding size_of
header_round_trip_example =
    header_round_trip sample blank_header zeros 11 sample-IsHeader (omega arith) (omega arith)

header_serialize_refuses_example : header_serialize (some sample) (some zeros) 6 ≡ (0, some zeros)
unfolding size_of
header_serialize_refuses_example =
    header_serialize_refuses sample zeros 6 (inr (inr (inr (omega arith))))

header_deserialize_cases_example :
    ((header_deserialize (some protected) 10 (some blank_header)).0 ≡ 0)
    ⊎ ((h : Header) × (header_deserialize (some protected) 10 (some blank_header)
          ≡ (size_of h, some h))
        × IsHeader h
        × (size_of h ≤ 10)
        × (canonical h ≡ h))
header_deserialize_cases_example =
    header_deserialize_cases protected 10 blank_header (omega arith) (omega arith)

abbrev payload : FileData
payload = record {
  offset = 256;
  file_data = some (1 ∷ 2 ∷ []);
  file_data_len = 2;
  record_continuation = 3;
  segment_metadata = some (77 ∷ []);
  segment_metadata_len = 1;
}

payload-IsFileData : IsFileData payload 0 1
unfolding segment_metadata_consistent file_size_octets
payload-IsFileData = record {
  offset = omega arith;
  file_data = omega arith;
  record_continuation = omega arith;
  segment_metadata = omega arith;
  consistent = refl;
  plain = λ other. absurd (other refl);
}

file_data_serialize-octets_example :
    file_data_serialize (some payload) 0 1 (some zeros) 11
    ≡ (payload_octets payload 0 1, some (overlay (file_data_octets payload 0 1) zeros))
unfolding payload_octets metadata_size file_size_octets
file_data_serialize-octets_example =
    file_data_serialize-octets payload 0 1 zeros 11 payload-IsFileData (omega arith) (omega arith)
      (omega arith)

file_data_round_trip_example :
    let (n, out) = file_data_serialize (some payload) 0 1 (some zeros) 11 in
    (got : FileData) × (file_data_deserialize out n 0 1 (some payload) ≡ (n, some got))
    × SamePayload got payload
    × (n ≡ payload_octets payload 0 1)
unfolding payload_octets metadata_size file_size_octets
file_data_round_trip_example =
    file_data_round_trip payload payload 0 1 zeros 11 payload-IsFileData (omega arith) (omega arith)
      (omega arith)
