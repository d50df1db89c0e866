-- ===== src/Tests/Decoders.antt =====
-- What the decoders accept, on concrete memory.
use embedded_cfdp.Base.{ℕ, ◌≡◌, ◌⊎◌, ◌↔◌, refl, arith, List, [], ◌∷◌, some, Bool, deref}
use embedded_cfdp.Common.{file_size_octets}
use embedded_cfdp.Endian.Octets.{be_octets}
use embedded_cfdp.Common.DirectiveCode
use embedded_cfdp.Common.Enumeration.{Named}
use embedded_cfdp.Common.Enumeration.Codes.{
  Directive, Condition, directive_enumeration, condition_enumeration,
}
use embedded_cfdp.Common.Enumeration.Outcomes.{
  DeliveryCode, FileStatus, TransactionStatus, PromptResponse, delivery_code_enumeration,
  file_status_enumeration, transaction_status_enumeration, prompt_response_enumeration,
}
use embedded_cfdp.Tlv.Codes.{FaultHandlerCode, fault_handler_code_enumeration}
use embedded_cfdp.Tlv.EntityId.RoundTrip.{entity_id_octets}
use embedded_cfdp.Tlv.FaultHandler.{fault_handler_tlv_deserialize}
use embedded_cfdp.Pdu.Header.{blank_header, header_deserialize}
use embedded_cfdp.Pdu.FileData.{file_data_deserialize, directive_code}
use embedded_cfdp.Pdu.FileData.Accepted.{AcceptedFileData, file_data_deserialize_cases}
use embedded_cfdp.Directive.Ack.{ack_deserialize}
use embedded_cfdp.Directive.Prompt.{prompt_deserialize}
use embedded_cfdp.Directive.KeepAlive.{keep_alive_deserialize}
use embedded_cfdp.Directive.Eof.{eof_deserialize}
use embedded_cfdp.Directive.Eof.Accepted.{AcceptedEof, eof_deserialize_cases}
use embedded_cfdp.Directive.Nak.{nak_deserialize}
use embedded_cfdp.Directive.Metadata.{metadata_deserialize}
use embedded_cfdp.Directive.Metadata.Accepted.{AcceptedMetadata, metadata_deserialize_cases}
use embedded_cfdp.Directive.Finished.{Finished, finished_read, finished_deserialize}
use embedded_cfdp.Directive.Finished.Chain.{responded}
use embedded_cfdp.Directive.Finished.Rounds.{located, response, location, Rounds, stop, go}
use embedded_cfdp.Directive.Finished.Accepted.{finished_deserialize-Rounds}
use embedded_cfdp.Directive.Finished.Invariant.{IsState, finished_deserialize-IsState}
use embedded_cfdp.Directive.Finished.{finished_parse_tlvs}
use embedded_cfdp.Directive.Finished.Termination.{Ended, finished_parse_tlvs_ends}
use embedded_cfdp.Pdu.Header.Decoded.{IsIn}
use embedded_cfdp.Directive.Selection.{Selects, directive_code-Selects}
use embedded_cfdp.Named.{NamedHeader, header_deserialize-NamedHeader, decoded_codes-Named}
use embedded_cfdp.Tests.Structures.{an_ack, an_eof, a_nak, some_metadata, a_finished, a_payload}

-- A response of two octets, and a fault location of one.
abbrev chained : List ℕ
chained = 5 ∷ 0x42 ∷ 1 ∷ 2 ∷ 7 ∷ 7 ∷ 6 ∷ 1 ∷ 9 ∷ []

abbrev chain_read : Finished
unfolding finished_read
chain_read = located 9 1 (responded chained 6 (finished_read chained))

chained-Rounds : Rounds chained 9 (2, finished_read chained) (9, chain_read)
unfolding entity_id_octets finished_read be_octets
chained-Rounds =
    go (response 2 2 (7 ∷ 7 ∷ 6 ∷ 1 ∷ 9 ∷ []) (finished_read chained) refl (omega arith) refl) (
      go
        (location 6 9 1 [] (responded chained 6 (finished_read chained)) refl (omega arith)
          (omega arith) (omega arith))
        (stop (9, chain_read)))

finished_deserialize-Rounds_example :
    ((finished_deserialize (some chained) 9 (some a_finished) ≡ (9, some chain_read))
      ↔ Rounds chained 9 (2, finished_read chained) (9, chain_read))
    × (let n = (finished_deserialize (some chained) 9 (some a_finished)).0 in (n ≡ 0) ⊎ (n ≡ 9))
finished_deserialize-Rounds_example =
    finished_deserialize-Rounds chained 9 a_finished chain_read (omega arith) (omega arith)
      (omega arith) (omega arith) refl

chained_accepted : finished_deserialize (some chained) 9 (some a_finished) ≡ (9, some chain_read)
chained_accepted =
    let (iff, _) =
      finished_deserialize-Rounds chained 9 a_finished chain_read (omega arith) (omega arith)
        (omega arith) (omega arith) refl in
    iff.1 chained-Rounds

finished_deserialize-IsState_example : ◌≡◌ {A = ℕ} 9 9 × IsState chained 9 (9, chain_read)
finished_deserialize-IsState_example =
    finished_deserialize-IsState chained 9 a_finished chain_read 9 (omega arith) (omega arith)
      (omega arith) chained_accepted (omega arith)

finished_parse_tlvs_ends_example :
    Ended chained 9
      (2, finished_read chained)
      (finished_parse_tlvs 4 chained 9 2 (finished_read chained))
finished_parse_tlvs_ends_example =
    finished_parse_tlvs_ends 3 chained 9 2 (finished_read chained) (omega arith) (omega arith)
      (omega arith) (omega arith) (omega arith)

-- A Prompt for a Keep Alive.
abbrev prompted : List ℕ
prompted = 9 ∷ 128 ∷ []

directive_code-Selects_example :
    Selects 9 (eof_deserialize (some prompted) 2 0 (some an_eof)).0 DirectiveCode.eof
    × Selects 9 (finished_deserialize (some prompted) 2 (some a_finished)).0 DirectiveCode.finished
    × Selects 9 (ack_deserialize (some prompted) 2 (some an_ack)).0 DirectiveCode.ack
    × Selects 9
        (metadata_deserialize (some prompted) 2 0 (some some_metadata)).0
        DirectiveCode.metadata
    × Selects 9 (nak_deserialize (some prompted) 2 0 (some a_nak)).0 DirectiveCode.nak
    × Selects 9 (prompt_deserialize (some prompted) 2 (some 0)).0 DirectiveCode.prompt
    × Selects 9 (keep_alive_deserialize (some prompted) 2 0 (some 0)).0 DirectiveCode.keep_alive
unfolding directive_code
directive_code-Selects_example =
    directive_code-Selects prompted 2 9 0 refl 0 an_eof a_finished an_ack some_metadata a_nak 0 0

-- A header of eight octets and one octet behind it.
abbrev headed : List ℕ
headed = 38 ∷ 0 ∷ 1 ∷ 1 ∷ 1 ∷ 0 ∷ 42 ∷ 2 ∷ 77 ∷ []

header_deserialize-NamedHeader_example :
    let (n, out) = header_deserialize (some headed) 9 (some blank_header) in
    (n ≡ 0) ⊎ (NamedHeader (deref blank_header out) × IsIn headed (deref blank_header out))
header_deserialize-NamedHeader_example =
    header_deserialize-NamedHeader headed 9 blank_header (omega arith) (omega arith)

decoded_codes-Named_example :
    (let (n, out) = ack_deserialize (some prompted) 2 (some an_ack) in
      (n ≡ 0)
      ⊎ (Named Directive (deref an_ack out).ack_directive_code
          × Named TransactionStatus (deref an_ack out).transaction_status))
    × (let (n, out) = prompt_deserialize (some prompted) 2 (some 0) in
        (n ≡ 0) ⊎ Named PromptResponse (deref 0 out))
    × (let (n, out) = finished_deserialize (some prompted) 2 (some a_finished) in
        (n ≡ 0)
        ⊎ (Named DeliveryCode (deref a_finished out).delivery_code
            × Named FileStatus (deref a_finished out).file_status))
    × (let (n, condition, handler) =
          fault_handler_tlv_deserialize (some prompted) 2 (some 0) (some 0) in
        (n ≡ 0) ⊎ (Named Condition (deref 0 condition) × Named FaultHandlerCode (deref 0 handler)))
decoded_codes-Named_example =
    decoded_codes-Named prompted 2 an_ack a_finished 0 0 (omega arith) (omega arith) (omega arith)

-- Two octets of segment metadata, an offset, and two octets of the file.
abbrev carried : List ℕ
carried = 66 ∷ 5 ∷ 6 ∷ 0 ∷ 0 ∷ 0 ∷ 3 ∷ 1 ∷ 2 ∷ []

file_data_deserialize_cases_example :
    let (n, out) = file_data_deserialize (some carried) 9 0 1 (some a_payload) in
    (n ≡ 0) ⊎ AcceptedFileData carried 9 0 1 n (deref a_payload out)
file_data_deserialize_cases_example =
    file_data_deserialize_cases carried 9 0 1 a_payload (omega arith) (omega arith)

-- A cancelled transaction, with the fault located at entity 9.
abbrev ended : List ℕ
ended = 4 ∷ 0xF0 ∷ 0 ∷ 0 ∷ 0 ∷ 7 ∷ 0 ∷ 0 ∷ 0 ∷ 5 ∷ 6 ∷ 1 ∷ 9 ∷ []

eof_deserialize_cases_example :
    let (n, out) = eof_deserialize (some ended) 13 0 (some an_eof) in
    (n ≡ 0)
    ⊎ ((with_location : Bool) × AcceptedEof ended 13
          (file_size_octets 0)
          n
          with_location
          (deref an_eof out))
eof_deserialize_cases_example = eof_deserialize_cases ended 13 0 an_eof (omega arith) (omega arith)

-- A file of five octets, two names of one octet, and one octet of options.
abbrev announced : List ℕ
announced = 7 ∷ 64 ∷ 0 ∷ 0 ∷ 0 ∷ 5 ∷ 1 ∷ 97 ∷ 1 ∷ 98 ∷ 2 ∷ []

metadata_deserialize_cases_example :
    let (n, out) = metadata_deserialize (some announced) 11 0 (some some_metadata) in
    (n ≡ 0) ⊎ AcceptedMetadata announced 11 0 n (deref some_metadata out)
metadata_deserialize_cases_example =
    metadata_deserialize_cases announced 11 0 some_metadata (omega arith) (omega arith)
      (omega arith)
