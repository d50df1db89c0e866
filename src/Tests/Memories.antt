-- ===== src/Tests/Memories.antt =====
-- What the serialisers write, on concrete memory.
use embedded_cfdp.Base.{ℕ, arith, List, [], ◌∷◌, none, some}
use embedded_cfdp.Buffer.Frame.{Contained}
use embedded_cfdp.Tlv.{lv_serialize, tlv_serialize}
use embedded_cfdp.Tlv.EntityId.{entity_id_tlv_serialize}
use embedded_cfdp.Tlv.FaultHandler.{fault_handler_tlv_serialize}
use embedded_cfdp.Tlv.Filestore.Request.{filestore_request_tlv_serialize}
use embedded_cfdp.Tlv.Filestore.Response.{filestore_response_tlv_serialize}
use embedded_cfdp.Pdu.Header.{blank_header, header_serialize}
use embedded_cfdp.Pdu.Crc.{crc_append}
use embedded_cfdp.Pdu.FileData.{file_data_serialize}
use embedded_cfdp.Directive.Ack.{ack_serialize}
use embedded_cfdp.Directive.Prompt.{prompt_serialize}
use embedded_cfdp.Directive.KeepAlive.{keep_alive_serialize}
use embedded_cfdp.Directive.Eof.{eof_serialize}
use embedded_cfdp.Directive.Nak.{nak_serialize}
use embedded_cfdp.Directive.Metadata.{metadata_serialize}
use embedded_cfdp.Directive.Finished.{finished_serialize}
use embedded_cfdp.Memory.{
  directive_serializers-Contained, tlv_serializers-Contained, pdu_serializers-Contained,
}
use embedded_cfdp.Tests.Structures.{
  an_ack, an_eof, a_nak, some_metadata, a_finished, a_payload, a_request, a_response,
}

-- Sixteen octets, the last four of which do not belong to the buffer.
abbrev memory : List ℕ
memory = 0 ∷ 0 ∷ 0 ∷ 0 ∷ 0 ∷ 0 ∷ 0 ∷ 0 ∷ 0 ∷ 0 ∷ 0 ∷ 0 ∷ 9 ∷ 9 ∷ 9 ∷ 9 ∷ []

directive_serializers-Contained_example :
    Contained 12 memory (ack_serialize (some an_ack) (some memory) 12)
    × Contained 12 memory (prompt_serialize 1 (some memory) 12)
    × Contained 12 memory (keep_alive_serialize 77 0 (some memory) 12)
    × Contained 12 memory (eof_serialize (some an_eof) 0 (some memory) 12)
    × Contained 12 memory (nak_serialize (some a_nak) 0 (some memory) 12)
    × Contained 12 memory (metadata_serialize (some some_metadata) 0 (some memory) 12)
    × Contained 12 memory (finished_serialize (some a_finished) (some memory) 12)
directive_serializers-Contained_example =
    directive_serializers-Contained memory 12 (omega arith) an_ack 1 77 0 an_eof a_nak some_metadata
      a_finished

tlv_serializers-Contained_example :
    Contained 12 memory (lv_serialize (some (5 ∷ 6 ∷ [])) 2 (some memory) 12)
    × Contained 12 memory
        (tlv_serialize (some (record { type = 2; length = 0; value = none })) (some memory) 12)
    × Contained 12 memory (entity_id_tlv_serialize 9 1 (some memory) 12)
    × Contained 12 memory (fault_handler_tlv_serialize 4 3 (some memory) 12)
    × Contained 12 memory (filestore_request_tlv_serialize (some a_request) (some memory) 12)
    × Contained 12 memory (filestore_response_tlv_serialize (some a_response) (some memory) 12)
tlv_serializers-Contained_example =
    tlv_serializers-Contained memory 12 (omega arith) (some (5 ∷ 6 ∷ [])) 2
      (record { type = 2; length = 0; value = none }) 9 1 4 3 a_request a_response

pdu_serializers-Contained_example :
    Contained 12 memory (header_serialize (some blank_header) (some memory) 12)
    × Contained 12 memory (file_data_serialize (some a_payload) 0 0 (some memory) 12)
    × Contained 12 memory (crc_append (some memory) 10 12)
pdu_serializers-Contained_example =
    pdu_serializers-Contained memory 12 (omega arith) blank_header a_payload 0 0 10 (omega arith)
      (omega arith)
