-- ===== src/Memory.antt =====
-- The serialisers of all components together: what they write stays inside their buffers.
use embedded_cfdp.Base.{ℕ, ◌+◌, ◌^◌, ◌≤◌, ◌<◌, List, some, length}
use embedded_cfdp.Buffer.{Pointer}
use embedded_cfdp.Buffer.Frame.{Contained}
use embedded_cfdp.Tlv.{Tlv, lv_serialize, tlv_serialize}
use embedded_cfdp.Tlv.EntityId.{entity_id_tlv_serialize}
use embedded_cfdp.Tlv.FaultHandler.{fault_handler_tlv_serialize}
use embedded_cfdp.Tlv.Bounds.{
  lv-Contained, tlv-Contained, entity_id_tlv-Contained, fault_handler_tlv-Contained,
}
use embedded_cfdp.Tlv.Filestore.Request.{FilestoreRequest, filestore_request_tlv_serialize}
use embedded_cfdp.Tlv.Filestore.Response.{FilestoreResponse, filestore_response_tlv_serialize}
use embedded_cfdp.Tlv.Filestore.Bounds.{
  filestore_request_tlv-Contained, filestore_response_tlv-Contained,
}
use embedded_cfdp.Pdu.Header.{Header, header_serialize}
use embedded_cfdp.Pdu.Crc.{crc_append}
use embedded_cfdp.Pdu.FileData.{FileData, file_data_serialize}
use embedded_cfdp.Pdu.Bounds.{header-Contained, crc_append-Contained, file_data-Contained}
use embedded_cfdp.Directive.Ack.{Ack, ack_serialize}
use embedded_cfdp.Directive.Prompt.{prompt_serialize}
use embedded_cfdp.Directive.KeepAlive.{keep_alive_serialize}
use embedded_cfdp.Directive.Eof.{Eof, eof_serialize}
use embedded_cfdp.Directive.Nak.{Nak, nak_serialize}
use embedded_cfdp.Directive.Metadata.{Metadata, metadata_serialize}
use embedded_cfdp.Directive.Finished.{Finished, finished_serialize}
use embedded_cfdp.Directive.Bounds.{
  ack-Contained, prompt-Contained, keep_alive-Contained, eof-Contained, nak-Contained,
  metadata-Contained, finished-Contained,
}

-- Any structures, valid or not, and a buffer length that the memory has: each serialiser of
-- src/cfdp_directive.c answers at most that length, and the memory behind it stays as it was.
pub directive_serializers-Contained :
    (buf : List ℕ) (buf_len : ℕ)
    → buf_len ≤ length buf
    → (ack : Ack) (response progress large_file_flag : ℕ) (eof : Eof) (nak : Nak) (md : Metadata)
      (fin : Finished)
    → Contained buf_len buf (ack_serialize (some ack) (some buf) buf_len)
      × Contained buf_len buf (prompt_serialize response (some buf) buf_len)
      × Contained buf_len buf (keep_alive_serialize progress large_file_flag (some buf) buf_len)
      × Contained buf_len buf (eof_serialize (some eof) large_file_flag (some buf) buf_len)
      × Contained buf_len buf (nak_serialize (some nak) large_file_flag (some buf) buf_len)
      × Contained buf_len buf (metadata_serialize (some md) large_file_flag (some buf) buf_len)
      × Contained buf_len buf (finished_serialize (some fin) (some buf) buf_len)
directive_serializers-Contained buf buf_len inside ack response progress large_file_flag eof nak md
      fin =
    (
      ack-Contained buf buf_len inside ack,
      prompt-Contained buf buf_len inside response,
      keep_alive-Contained buf buf_len inside progress large_file_flag,
      eof-Contained buf buf_len inside eof large_file_flag,
      nak-Contained buf buf_len inside nak large_file_flag,
      metadata-Contained buf buf_len inside md large_file_flag,
      finished-Contained buf buf_len inside fin,
    )

-- Any values, names and codes, valid or not, and a buffer length that the memory has: each
-- serialiser of src/cfdp_tlv.c answers at most that length, and the memory behind it stays as
-- it was.
pub tlv_serializers-Contained :
    (buf : List ℕ) (buf_len : ℕ)
    → buf_len ≤ length buf
    → (value : Pointer) (value_len : ℕ) (tlv : Tlv)
      (entity_id id_len condition_code handler_code : ℕ) (req : FilestoreRequest)
      (resp : FilestoreResponse)
    → Contained buf_len buf (lv_serialize value value_len (some buf) buf_len)
      × Contained buf_len buf (tlv_serialize (some tlv) (some buf) buf_len)
      × Contained buf_len buf (entity_id_tlv_serialize entity_id id_len (some buf) buf_len)
      × Contained buf_len buf
          (fault_handler_tlv_serialize condition_code handler_code (some buf) buf_len)
      × Contained buf_len buf (filestore_request_tlv_serialize (some req) (some buf) buf_len)
      × Contained buf_len buf (filestore_response_tlv_serialize (some resp) (some buf) buf_len)
tlv_serializers-Contained buf buf_len inside value value_len tlv entity_id id_len condition_code
      handler_code req resp =
    (
      lv-Contained buf buf_len inside value value_len,
      tlv-Contained buf buf_len inside tlv,
      entity_id_tlv-Contained buf buf_len inside entity_id id_len,
      fault_handler_tlv-Contained buf buf_len inside condition_code handler_code,
      filestore_request_tlv-Contained buf buf_len inside req,
      filestore_response_tlv-Contained buf buf_len inside resp,
    )

-- Any header and payload, valid or not, a buffer length that the memory has, a payload of fewer
-- than 2 ^ 63 octets, and a PDU whose CRC ends below 2 ^ 64: the header and File Data serialisers
-- and `cfdp_pdu_crc_append` answer at most that length, and the memory behind it stays as it
-- was.
pub pdu_serializers-Contained :
    (buf : List ℕ) (buf_len : ℕ)
    → buf_len ≤ length buf
    → (h : Header) (fd : FileData) (large_file_flag segment_metadata_flag pdu_len : ℕ)
    → fd.file_data_len < 2 ^ 63
    → pdu_len + 2 < 2 ^ 64
    → Contained buf_len buf (header_serialize (some h) (some buf) buf_len)
      × Contained buf_len buf
          (file_data_serialize (some fd) large_file_flag segment_metadata_flag (some buf) buf_len)
      × Contained buf_len buf (crc_append (some buf) pdu_len buf_len)
pdu_serializers-Contained buf buf_len inside h fd large_file_flag segment_metadata_flag pdu_len
      object word =
    (
      header-Contained buf buf_len inside h,
      file_data-Contained buf buf_len inside fd large_file_flag segment_metadata_flag object,
      crc_append-Contained buf buf_len inside pdu_len word,
    )
