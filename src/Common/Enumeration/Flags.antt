-- ===== src/Common/Enumeration/Flags.antt =====
-- The enumerations of the fields of one or two bits in the headers of PDUs.
use embedded_cfdp.Base.{ℕ, ◌≡◌, refl, List, [], ◌∷◌, some}
use embedded_cfdp.Common.Enumeration.{Enumeration, find}

-- `cfdp_pdu_type_t`
pub data PduType : Type 0 where
  directive : PduType
  file_data : PduType

abbrev pub pdu_type_wire : PduType → ℕ
pdu_type_wire directive = 0
pdu_type_wire file_data = 1

abbrev pub pdu_type_members : List PduType
pdu_type_members = directive ∷ file_data ∷ []

pub pdu_type_found : (a : PduType) → find pdu_type_wire pdu_type_members (pdu_type_wire a) ≡ some a
pdu_type_found directive = refl
pdu_type_found file_data = refl

instance abbrev pub pdu_type_enumeration : Enumeration PduType
pdu_type_enumeration = record {
  wire = pdu_type_wire;
  bits = 1;
  members = pdu_type_members;
  fits = refl;
  found = pdu_type_found;
}

-- `cfdp_direction_t`
pub data Direction : Type 0 where
  toward_receiver : Direction
  toward_sender : Direction

abbrev pub direction_wire : Direction → ℕ
direction_wire toward_receiver = 0
direction_wire toward_sender = 1

abbrev pub direction_members : List Direction
direction_members = toward_receiver ∷ toward_sender ∷ []

pub direction_found :
    (a : Direction) → find direction_wire direction_members (direction_wire a) ≡ some a
direction_found toward_receiver = refl
direction_found toward_sender = refl

instance abbrev pub direction_enumeration : Enumeration Direction
direction_enumeration = record {
  wire = direction_wire;
  bits = 1;
  members = direction_members;
  fits = refl;
  found = direction_found;
}

-- `cfdp_transmission_mode_t`
pub data TransmissionMode : Type 0 where
  acknowledged : TransmissionMode
  unacknowledged : TransmissionMode

abbrev pub transmission_mode_wire : TransmissionMode → ℕ
transmission_mode_wire acknowledged = 0
transmission_mode_wire unacknowledged = 1

abbrev pub transmission_mode_members : List TransmissionMode
transmission_mode_members = acknowledged ∷ unacknowledged ∷ []

pub transmission_mode_found :
    (a : TransmissionMode)
    → find transmission_mode_wire transmission_mode_members (transmission_mode_wire a) ≡ some a
transmission_mode_found acknowledged = refl
transmission_mode_found unacknowledged = refl

instance abbrev pub transmission_mode_enumeration : Enumeration TransmissionMode
transmission_mode_enumeration = record {
  wire = transmission_mode_wire;
  bits = 1;
  members = transmission_mode_members;
  fits = refl;
  found = transmission_mode_found;
}

-- `cfdp_crc_flag_t`
pub data CrcFlag : Type 0 where
  crc_absent : CrcFlag
  crc_present : CrcFlag

abbrev pub crc_flag_wire : CrcFlag → ℕ
crc_flag_wire crc_absent = 0
crc_flag_wire crc_present = 1

abbrev pub crc_flag_members : List CrcFlag
crc_flag_members = crc_absent ∷ crc_present ∷ []

pub crc_flag_found : (a : CrcFlag) → find crc_flag_wire crc_flag_members (crc_flag_wire a) ≡ some a
crc_flag_found crc_absent = refl
crc_flag_found crc_present = refl

instance abbrev pub crc_flag_enumeration : Enumeration CrcFlag
crc_flag_enumeration = record {
  wire = crc_flag_wire;
  bits = 1;
  members = crc_flag_members;
  fits = refl;
  found = crc_flag_found;
}

-- `cfdp_large_file_flag_t`
pub data LargeFileFlag : Type 0 where
  file_size_small : LargeFileFlag
  file_size_large : LargeFileFlag

abbrev pub large_file_flag_wire : LargeFileFlag → ℕ
large_file_flag_wire file_size_small = 0
large_file_flag_wire file_size_large = 1

abbrev pub large_file_flag_members : List LargeFileFlag
large_file_flag_members = file_size_small ∷ file_size_large ∷ []

pub large_file_flag_found :
    (a : LargeFileFlag)
    → find large_file_flag_wire large_file_flag_members (large_file_flag_wire a) ≡ some a
large_file_flag_found file_size_small = refl
large_file_flag_found file_size_large = refl

instance abbrev pub large_file_flag_enumeration : Enumeration LargeFileFlag
large_file_flag_enumeration = record {
  wire = large_file_flag_wire;
  bits = 1;
  members = large_file_flag_members;
  fits = refl;
  found = large_file_flag_found;
}

-- `cfdp_seg_ctrl_t`
pub data SegCtrl : Type 0 where
  boundaries_not_preserved : SegCtrl
  boundaries_preserved : SegCtrl

abbrev pub seg_ctrl_wire : SegCtrl → ℕ
seg_ctrl_wire boundaries_not_preserved = 0
seg_ctrl_wire boundaries_preserved = 1

abbrev pub seg_ctrl_members : List SegCtrl
seg_ctrl_members = boundaries_not_preserved ∷ boundaries_preserved ∷ []

pub seg_ctrl_found : (a : SegCtrl) → find seg_ctrl_wire seg_ctrl_members (seg_ctrl_wire a) ≡ some a
seg_ctrl_found boundaries_not_preserved = refl
seg_ctrl_found boundaries_preserved = refl

instance abbrev pub seg_ctrl_enumeration : Enumeration SegCtrl
seg_ctrl_enumeration = record {
  wire = seg_ctrl_wire;
  bits = 1;
  members = seg_ctrl_members;
  fits = refl;
  found = seg_ctrl_found;
}

-- `cfdp_seg_metadata_flag_t`
pub data SegMetadataFlag : Type 0 where
  seg_metadata_absent : SegMetadataFlag
  seg_metadata_present : SegMetadataFlag

abbrev pub seg_metadata_flag_wire : SegMetadataFlag → ℕ
seg_metadata_flag_wire seg_metadata_absent = 0
seg_metadata_flag_wire seg_metadata_present = 1

abbrev pub seg_metadata_flag_members : List SegMetadataFlag
seg_metadata_flag_members = seg_metadata_absent ∷ seg_metadata_present ∷ []

pub seg_metadata_flag_found :
    (a : SegMetadataFlag)
    → find seg_metadata_flag_wire seg_metadata_flag_members (seg_metadata_flag_wire a) ≡ some a
seg_metadata_flag_found seg_metadata_absent = refl
seg_metadata_flag_found seg_metadata_present = refl

instance abbrev pub seg_metadata_flag_enumeration : Enumeration SegMetadataFlag
seg_metadata_flag_enumeration = record {
  wire = seg_metadata_flag_wire;
  bits = 1;
  members = seg_metadata_flag_members;
  fits = refl;
  found = seg_metadata_flag_found;
}

-- `cfdp_record_continuation_t`
pub data RecordContinuation : Type 0 where
  record_cont_neither : RecordContinuation
  record_cont_start : RecordContinuation
  record_cont_end : RecordContinuation
  record_cont_start_and_end : RecordContinuation

abbrev pub record_continuation_wire : RecordContinuation → ℕ
record_continuation_wire record_cont_neither = 0
record_continuation_wire record_cont_start = 1
record_continuation_wire record_cont_end = 2
record_continuation_wire record_cont_start_and_end = 3

abbrev pub record_continuation_members : List RecordContinuation
record_continuation_members =
    record_cont_neither ∷ record_cont_start ∷ record_cont_end ∷ record_cont_start_and_end ∷ []

pub record_continuation_found :
    (a : RecordContinuation)
    → find record_continuation_wire record_continuation_members (record_continuation_wire a)
      ≡ some a
record_continuation_found record_cont_neither = refl
record_continuation_found record_cont_start = refl
record_continuation_found record_cont_end = refl
record_continuation_found record_cont_start_and_end = refl

instance abbrev pub record_continuation_enumeration : Enumeration RecordContinuation
record_continuation_enumeration = record {
  wire = record_continuation_wire;
  bits = 2;
  members = record_continuation_members;
  fits = refl;
  found = record_continuation_found;
}
