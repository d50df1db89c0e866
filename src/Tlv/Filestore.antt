-- ===== src/Tlv/Filestore.antt =====
-- The Filestore Request and Filestore Response TLVs: what both share, and a module for each.
pub mod FileNames
pub mod Finish
pub mod Request
pub mod Response
pub mod Bounds
pub mod Accepted
pub mod Actions
use embedded_cfdp.Base.{
  ℕ, ◌+◌, ◌-◌, List, [], none, some, Bool, not, ◌||◌, ltb, leb, ◌==◌, if◌then◌else◌, deref, set,
  get_or, drop, bit_and, u8, ◌>>◌,
}
use embedded_cfdp.Buffer.{Pointer, put_back}
use embedded_cfdp.Tlv.{Tlv, tlv_header_len, lv_serialize, lv_deserialize}

-- `cfdp_filestore_action_t`
abbrev pub action_rename_file : ℕ
action_rename_file = 0x2

abbrev pub action_append_file : ℕ
action_append_file = 0x3

abbrev pub action_replace_file : ℕ
action_replace_file = 0x4

abbrev pub action_deny_directory : ℕ
action_deny_directory = 0x8

-- `cfdp_filestore_action_has_second_filename`
unfoldable pub filestore_action_has_second_filename : ℕ → Bool
filestore_action_has_second_filename action_code =
    (action_code == action_rename_file)
    || (action_code == action_append_file)
    || (action_code == action_replace_file)

-- `cfdp_filestore_action_valid`
unfoldable pub filestore_action_valid : ℕ → Bool
filestore_action_valid action_code = leb action_code action_deny_directory

-- `cfdp_filestore_tlv_action`
abbrev pub filestore_tlv_action : Tlv → ℕ
filestore_tlv_action tlv = bit_and (get_or (deref [] tlv.value) 0 0 >> 4) 0xF

-- `cfdp_filestore_names_serialize`, on the memory behind `buf`
pub filestore_names_serialize : Pointer → ℕ → Pointer → ℕ → Bool → List ℕ → ℕ → ℕ × List ℕ
filestore_names_serialize first first_len second second_len has_second buf buf_len =
    let (pos, first_out) = lv_serialize first first_len (some buf) buf_len in
    let one = deref buf first_out in
    let (n, tail) = lv_serialize second second_len (some (drop pos one)) (buf_len - pos) in
    let two = put_back one pos tail in
    if pos == 0
    then (0, one)
    else if not has_second
    then (pos, one)
    else if n == 0
    then (0, two)
    else (pos + n, two)

-- What the out parameters of `cfdp_filestore_names_deserialize` point to.
pub record Names : Type 0 where
  pub first : Pointer
  pub first_len : ℕ
  pub second : Pointer
  pub second_len : ℕ

-- The names after the `memset` of the structure that holds them.
abbrev pub no_names : Names
no_names = record { first = none; first_len = 0; second = none; second_len = 0 }

-- `cfdp_filestore_names_deserialize`
pub filestore_names_deserialize : List ℕ → ℕ → Bool → Names → ℕ × Names
filestore_names_deserialize buf buf_len has_second names =
    let (pos, first, first_len) =
      lv_deserialize (some buf) buf_len (some names.first) (some names.first_len) in
    let one = record names { first = deref none first; first_len = deref 0 first_len } in
    let (n, second, second_len) =
      lv_deserialize (some (drop pos buf)) (buf_len - pos) (some one.second)
        (some one.second_len) in
    let two = record one { second = deref none second; second_len = deref 0 second_len } in
    if pos == 0
    then (0, one)
    else if not has_second
    then (pos, one)
    else if n == 0
    then (0, two)
    else (pos + n, two)

-- `cfdp_filestore_tlv_finish`
pub filestore_tlv_finish : List ℕ → ℕ → ℕ → ℕ × List ℕ
filestore_tlv_finish buf type end_pos =
    let value_len = end_pos - tlv_header_len in
    if ltb 255 value_len then (0, buf) else (end_pos, set (set buf 0 type) 1 (u8 value_len))
