-- ===== src/Tlv/Filestore/Actions.antt =====
-- The actions of a filestore TLV, and which of them take a second file name.
use embedded_cfdp.Base.{ℕ, ◌≡◌, refl, ap, sym, ◌∙◌, arith, Bool, true, false}
use embedded_cfdp.Common.Enumeration.{covered-Named}
use embedded_cfdp.Tlv.Codes.{
  FilestoreAction, create_file, delete_file, rename_file, append_file, replace_file,
  create_directory, remove_directory, deny_file, deny_directory, filestore_action_wire,
  filestore_action_enumeration,
}
use embedded_cfdp.Tlv.Filestore.{filestore_action_valid, filestore_action_has_second_filename}

-- Renaming, appending and replacing work on two files, the other actions on one.
abbrev pub takes_two : FilestoreAction → Bool
takes_two create_file = false
takes_two delete_file = false
takes_two rename_file = true
takes_two append_file = true
takes_two replace_file = true
takes_two create_directory = false
takes_two remove_directory = false
takes_two deny_file = false
takes_two deny_directory = false

takes_two_lem :
    (a : FilestoreAction)
    → filestore_action_has_second_filename (filestore_action_wire a) ≡ takes_two a
unfolding filestore_action_has_second_filename
takes_two_lem create_file = refl
takes_two_lem delete_file = refl
takes_two_lem rename_file = refl
takes_two_lem append_file = refl
takes_two_lem replace_file = refl
takes_two_lem create_directory = refl
takes_two_lem remove_directory = refl
takes_two_lem deny_file = refl
takes_two_lem deny_directory = refl

-- A member of the enumeration with this value, and whether the code reads two names for it.
pub record Action (code : ℕ) : Type 0 where
  pub action : FilestoreAction
  pub wire : filestore_action_wire action ≡ code
  pub names : filestore_action_has_second_filename code ≡ takes_two action

pub valid-Action : (code : ℕ) → filestore_action_valid code ≡ true → Action code
unfolding filestore_action_valid
valid-Action code valid =
    let (action, e) = covered-Named 9 code refl (ground arith) in
    record {
      action = action;
      wire = e;
      names = sym (ap filestore_action_has_second_filename e) ∙ takes_two_lem action;
    }

all_valid : (a : FilestoreAction) → filestore_action_valid (filestore_action_wire a) ≡ true
unfolding filestore_action_valid
all_valid create_file = refl
all_valid delete_file = refl
all_valid rename_file = refl
all_valid append_file = refl
all_valid replace_file = refl
all_valid create_directory = refl
all_valid remove_directory = refl
all_valid deny_file = refl
all_valid deny_directory = refl

-- The code admits the value of every member.
pub wire-valid :
    (a : FilestoreAction) (code : ℕ)
    → filestore_action_wire a ≡ code
    → (filestore_action_valid code ≡ true)
      × (filestore_action_has_second_filename code ≡ takes_two a)
wire-valid a code e = (
  ap filestore_action_valid (sym e) ∙ all_valid a,
  ap filestore_action_has_second_filename (sym e) ∙ takes_two_lem a,
)
