-- ===== src/Nml/Validation/Tests.antt =====
-- The checks on concrete commands.
use linuxcnc_ctrl.Prelude.{ℤ, pos, negsuc, ◌≡◌, refl, true, false, none, some, [], ◌∷◌}
use linuxcnc_ctrl.Doubles.{sample_doubles}
use linuxcnc_ctrl.Nml.Validation.{
  Kind, Tool, Command, Configuration, valid, invalid_argument, status_unavailable, configured_index,
  indexed, finite, nonnegative, all_finite, validate_tool, joint, validate_kind,
  validate_nml_command, and_then, reject_if, if_present,
}
use linuxcnc_ctrl.Nml.Validation.Verdict.{validate_nml_command-verdict}

abbrev end_mill : Tool ℤ
end_mill = record {
  tool_no = pos 4;
  pocket_no = pos 1001;
  offset = pos 0 ∷ pos 0 ∷ pos 7 ∷ pos 0 ∷ pos 0 ∷ pos 0 ∷ pos 0 ∷ pos 0 ∷ pos 0 ∷ [];
  wear_offset = pos 0 ∷ pos 0 ∷ pos 0 ∷ pos 0 ∷ pos 0 ∷ pos 0 ∷ pos 0 ∷ pos 0 ∷ pos 0 ∷ [];
  offset_values = 3;
  wear_offset_values = 0;
  diameter = pos 6;
  front_angle = pos 0;
  back_angle = pos 0;
  orientation = pos 9;
  comment = 54 ∷ 109 ∷ 109 ∷ [];
  has_pocket_no = false;
  has_offset = true;
  has_wear_offset = false;
  has_diameter = true;
  has_front_angle = false;
  has_back_angle = false;
  has_orientation = true;
  has_comment = true;
}

abbrev command_of : Kind → ℤ → Command ℤ
command_of kind integer = record { kind = kind; integer = integer; number = pos 5; tool = end_mill }

abbrev mill : Configuration
mill = record { spindles = pos 1; joints = pos 3 }

validate_nml_command-verdict_example :
    (validate_nml_command sample_doubles (command_of Kind.spindle_on (pos 1)) (some mill)).code
    ≡ invalid_argument
validate_nml_command-verdict_example =
    validate_nml_command-verdict sample_doubles (command_of Kind.spindle_on (pos 1)) (some mill)

home_all_needs_status :
    (validate_nml_command sample_doubles (command_of Kind.home_joint (negsuc 0)) none).code
    ≡ status_unavailable
unfolding validate_nml_command validate_kind joint indexed
home_all_needs_status = refl

home_all :
    (validate_nml_command sample_doubles (command_of Kind.home_joint (negsuc 0)) (some mill)).code
    ≡ valid
unfolding validate_nml_command validate_kind joint indexed
home_all = refl

last_joint :
    (validate_nml_command sample_doubles (command_of Kind.unhome_joint (pos 2)) (some mill)).code
    ≡ valid
unfolding validate_nml_command validate_kind joint indexed configured_index reject_if
last_joint = refl

tool_entry :
    (validate_nml_command sample_doubles (command_of Kind.set_tool (pos 0)) none).code ≡ valid
unfolding validate_nml_command validate_kind validate_tool and_then reject_if if_present all_finite
    finite nonnegative
tool_entry = refl
