-- ===== src/Nml/Validation.antt =====
-- The checks on a command before an NML message is made of it: validate_nml_command of
-- native/server/src/linuxcnc/command_validation.cc, with the kinds and fields of
-- native/server/include/linuxcnc_grpc/linuxcnc/nml_adapter.hpp that it reads. A std::int32_t is an
-- integer, a std::array of nine doubles is a list of as many, and a comment is the list of its bytes.
pub mod Table
pub mod Verdict
mod Tests
use Prim.Native.String.{◌++◌ as concat}
use linuxcnc_ctrl.Doubles.{Doubles}
use linuxcnc_ctrl.Prelude.{
  ℕ, ℤ, pos, negsuc, ◌==ℤ◌, ltb_ℤ, String, Bool, true, false, not, ◌&&◌, ◌||◌, Option, none, some,
  List, [], ◌∷◌, if◌then◌else◌, length, take, leb, ltb, ◌==◌,
}

pub data Kind : Type 0 where
  set_task_mode set_task_state task_plan_synch reset_interpreter program_open program_close : Kind
  run pause resume step reverse forward stop_program abort_task : Kind
  set_optional_stop set_block_delete mdi set_traj_mode : Kind
  set_max_velocity set_feed_rate set_spindle_override override_limits teleop_enable : Kind
  set_feed_override_enable set_spindle_override_enable set_feed_hold_enable : Kind
  set_adaptive_feed_enable home_joint unhome_joint set_min_position_limit : Kind
  set_max_position_limit spindle_on spindle_increase spindle_decrease spindle_off : Kind
  spindle_brake set_mist set_flood load_tool_table set_tool delete_tool : Kind
  set_digital_output set_analog_output set_debug_level send_operator_error : Kind
  send_operator_text send_operator_display set_rapid_rate set_joint_availability : Kind
  set_spindle_availability : Kind

pub record Tool (D : Type 0) : Type 0 where
  pub tool_no : ℤ
  pub pocket_no : ℤ
  pub offset : List D
  pub wear_offset : List D
  pub offset_values : ℕ
  pub wear_offset_values : ℕ
  pub diameter : D
  pub front_angle : D
  pub back_angle : D
  pub orientation : ℤ
  pub comment : List ℕ
  pub has_pocket_no : Bool
  pub has_offset : Bool
  pub has_wear_offset : Bool
  pub has_diameter : Bool
  pub has_front_angle : Bool
  pub has_back_angle : Bool
  pub has_orientation : Bool
  pub has_comment : Bool

-- The fields that the checks read.
pub record Command (D : Type 0) : Type 0 where
  pub kind : Kind
  pub integer : ℤ
  pub number : D
  pub tool : Tool D

-- What the checks read of a status snapshot: the counts of `motion_stat.traj`.
pub record Configuration : Type 0 where
  pub spindles : ℤ
  pub joints : ℤ

pub data Code : Type 0 where
  valid invalid_argument status_unavailable : Code

pub record Validation : Type 0 where
  pub code : Code
  pub message : String

abbrev pub is_valid : Validation → Bool
is_valid v = elim v.code [ valid ↦ true | invalid_argument ↦ false | status_unavailable ↦ false ]

abbrev pub passed : Validation
passed = record { code = valid; message = "" }

abbrev pub invalid : String → Validation
invalid message = record { code = invalid_argument; message = message }

abbrev pub unavailable : Validation
unavailable = record {
  code = status_unavailable;
  message = "LinuxCNC configuration status is unavailable";
}

-- `if (!result) return result;` before the rest of a function.
pub and_then : Validation → Validation → Validation
and_then result rest = if is_valid result then rest else result

-- `if (failed) return invalid(message);` before the rest of a function.
pub reject_if : Bool → String → Validation → Validation
reject_if failed message rest = if failed then invalid message else rest

-- A check that is made only of a field that is present.
pub if_present : Bool → Validation → Validation
if_present has result = if has then result else passed

configured_index : ℤ → ℤ → String → Validation
unfolding reject_if
configured_index index count field =
    reject_if (ltb_ℤ index (pos 0) || not (ltb_ℤ index count))
      (concat field " is out of configured range") passed

-- `if (!configuration) return unavailable();` before the check of an index. The values in `accepted`
-- are accepted once there is a configuration.
indexed : Option Configuration → (Configuration → ℤ) → Bool → ℤ → String → Validation
unfolding configured_index
indexed none count accepted index field = unavailable
indexed (some configuration) count accepted index field =
    if accepted then passed else configured_index index (count configuration) field

-- `comment.find(byte) != npos`.
abbrev pub contains : ℕ → List ℕ → Bool
contains byte [] = false
contains byte (b ∷ bs) = b == byte || contains byte bs

module _ (d : Doubles) where
  open d use {Double, is_finite, less, decimal}

  finite : Double → String → Validation
  unfolding reject_if
  finite value field = reject_if (not (is_finite value)) (concat field " must be finite") passed

  nonnegative : Double → String → Validation
  unfolding finite reject_if and_then
  nonnegative value field =
      and_then (finite value field)
        (reject_if (less value (decimal 0 0)) (concat field " must not be negative") passed)

  -- The loops over the offsets.
  all_finite : List Double → String → Validation
  unfolding finite and_then
  all_finite [] field = passed
  all_finite (value ∷ values) field = and_then (finite value field) (all_finite values field)

  validate_tool : Tool Double → Validation
  unfolding finite nonnegative all_finite reject_if and_then if_present
  validate_tool t = reject_if (not (ltb_ℤ (pos 0) t.tool_no)) "tool number must be positive" (
      reject_if
        (t.has_pocket_no && (not (ltb_ℤ (pos 0) t.pocket_no) || ltb_ℤ (pos 1000) t.pocket_no))
        "tool pocket must be between 1 and 1000"
        (reject_if (ltb 9 t.offset_values || ltb 9 t.wear_offset_values)
          "tool offsets must contain at most 9 axes"
          (and_then
            (if_present t.has_offset (all_finite (take t.offset_values t.offset) "tool offset"))
            (and_then
              (if_present t.has_wear_offset
                (all_finite (take t.wear_offset_values t.wear_offset) "tool wear offset"))
              (and_then (if_present t.has_diameter (nonnegative t.diameter "tool diameter")) (
                and_then (if_present t.has_front_angle (finite t.front_angle "tool front angle")) (
                  and_then (if_present t.has_back_angle (finite t.back_angle "tool back angle")) (
                    reject_if
                      (t.has_orientation
                        && (ltb_ℤ t.orientation (pos 0) || ltb_ℤ (pos 9) t.orientation))
                      "tool orientation must be between 0 and 9"
                      (reject_if
                        (t.has_comment
                          && (leb 40 (length t.comment)
                              || contains 10 t.comment
                              || contains 13 t.comment))
                        "tool comment must be at most 39 bytes without newlines" passed)))))))))

  spindle : Command Double → Option Configuration → Validation
  unfolding indexed
  spindle c configuration = indexed configuration (λ s. s.spindles) false c.integer "spindle index"

  joint : Command Double → Option Configuration → Bool → Validation
  unfolding indexed
  joint c configuration accepted =
      indexed configuration (λ s. s.joints) accepted c.integer "joint index"

  -- The cases of the switch.
  validate_kind : Kind → Command Double → Option Configuration → Validation
  unfolding finite nonnegative spindle joint validate_tool and_then
  validate_kind set_max_velocity c configuration = nonnegative c.number "maximum velocity"
  validate_kind set_feed_rate c configuration = nonnegative c.number "feed override"
  validate_kind set_rapid_rate c configuration = nonnegative c.number "rapid override"
  validate_kind set_spindle_override c configuration =
      and_then (nonnegative c.number "spindle override") (spindle c configuration)
  validate_kind set_spindle_override_enable c configuration = spindle c configuration
  validate_kind spindle_increase c configuration = spindle c configuration
  validate_kind spindle_decrease c configuration = spindle c configuration
  validate_kind spindle_off c configuration = spindle c configuration
  validate_kind spindle_brake c configuration = spindle c configuration
  validate_kind spindle_on c configuration =
      and_then (finite c.number "spindle speed") (spindle c configuration)
  validate_kind set_spindle_availability c configuration = spindle c configuration
  validate_kind set_joint_availability c configuration = joint c configuration false
  validate_kind home_joint c configuration = joint c configuration (c.integer ==ℤ negsuc 0)
  validate_kind unhome_joint c configuration =
      joint c configuration (c.integer ==ℤ negsuc 1 || c.integer ==ℤ negsuc 0)
  validate_kind set_min_position_limit c configuration =
      and_then (finite c.number "position limit") (joint c configuration false)
  validate_kind set_max_position_limit c configuration =
      and_then (finite c.number "position limit") (joint c configuration false)
  validate_kind set_analog_output c configuration = finite c.number "analog output value"
  validate_kind set_tool c configuration = validate_tool c.tool
  validate_kind delete_tool c configuration =
      if ltb_ℤ (pos 0) c.integer then passed else invalid "tool number must be positive"
  validate_kind _ c configuration = passed

  pub validate_nml_command : Command Double → Option Configuration → Validation
  unfolding validate_kind
  validate_nml_command c configuration = validate_kind c.kind c configuration
