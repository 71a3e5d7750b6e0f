-- ===== src/Nml/Validation/Verdict.antt =====
-- The checks of validate_nml_command say what the table of demands says.
use linuxcnc_ctrl.Doubles.{Doubles}
use linuxcnc_ctrl.Prelude.{
  ℕ, ℤ, pos, negsuc, ◌==ℤ◌, ltb_ℤ, String, Bool, true, false, not, ◌&&◌, ◌||◌, Option, none, some,
  List, [], ◌∷◌, if◌then◌else◌, length, take, leb, ltb, arith, ◌≡◌, refl,
}
use linuxcnc_ctrl.Nml.Validation.{
  Kind, Tool, Command, Configuration, Validation, passed, invalid, and_then, reject_if,
  configured_index, indexed, contains, finite, nonnegative, all_finite, if_present, validate_tool,
  spindle, joint, validate_kind, validate_nml_command,
}
use linuxcnc_ctrl.Nml.Validation.Table.{
  IndexDemand, no_index, spindle_index, joint_index, index_demand, below, is_among, code_if,
  verdict, is_nonnegative, are_finite, is_sound, is_sound_by_itself,
}

module _ (d : Doubles) where
  open d use {Double, is_finite, less, decimal}

  -- A check whose code says just whether the condition holds.
  record Says (v : Validation) (ok : Bool) : Type 0 where
    pub says : v.code ≡ code_if ok

  reject-Says :
      (failed good ok : Bool) (message : String) (rest : Validation)
      → failed ≡ not good
      → Says rest ok
      → Says (reject_if failed message rest) (good && ok)
  unfolding reject_if
  reject-Says failed true ok message rest e h = record { says = ground (arith, e, h.says) }
  reject-Says failed false ok message rest e h = record { says = ground (arith, e, h.says) }

  and_then-Says :
      (v w : Validation) (a b : Bool) → Says v a → Says w b → Says (and_then v w) (a && b)
  unfolding and_then
  and_then-Says v w true b h k = record { says = ground (arith, h.says, k.says) }
  and_then-Says v w false b h k = record { says = ground (arith, h.says, k.says) }

  if_present-Says :
      (has ok : Bool) (v : Validation) → Says v ok → Says (if_present has v) (not has || ok)
  unfolding if_present
  if_present-Says true ok v h = h
  if_present-Says false ok v h = record { says = refl }

  finite-Says : (x : Double) (field : String) → Says (finite d x field) (is_finite x)
  unfolding finite reject_if
  finite-Says x field = record { says = ground arith }

  nonnegative-Says :
      (x : Double) (field : String) → Says (nonnegative d x field) (is_nonnegative d x)
  unfolding nonnegative finite reject_if and_then
  nonnegative-Says x field = record { says = ground arith }

  all_finite-Says :
      (xs : List Double) (field : String) → Says (all_finite d xs field) (are_finite d xs)
  unfolding all_finite
  all_finite-Says [] field = record { says = refl }
  all_finite-Says (x ∷ xs) field =
      and_then-Says _ _ _ _ (finite-Says x field) (all_finite-Says xs field)

  outside : (has low high : Bool) → (has && (not low || high)) ≡ not (not has || low && not high)
  outside true true true = refl
  outside true true false = refl
  outside true false high = refl
  outside false low high = refl

  outside_either :
      (has low high : Bool) → (has && (low || high)) ≡ not (not has || not low && not high)
  outside_either true true high = refl
  outside_either true false true = refl
  outside_either true false false = refl
  outside_either false low high = refl

  too_many : (m n : ℕ) → (ltb 9 m || ltb 9 n) ≡ not (leb m 9 && leb n 9)
  too_many m n = ground arith

  bad_comment :
      (has : Bool) (n : ℕ) (a b : Bool)
      → (has && (leb 40 n || a || b)) ≡ not (not has || ltb n 40 && not a && not b)
  bad_comment has n a b = ground arith

  last-Says :
      (failed good : Bool) (message : String)
      → failed ≡ not good
      → Says (reject_if failed message passed) good
  unfolding reject_if
  last-Says failed true message e = record { says = ground (arith, e) }
  last-Says failed false message e = record { says = ground (arith, e) }

  validate_tool-Says : (t : Tool Double) → Says (validate_tool d t) (is_sound d t)
  unfolding validate_tool
  validate_tool-Says t = reject-Says _ (ltb_ℤ (pos 0) t.tool_no) _ _ _ refl (
      reject-Says _ _ _ _ _
        (outside t.has_pocket_no (ltb_ℤ (pos 0) t.pocket_no) (ltb_ℤ (pos 1000) t.pocket_no))
        (reject-Says _ _ _ _ _ (too_many t.offset_values t.wear_offset_values) (
          and_then-Says _ _ _ _
            (if_present-Says t.has_offset _ _
              (all_finite-Says (take t.offset_values t.offset) "tool offset"))
            (and_then-Says _ _ _ _
              (if_present-Says t.has_wear_offset _ _
                (all_finite-Says (take t.wear_offset_values t.wear_offset) "tool wear offset"))
              (and_then-Says _ _ _ _
                (if_present-Says t.has_diameter _ _ (nonnegative-Says t.diameter "tool diameter"))
                (and_then-Says _ _ _ _
                  (if_present-Says t.has_front_angle _ _
                    (finite-Says t.front_angle "tool front angle"))
                  (and_then-Says _ _ _ _
                    (if_present-Says t.has_back_angle _ _
                      (finite-Says t.back_angle "tool back angle"))
                    (reject-Says _ _ _ _ _
                      (outside_either t.has_orientation (ltb_ℤ t.orientation (pos 0))
                        (ltb_ℤ (pos 9) t.orientation))
                      (last-Says _ _ _ (
                        bad_comment t.has_comment (length t.comment) (contains 10 t.comment)
                          (contains 13 t.comment)))))))))))

  alone :
      (v : Validation) (ok : Bool) (i : ℤ) (configuration : Option Configuration)
      → Says v ok
      → v.code ≡ verdict ok no_index i configuration
  alone v true i configuration h = h.says
  alone v false i configuration h = h.says

  before :
      (v w : Validation) (ok : Bool) (demand : IndexDemand) (i : ℤ)
      (configuration : Option Configuration)
      → Says v ok
      → w.code ≡ verdict true demand i configuration
      → (and_then v w).code ≡ verdict ok demand i configuration
  unfolding and_then
  before v w true demand i configuration h k = ground (arith, h.says, k)
  before v w false demand i configuration h k = ground (arith, h.says)

  configured_index-code :
      (i count : ℤ) (field : String)
      → (configured_index i count field).code ≡ code_if (below i count)
  unfolding configured_index reject_if
  configured_index-code i count field = ground arith

  spindle-code :
      (c : Command Double) (configuration : Option Configuration)
      → (spindle d c configuration).code ≡ verdict true spindle_index c.integer configuration
  unfolding spindle indexed
  spindle-code c none = refl
  spindle-code c (some s) = configured_index-code c.integer s.spindles "spindle index"

  joint-code :
      (c : Command Double) (configuration : Option Configuration) (others : List ℤ)
      (accepted : Bool)
      → accepted ≡ is_among c.integer others
      → (joint d c configuration accepted).code
        ≡ verdict true (joint_index others) c.integer configuration
  unfolding joint indexed
  joint-code c none others accepted h = refl
  joint-code c (some s) others accepted h =
      ground (arith, h, configured_index-code c.integer s.joints "joint index")

  delete-Says :
      (i : ℤ)
      → Says
          (if ltb_ℤ (pos 0) i then passed else invalid "tool number must be positive")
          (ltb_ℤ (pos 0) i)
  delete-Says i = record { says = ground arith }

  -- Of -2 or -1 before -1, as the switch tests them.
  unhomed : (i : ℤ) → (i ==ℤ negsuc 1 || i ==ℤ negsuc 0) ≡ is_among i (negsuc 0 ∷ negsuc 1 ∷ [])
  unhomed i = ground arith

  homed : (i : ℤ) → (i ==ℤ negsuc 0) ≡ is_among i (negsuc 0 ∷ [])
  homed i = ground arith

  validate_kind-verdict :
      (k : Kind) (c : Command Double) (m : Option Configuration)
      → (validate_kind d k c m).code
        ≡ verdict (is_sound_by_itself d k c) (index_demand k) c.integer m
  unfolding validate_kind
  validate_kind-verdict Kind.set_max_velocity c m =
      alone _ _ _ _ (nonnegative-Says c.number "maximum velocity")
  validate_kind-verdict Kind.set_feed_rate c m =
      alone _ _ _ _ (nonnegative-Says c.number "feed override")
  validate_kind-verdict Kind.set_rapid_rate c m =
      alone _ _ _ _ (nonnegative-Says c.number "rapid override")
  validate_kind-verdict Kind.set_spindle_override c m =
      before _ _ _ spindle_index _ m (nonnegative-Says c.number "spindle override")
        (spindle-code c m)
  validate_kind-verdict Kind.spindle_on c m =
      before _ _ _ spindle_index _ m (finite-Says c.number "spindle speed") (spindle-code c m)
  validate_kind-verdict Kind.set_min_position_limit c m =
      before _ _ _ (joint_index []) _ m (finite-Says c.number "position limit")
        (joint-code c m [] false refl)
  validate_kind-verdict Kind.set_max_position_limit c m =
      before _ _ _ (joint_index []) _ m (finite-Says c.number "position limit")
        (joint-code c m [] false refl)
  validate_kind-verdict Kind.set_spindle_override_enable c m = spindle-code c m
  validate_kind-verdict Kind.spindle_increase c m = spindle-code c m
  validate_kind-verdict Kind.spindle_decrease c m = spindle-code c m
  validate_kind-verdict Kind.spindle_off c m = spindle-code c m
  validate_kind-verdict Kind.spindle_brake c m = spindle-code c m
  validate_kind-verdict Kind.set_spindle_availability c m = spindle-code c m
  validate_kind-verdict Kind.set_joint_availability c m = joint-code c m [] false refl
  validate_kind-verdict Kind.home_joint c m = joint-code c m (negsuc 0 ∷ []) _ (homed c.integer)
  validate_kind-verdict Kind.unhome_joint c m =
      joint-code c m (negsuc 0 ∷ negsuc 1 ∷ []) _ (unhomed c.integer)
  validate_kind-verdict Kind.set_analog_output c m =
      alone _ _ _ _ (finite-Says c.number "analog output value")
  validate_kind-verdict Kind.set_tool c m = alone _ _ _ _ (validate_tool-Says c.tool)
  validate_kind-verdict Kind.delete_tool c m = alone _ _ _ _ (delete-Says c.integer)
  validate_kind-verdict _ c m = refl

  -- The table decides. For every command and with or without a configuration, the code of
  -- `validate_nml_command` is the verdict on what the table demands for the kind: an invalid argument if
  -- the number, the tool entry or the tool number is wrong by itself; otherwise valid if the kind names
  -- no spindle or joint; otherwise that the status is unavailable without a configuration; otherwise
  -- valid exactly if the index is configured or one of the negative numbers
  -- that the kind allows instead of an index.
  pub validate_nml_command-verdict :
      (c : Command Double) (configuration : Option Configuration)
      → (validate_nml_command d c configuration).code
        ≡ verdict (is_sound_by_itself d c.kind c) (index_demand c.kind) c.integer configuration
  unfolding validate_nml_command
  validate_nml_command-verdict c configuration = validate_kind-verdict c.kind c configuration
