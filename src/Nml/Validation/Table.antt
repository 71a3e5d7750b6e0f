-- ===== src/Nml/Validation/Table.antt =====
-- What each command kind demands of its command and of the configuration, as a table.
use linuxcnc_ctrl.Doubles.{Doubles}
use linuxcnc_ctrl.Prelude.{
  ℤ, pos, negsuc, ◌==ℤ◌, ltb_ℤ, Bool, true, false, not, ◌&&◌, ◌||◌, Option, none, some, List, [],
  ◌∷◌, if◌then◌else◌, length, take, leb, ltb,
}
use linuxcnc_ctrl.Nml.Validation.{
  Kind, Tool, Command, Configuration, Code, valid, invalid_argument, status_unavailable, contains,
}

-- What a kind demands of the number of its command.
pub data NumberDemand : Type 0 where
  any_number finite_number nonnegative_number : NumberDemand

abbrev pub number_demand : Kind → NumberDemand
number_demand Kind.set_max_velocity = nonnegative_number
number_demand Kind.set_feed_rate = nonnegative_number
number_demand Kind.set_rapid_rate = nonnegative_number
number_demand Kind.set_spindle_override = nonnegative_number
number_demand Kind.spindle_on = finite_number
number_demand Kind.set_min_position_limit = finite_number
number_demand Kind.set_max_position_limit = finite_number
number_demand Kind.set_analog_output = finite_number
number_demand _ = any_number

-- What the integer of the command must name in the configuration; a joint may also be one of the
-- listed values.
pub data IndexDemand : Type 0 where
  no_index spindle_index : IndexDemand
  joint_index : List ℤ → IndexDemand

abbrev pub index_demand : Kind → IndexDemand
index_demand Kind.set_spindle_override = spindle_index
index_demand Kind.set_spindle_override_enable = spindle_index
index_demand Kind.set_spindle_availability = spindle_index
index_demand Kind.spindle_on = spindle_index
index_demand Kind.spindle_off = spindle_index
index_demand Kind.spindle_increase = spindle_index
index_demand Kind.spindle_decrease = spindle_index
index_demand Kind.spindle_brake = spindle_index
index_demand Kind.set_joint_availability = joint_index []
index_demand Kind.set_min_position_limit = joint_index []
index_demand Kind.set_max_position_limit = joint_index []
index_demand Kind.home_joint = joint_index (negsuc 0 ∷ [])
index_demand Kind.unhome_joint = joint_index (negsuc 0 ∷ negsuc 1 ∷ [])
index_demand _ = no_index

abbrev pub below : ℤ → ℤ → Bool
below i count = not (ltb_ℤ i (pos 0)) && ltb_ℤ i count

abbrev pub is_among : ℤ → List ℤ → Bool
is_among i [] = false
is_among i (j ∷ js) = i ==ℤ j || is_among i js

abbrev pub names : IndexDemand → ℤ → Configuration → Bool
names no_index i s = true
names spindle_index i s = below i s.spindles
names (joint_index others) i s = is_among i others || below i s.joints

abbrev pub code_if : Bool → Code
code_if ok = if ok then valid else invalid_argument

-- The verdict: an argument that is wrong by itself comes first, then a missing configuration, then an
-- index outside it.
abbrev pub verdict : Bool → IndexDemand → ℤ → Option Configuration → Code
verdict false demand i configuration = invalid_argument
verdict true no_index i configuration = valid
verdict true demand i none = status_unavailable
verdict true demand i (some s) = code_if (names demand i s)

module _ (d : Doubles) where
  open d use {Double, is_finite, less, decimal}

  abbrev pub are_finite : List Double → Bool
  are_finite [] = true
  are_finite (x ∷ xs) = is_finite x && are_finite xs

  abbrev pub is_nonnegative : Double → Bool
  is_nonnegative x = is_finite x && not (less x (decimal 0 0))

  abbrev pub is_within : ℤ → ℤ → ℤ → Bool
  is_within low high i = not (ltb_ℤ i low) && not (ltb_ℤ high i)

  -- A tool entry that the tool table can hold.
  abbrev pub is_sound : Tool Double → Bool
  is_sound t =
      ltb_ℤ (pos 0) t.tool_no
      && ((not t.has_pocket_no || ltb_ℤ (pos 0) t.pocket_no && not (ltb_ℤ (pos 1000) t.pocket_no))
          && ((leb t.offset_values 9 && leb t.wear_offset_values 9)
              && ((not t.has_offset || are_finite (take t.offset_values t.offset))
                  && ((not t.has_wear_offset
                        || are_finite (take t.wear_offset_values t.wear_offset))
                      && ((not t.has_diameter || is_nonnegative t.diameter)
                          && ((not t.has_front_angle || is_finite t.front_angle)
                              && ((not t.has_back_angle || is_finite t.back_angle)
                                  && ((not t.has_orientation
                                        || is_within (pos 0) (pos 9) t.orientation)
                                      && (not t.has_comment
                                          || ltb (length t.comment) 40
                                            && not (contains 10 t.comment)
                                            && not (contains 13 t.comment))))))))))

  abbrev pub number_met : NumberDemand → Double → Bool
  number_met any_number x = true
  number_met finite_number x = is_finite x
  number_met nonnegative_number x = is_nonnegative x

  -- What a command must satisfy whatever the configuration is.
  abbrev pub is_sound_by_itself : Kind → Command Double → Bool
  is_sound_by_itself Kind.set_tool c = is_sound c.tool
  is_sound_by_itself Kind.delete_tool c = ltb_ℤ (pos 0) c.integer
  is_sound_by_itself kind c = number_met (number_demand kind) c.number
