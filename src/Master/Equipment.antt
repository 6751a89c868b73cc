-- ===== src/Master/Equipment.antt =====
-- operation_runtime.py: EquipmentSnapshot, the master's mirror of the equipment, and the guards of a
-- reset. A Python dict with the two conveyors, or with the three sensors, is a record.

use ai_vision_inspection.Base.{String, Bool, true, false, ◌&&◌, not, Option, none, some}
use ai_vision_inspection.Constants.{ConveyorId, upper, lower}
pub mod Guards

pub record ByConveyor : Type 0 where
  pub upper_value : Option Bool
  pub lower_value : Option Bool

pub record BySensor : Type 0 where
  pub sensor1 : Option Bool
  pub sensor2 : Option Bool
  pub sensor3 : Option Bool

pub record EquipmentSnapshot : Type 0 where
  pub conveyor_running : ByConveyor
  pub conveyor_stopped : ByConveyor
  pub sensor_clear : BySensor
  pub actuator_safe : Option Bool
  pub line_clear_confirmed : Bool
  pub estop_asserted : Bool
  pub operator_id : String

abbrev pub both_conveyors : Option Bool → ByConveyor
both_conveyors v = record { upper_value = v; lower_value = v }

-- `EquipmentSnapshot()`
abbrev pub new_snapshot : EquipmentSnapshot
new_snapshot = record {
  conveyor_running = both_conveyors none;
  conveyor_stopped = both_conveyors none;
  sensor_clear = record { sensor1 = none; sensor2 = none; sensor3 = none };
  actuator_safe = none;
  line_clear_confirmed = false;
  estop_asserted = false;
  operator_id = "";
}

unfoldable pub mark_all_stopped : EquipmentSnapshot → EquipmentSnapshot
mark_all_stopped s = record s {
  conveyor_stopped = both_conveyors (some true);
  conveyor_running = both_conveyors (some false);
}

unfoldable pub mark_all_running : EquipmentSnapshot → EquipmentSnapshot
mark_all_running s = record s {
  conveyor_running = both_conveyors (some true);
  conveyor_stopped = both_conveyors (some false);
}

unfoldable pub sim_safe : EquipmentSnapshot
unfolding mark_all_stopped
sim_safe = record (mark_all_stopped new_snapshot) {
  sensor_clear = record { sensor1 = some true; sensor2 = some true; sensor3 = some true };
  actuator_safe = some true;
  line_clear_confirmed = true;
  operator_id = "sim";
}

-- `value is True`
abbrev pub is_true : Option Bool → Bool
is_true (some b) = b
is_true none = false

unfoldable pub all_conveyors_stopped : EquipmentSnapshot → Bool
all_conveyors_stopped s =
    is_true s.conveyor_stopped.upper_value && is_true s.conveyor_stopped.lower_value

unfoldable pub all_conveyors_running : EquipmentSnapshot → Bool
all_conveyors_running s =
    is_true s.conveyor_running.upper_value && is_true s.conveyor_running.lower_value

unfoldable pub all_sensors_clear : EquipmentSnapshot → Bool
all_sensors_clear s =
    is_true s.sensor_clear.sensor1
    && is_true s.sensor_clear.sensor2
    && is_true s.sensor_clear.sensor3

unfoldable pub line_clear_guards_satisfied : EquipmentSnapshot → Bool
unfolding all_conveyors_stopped all_sensors_clear
line_clear_guards_satisfied s =
    s.line_clear_confirmed
    && all_conveyors_stopped s
    && all_sensors_clear s
    && is_true s.actuator_safe
    && not s.estop_asserted

unfoldable pub in_place_guards_satisfied : EquipmentSnapshot → Bool
unfolding all_conveyors_stopped
in_place_guards_satisfied s =
    all_conveyors_stopped s && is_true s.actuator_safe && not s.estop_asserted

unfoldable pub clear_operator_confirmation : EquipmentSnapshot → EquipmentSnapshot
clear_operator_confirmation s = record s { line_clear_confirmed = false; operator_id = "" }
