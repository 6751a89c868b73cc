-- ===== src/Master/Flow/Keeps/Entry.antt =====
-- master_node.py: the ledger after the handlers of the sensors.
use ai_vision_inspection.Base.{ℕ, String, arith}
use ai_vision_inspection.Master.Product.{ProductContext, LockedProduct}
use ai_vision_inspection.Master.Ledger.{Ledger}
use ai_vision_inspection.Master.Flow.{FlowNode}
use ai_vision_inspection.Master.Flow.Keeps.{IsKept, update-kept, faulted-kept, device_paused-kept}
use ai_vision_inspection.Master.Ledger.{register}
use ai_vision_inspection.Master.Ledger.Calls.{call, registers}
use ai_vision_inspection.Master.Flow.Entry.{
  SensorEvent, Fresh, entered, register_product, handle_sensor1_entry, at_sensor2,
  handle_sensor2_entry, at_sensor3, handle_sensor3_entry, sensor_entry, handle_sensor_event,
}
use ai_vision_inspection.Master.Flow.Keeps.Station.{start_station_cycle-kept}
use ai_vision_inspection.Master.Flow.Keeps.Actuation.{accept_locked-kept, schedule_actuation-kept}

module _ (P : Ledger → Type 0) (k : IsKept P) where
  pub entered-kept :
      (n : FlowNode) (id : String) (sequence : ℕ) (fresh : Fresh) (now : ℕ)
      → P n.master.ledger
      → P (entered n id sequence fresh now).master.ledger
  unfolding entered
  entered-kept n id sequence fresh now h =
      grind (arith, device_paused-kept P k, start_station_cycle-kept P k)

  at_sensor2-kept :
      (n : FlowNode) (c : ProductContext) (fresh : Fresh) (now : ℕ)
      → P n.master.ledger
      → P (at_sensor2 n c fresh now).master.ledger
  unfolding at_sensor2
  at_sensor2-kept n c fresh now h = grind (arith, start_station_cycle-kept P k)

  pub handle_sensor2_entry-kept :
      (n : FlowNode) (e : SensorEvent) (fresh : Fresh) (now : ℕ)
      → P n.master.ledger
      → P (handle_sensor2_entry n e fresh now).master.ledger
  unfolding handle_sensor2_entry
  handle_sensor2_entry-kept n e fresh now h =
      grind (arith, update-kept P k, faulted-kept P k, at_sensor2-kept)

  at_sensor3-kept :
      (n : FlowNode) (c : ProductContext) (locked : LockedProduct) (fresh : Fresh) (now : ℕ)
      → P n.master.ledger
      → P (at_sensor3 n c locked fresh now).master.ledger
  unfolding at_sensor3
  at_sensor3-kept n c locked fresh now h =
      grind (arith, accept_locked-kept P k, schedule_actuation-kept P k)

  pub handle_sensor3_entry-kept :
      (n : FlowNode) (e : SensorEvent) (fresh : Fresh) (now : ℕ)
      → P n.master.ledger
      → P (handle_sensor3_entry n e fresh now).master.ledger
  unfolding handle_sensor3_entry
  handle_sensor3_entry-kept n e fresh now h =
      grind (arith, update-kept P k, faulted-kept P k, at_sensor3-kept)

-- A predicate that a new product keeps as well.
module _ (P : Ledger → Type 0) (k : IsKept P)
    (registers-kept : (l : Ledger) (id : String) (sequence : ℕ)
      → P l
      → P (call l (registers id sequence))) where
  register-kept : (l : Ledger) (id : String) (sequence : ℕ) → P l → P (register l id sequence).0
  unfolding call
  register-kept l id sequence h = registers-kept l id sequence h

  register_product-kept :
      (n : FlowNode) (e : SensorEvent) (fresh : Fresh) (now : ℕ)
      → P n.master.ledger
      → P (register_product n e fresh now).master.ledger
  unfolding register_product
  register_product-kept n e fresh now h =
      grind (arith, update-kept P k, register-kept, entered-kept P k)

  handle_sensor1_entry-kept :
      (n : FlowNode) (e : SensorEvent) (fresh : Fresh) (now : ℕ)
      → P n.master.ledger
      → P (handle_sensor1_entry n e fresh now).master.ledger
  unfolding handle_sensor1_entry
  handle_sensor1_entry-kept n e fresh now h = grind (arith, faulted-kept P k, register_product-kept)

  sensor_entry-kept :
      (n : FlowNode) (index : ℕ) (e : SensorEvent) (fresh : Fresh) (now : ℕ)
      → P n.master.ledger
      → P (sensor_entry n index e fresh now).master.ledger
  unfolding sensor_entry
  sensor_entry-kept n index e fresh now h = grind (
    arith,
    handle_sensor1_entry-kept,
    handle_sensor2_entry-kept P k,
    handle_sensor3_entry-kept P k,
  )

  pub handle_sensor_event-kept :
      (n : FlowNode) (e : SensorEvent) (fresh : Fresh) (now : ℕ)
      → P n.master.ledger
      → P (handle_sensor_event n e fresh now).master.ledger
  unfolding handle_sensor_event
  handle_sensor_event-kept n e fresh now h = grind (arith, faulted-kept P k, sensor_entry-kept)
