-- ===== src/Lib.antt =====
-- A model of the core of the AI vision inspection line: a conveyor carries products past two
-- inspection stations and three sensors to an actuator; a master node keeps the products in
-- order and decides their verdicts, a vision node infers the stations' results, worker nodes
-- report to the master.
--
-- The parts, and the files that model them. Paths are from the root of the repository; `M/` is
-- ros2_ws/src/nodes/inspection_master/inspection_master/, `V/` is
-- ros2_ws/src/nodes/inspection_vision/inspection_vision/, `C/` is
-- ros2_ws/src/basic_packages/inspection_common/inspection_common/, `N/` is
-- ros2_ws/src/nodes/inspection_control/inspection_control/.
--   Constants               the enums of C/constants.py
--   Common/Idempotency      C/idempotency.py: IdempotencyStore (inspect, remember)
--   Common/NodeBase         C/node_base.py: InspectionNodeBase. Heartbeat, Commands, Initialize
--                           and Profiles hold its handlers; Epochs makes each of them a step
--   Control/Protocol        N/mega_protocol.py: encode_frame, decode_frame, parse_event
--   Control/Node            N/control_node.py: ControlNode. Node holds _send_mega and what
--                           _read_mega does with each frame; Replies _wait_for_mega and
--                           _prune_stale_mega_events; Conveyors the hooks of system commands;
--                           Actuation _execute_actuation
--   Master/SystemFsm        M/system_fsm.py: _TRANSITIONS, decide_system_transition,
--                           allowed_system_events; apply_system_event is
--                           MasterNode._apply_system_event of M/master_node.py
--   Master/Product          M/product_flow.py: ProductContext. Cycle, Skip and Verdicts hold its
--                           methods; Command makes each call of them data, with `step` and `run`;
--                           the other children are about sequences of calls
--   Master/Sensors          M/product_flow.py: SensorEventRegistry
--   Master/Ledger           M/product_flow.py: ProductLedger. Fifo and Removal hold its methods;
--                           Calls makes each call data, and Pruning is about prune_removed
--   Master/Reorder          M/product_flow.py: ProductResultReorderBuffer
--   Master/Messages         M/product_flow.py: classify_station_message
--   Master/Worker           M/worker_supervision.py: WorkerRuntimeState
--   Master/Equipment        M/operation_runtime.py: EquipmentSnapshot
--   Master/Operation        M/master_node.py: the requests, confirmations, faults, resets, the
--                           shutdown and the line's deadlines. Requests, Recovery and Deadlines
--                           hold the methods; Steps makes each call data
--   Master/Flow             M/master_node.py: the products on the line, and M/operation_runtime.py:
--                           StationCycle, ActuationCycle. Station, Capture, Report, Cancel,
--                           Actuation and Entry hold the handlers of the sensors, the stations and
--                           the actuator; Recovery, Reset and Timeout what a pause, a reset and a
--                           deadline do; Steps makes each event data. Keeps is about the ledger that
--                           each handler leaves, Frozen and Preserved about FAULT_STOP,
--                           Shutdown about the goals at the end of a shutdown
--   Vision/Png              V/capture_contract.py: _validate_canonical_png; Writer is
--                           write_mono8_png_atomic
--   Vision/Capture          V/capture_contract.py: ImageArtifact, CaptureBatch and their tests
--   Vision/Queue            V/inference_queue.py: InferenceQueue
--   Vision/Worker           V/inference_queue.py: WorkerPool._execute_job and what it calls
--   Base                    lists, association lists for Python's dicts, sorting, Boolean tests,
--                           texts as lists of code points
--   Examples                runs on small inputs, and each theorem at a concrete input
--
-- How they interact: the ledger holds the contexts of the products, and a call on a product is a
-- call on its context in the ledger's store (Ledger.Calls.update). A message of a station is
-- first classified against the ledger, and an accepted one is applied to the product. A locked
-- product goes through the reorder buffer to the log. The vision node's queue hands jobs to its
-- workers.
--
-- The master's requests run the transition table, read the guards of the equipment, of the
-- ledger and of the workers, and publish system commands. A node takes such a command by its
-- base, and the control node's hook writes frames of the serial protocol to the board.
--
-- The node of Master/Flow holds the one of Master/Operation, and changes its ledger, its state and
-- its commands by the functions of these modules. The identifiers that it makes, the answers of
-- the Action clients and the order in which callbacks come are arguments: an event of the step
-- function carries them. What it sends is kept as a list of emissions. The goals that the end of a
-- shutdown cancels belong to the node of Master/Flow: Operation.Deadlines counts
-- `goal_cancellations`, and the node of Master/Flow cancels them in the step that counts one. Old
-- contexts are pruned in the step of the deadlines, as the timer of the source does.
--
-- State is passed explicitly: a method of a Python object is a function from its state to the
-- next one, and to what it returns or raises (Result). A method that writes before it raises
-- leaves the written state. A method under a lock is one step, and an interleaving of callers is
-- a list of calls. Times are natural numbers of nanoseconds, read by the caller and passed in.
-- Numbers of the protocol are unsigned, so they are natural numbers; Python's integers do not
-- wrap around. A difference of times is compared without subtracting,
-- except for the cutoff of the pruning, where stopping at 0 makes no difference. A dict is an association
-- list in insertion order; a missing key that Python would raise on is `none`.
--
-- Loops over collections are structural. The loop of ProductResultReorderBuffer.add runs on
-- fuel, the number of pending entries, of which each round takes one off. An image is a value of
-- a parameter type; reading it and the model are parameters of Vision/Worker, and nothing is
-- assumed about them.
--
-- The loop over the chunks of a PNG file runs on fuel, the length of the file; a chunk has 12 bytes
-- at least. The bytes that are left stand for the offset. CRC-32, compression and SHA-256 are
-- parameters, and so is the file system, as contents by path.
--
-- The master node is the one of the hardware profile. The frames that reach the control node
-- while it waits are a list with the time of each, and a list that ends is a silent line.
-- Writing to the line does not fail in the model; a failing port is the step `disconnect`. `str`
-- of a number runs on fuel, the number itself and one more, which is more than it has digits.
-- The test of UUIDs is a parameter.
--
-- Not modelled: the worker handshake and the log events of M/master_node.py; V/vision_node.py, the
-- simulated camera of the capture contract and the log
-- node; the opening of the serial port and the thread pools of the control node; a
-- node's own heartbeat and status text, and the canonical JSON under a digest; the texts of
-- exceptions, and of a worker's failure; the printing of a product (snapshot); threads and
-- condition variables; SQLite, the camera SDK, torch and numpy, which are libraries; the
-- firmware and the offline tools.
pub mod Base
pub mod Common
pub mod Constants
pub mod Control
pub mod Master
pub mod Vision
pub mod Examples
