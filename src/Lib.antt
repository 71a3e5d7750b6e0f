-- ===== src/Lib.antt =====
-- The native server of linuxcnc-ctrl, as far as its own concurrent and stateful logic goes: the code under
-- native/server/src and native/server/include/linuxcnc_grpc that queues machine commands, runs RPC
-- callbacks on bounded resources, and keeps the histories and queues that telemetry is read from.
--
-- How the parts interact. An RPC handler submits a command to the coordinator and observes its ticket; the
-- coordinator's one worker runs the command, which marks the ticket accepted, completed or failed, and the
-- ticket calls the observers. Handlers run on the bounded executor, behind an admission counter; reactors
-- sit behind a lifetime gate and finish through a deferred write. The telemetry side polls the machine into
-- the position history and the scope frame queue, publishes through subscription hubs and sequenced rings,
-- and sends consumers the deltas since their cursor. A remote client may own a HAL component: the registry
-- keeps its proxy across streams, checks what the client writes, samples what it reads, and gives it up when
-- its heartbeats stop.
--
-- Which file models which part:
--   Coordinator.CommandTicket    CommandTicket and CommandCoordinator::transition, native/server/src/command_coordinator.cc
--   Coordinator                  CommandCoordinator: submit, shutdown and run, native/server/src/command_coordinator.cc
--   Runtime.Executor             BoundedExecutor, native/server/src/callback_runtime.cc
--   Runtime.Admission            AdmissionCounter, native/server/src/callback_runtime.cc
--   Runtime.Ring, Hub, Gate      SequencedRing, SubscriptionHub with ActiveCallbackRegistry, and LifetimeGate,
--                                native/server/include/linuxcnc_grpc/callback_runtime.hpp
--   Position.History             PositionHistory, native/server/src/position/history.cc
--   Scope.FrameQueue             ScopeFrameQueue, native/server/src/scope/controller.cc
--   Grpc.DeferredFinish          DeferredWriteFinish, native/server/src/grpc/server/deferred_write_finish.hpp
--   Hal.Outbox                   ComponentOutbox, native/server/src/hal/grpc/component_outbox.hpp
--   Hal.Telemetry                HalValueTelemetry, native/server/src/hal/value_telemetry.cc
--   Nml.Validation               validate_nml_command, native/server/src/linuxcnc/command_validation.cc
--   Filesystem.DirectoryTransaction
--                                DirectoryTransaction, native/server/src/filesystem/directory_transaction.cc
--   Hal.Values, Hal.Mapping      the values and the topology of HAL, and their protobuf messages,
--                                native/server/include/linuxcnc_grpc/hal/adapter.hpp and
--                                native/server/src/hal/grpc/mapping.cc
--   Hal.Components               what LinuxCncHalComponent does for the registry, as an interface,
--                                native/server/include/linuxcnc_grpc/hal/adapter.hpp
--   Hal.Registry                 RemoteComponentRegistry, native/server/src/hal/grpc/remote_component_registry.cc
--   Hal.Stream                   the reactor of RemoteComponentRpc, native/server/src/hal/grpc/remote_component_rpc.cc
--   Hal.Adapter                  LinuxCncHalComponent and HalAllocationSlab, native/server/src/hal/adapter.cc, which
--                                fill the interface of Hal.Components
-- Prelude holds what the parts share, and Doubles is the interface of the
-- IEEE arithmetic that the code uses: its operations are parameters, and no law of theirs is assumed. The
-- state of a class is a record with its fields, and each function is a function from the state to the new
-- state, its result and the calls it makes on others. A function that holds its mutex throughout is one
-- step; where it lets go of the mutex, or works on atomics, each critical section or atomic operation is a
-- step of its own, and a theorem over a list of steps holds for every interleaving. Tests modules run the
-- definitions on concrete inputs.
--
-- Integers and bounds. A std::uint64_t or std::size_t that is incremented wraps at 2^64 in the model as in
-- the code; a theorem that needs a counter not to wrap says so, by the number of steps. Loops are structural
-- recursion on the lists they run over; there is no fuel.
--
-- Not modelled: mutexes and condition variables themselves, timeouts, the contents of commands, events and
-- frames where the code only moves them, memory, protobuf and gRPC, the LinuxCNC libraries, and the parts
-- of the server that only call these: the NML adapter, the topology and signals of the HAL adapter, the
-- services, the WebSocket server, the program workspace and the G-code preview. The registry's random
-- device, its clock and the answer of its admission counter are arguments of an operation.
pub mod Prelude
pub mod Coordinator
pub mod Runtime
pub mod Doubles
pub mod Position
pub mod Scope
pub mod Grpc
pub mod Nml
pub mod Hal
pub mod Filesystem
