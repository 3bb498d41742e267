-- ===== src/Lib.antt =====
-- celte-system: the peers of a distributed game world. Each peer (a server node or a client) keeps
-- registries of grapes, containers and entities, and talks to the others through topics of a message
-- broker. This library models the C++ of system/ and states what its parts promise.
--
-- Parts and files:
-- Rpc/LruSet: LRUSet and UniqueTaskManager of system/include/CRPC.hpp, the window of request ids that
-- a process remembers; an iterator is the number of its list node. Rpc/LruSet/Race: run by two threads.
-- Rpc/Stub: RPCCallerStub and RPCCalleeStub of system/include/CRPC.hpp and
-- system/common_src/CRPC.cpp, with promises as numbered cells and handlers as functions on a state.
-- Rpc/Typed: the types of remote methods, both serializations and build_delegate of
-- system/include/CRPC.hpp; Rpc/Typed/Laws follows a typed call from the caller to the callee and back,
-- and Rpc/Typed/Forget one that waits for no answer.
-- Rpc/Retry: CRPCBuilder::CallObject of system/include/CRPC.hpp, over any behaviour of the network.
-- Rpc/ProducerPool: ApachePulsarRPCProducerPool of the same files.
-- Rpc/Builder and Rpc/CallStub: CRPCBuilder, the classes of REGISTER_RPC_CALL_STUB and the listeners of
-- system/include/CRPC.hpp. Rpc/Custom: the procedures that the engine defines
-- (system/include/CustomRPC.hpp) and their interface in system/common_src/exports.cpp; Rpc/Custom/Laws
-- follows a call from that interface to the run of the function.
-- Topics: system/common_src/Topics.cpp. Config: system/common_src/Config.cpp.
-- Logger: system/common_src/Logger.cpp, its queue and its thread over an interface of redis, with the
-- theorems in Logger/Laws.
-- Runtime/Scheduler: the schedulers of system/common_src/AsyncTaskScheduler.cpp as a step relation.
-- Runtime/Sync and Runtime/Connect: Tick, the connection and the disconnection of
-- system/common_src/Runtime.cpp; Runtime/Start: the constructor of PeerService with the callbacks of
-- Runtime. Metrics and Metrics/CpuLoad: system/server_src/MetricsScrapper.cpp.
-- Ghost/Defs: GhostSystem of system/include/GhostSystem.hpp and system/common_src/GhostSystem.cpp,
-- the properties of entities that are polled by the engine and replicated to other peers; Ghost/Replicate
-- is a round of the upload with the peer that gets it, Ghost/Worker the thread of the upload, and
-- Ghost/Poll,
-- Ghost/Store and Ghost/Seen are its lemmas and theorems.
-- Peer/State, Peer/Containers, Peer/Entities, Peer/Transfer: the state of one peer, ContainerRegistry
-- (system/include/Container.hpp, system/common_src/Container.cpp), ETTRegistry
-- (system/include/ETTRegistry.hpp, system/common_src/ETTRegistry.cpp) and AuthorityTransfer
-- (system/common_src/AuthorityTransfer.cpp). A closure that is pushed to the engine is a value of Task,
-- a remote call a value of Message, and a call of an engine hook an entry of a log. Peer/Moves,
-- Peer/Owned, Peer/Deletes and Peer/Tasks hold the theorems.
-- Peer/Subscriptions: ContainerSubscriptionComponent (system/include/ContainerSubscriptionComponent.hpp,
-- system/common_src/ContainerSubscriptionComponent.cpp) and ContainerRegistry::UpdateRefCount; its
-- theorems are in Peer/Subscriptions/Laws.
-- Peer/Grapes: GrapeRegistry and the queues of Grape (system/include/GrapeRegistry.hpp,
-- system/common_src/GrapeRegistry.cpp, system/include/Grape.hpp); its theorems are in Peer/Grapes/Laws.
-- Net/WriterPool: WriterStreamPool (system/include/WriterStreamPool.hpp,
-- system/common_src/WriterStreamPool.cpp). Net/ReaderStream: the loop of ReaderStream::__subscribe
-- (system/include/ReaderStream.hpp), on fuel. Net/Streams: the streams of a container and its wait for
-- them (system/common_src/Container.cpp). Net/Consumer: the consumers of remote calls
-- (system/common_src/CRPC.cpp). Prelude/Polling: the loops that sleep until a test holds.
-- Peer/Clients: ClientRegistry (system/include/ClientRegistry.hpp, system/server_src/ClientRegistry.cpp)
-- and the requests of PeerService (system/common_src/PeerService.cpp) that change it.
-- Peer/GrapeContainers: the containers of grapes (system/common_src/Grape.cpp,
-- system/common_src/GrapeRegistry.cpp), with the theorems in Peer/GrapeContainers/Laws.
-- Peer/Connections: the other requests of PeerService between servers and clients.
-- Peer/Reactors: what the classes of the peers subscribe and unsubscribe with REGISTER_RPC_REACTOR, with
-- the theorems in Peer/Reactors/Laws. Peer/Ready: the task that RegisterGrape leaves for its callback.
-- Peer/Executors: the tasks that are pushed for a grape, with AdvanceGrapeTask of
-- system/common_src/exports.cpp. Peer/NamedTasks: CMIInstantiate and ProxyTakeAuthority from the call
-- of one
-- peer to the pop of another engine (system/common_src/Grape.cpp, system/common_src/exports.cpp).
-- Peer/Remote: the subscriptions of a grape of another server (system/common_src/Grape.cpp).
-- Peer/Loading: GetExistingEntities of one peer and LoadExistingEntities of another.
-- Peer/Disconnect: how a server disconnects a client, with the hooks of system/include/HookTable.hpp.
-- Peer/Inputs: system/common_src/CelteInputSystem.cpp and the readers of inputs of
-- system/include/ETTRegistry.hpp, with the theorems in Peer/Inputs/Laws.
-- Net/Service: system/common_src/CelteService.cpp, the close of a stream and its message handler
-- (system/include/ReaderStream.hpp, system/common_src/ReaderStream.cpp, system/include/WriterStream.hpp).
-- Net/Latency: GetLatency of system/common_src/PeerService.cpp. Net/Http:
-- system/common_src/HttpClient.cpp.
-- Timing/Clock: Clock (system/include/Clock.hpp, system/common_src/Clock.cpp), in nanoseconds.
-- Timing/UniqueProcedures: UniqueProcedures (system/include/UniqueProcedures.hpp,
-- system/common_src/UniqueProcedures.cpp).
-- Tests: concrete runs.
--
-- Fuel: nine loops of the source have no bound of their own and run on fuel. ReaderStream::__subscribe
-- ends after ten calls where nothing is thrown. Runtime::__advanceSyncTasks needs the total weight of
-- its queue, for any weight of a task that is above that of all the tasks that it schedules.
-- PeerService::ForceConnectToNode needs the number of sleeps until the grape is registered,
-- Container::WaitForNetworkReady that until its streams are ready, and RPCCalleeStub::_init_consumer
-- the number of refused calls and one more. The loop of GhostSystem::StartReplicationUploadWorker
-- needs the number of its rounds and one more. The loops of ReaderStream::BlockUntilNoPending, of
-- CelteService::__cleanup over it, and of MetricsScrapper::__uploadWorker do not end, whatever the
-- fuel.
-- Every other loop of the source is a recursion on the list or the number that it counts down.
-- Not modelled: threads and locks (each operation is one atomic step, except that the schedulers, with
-- each use of their counters, the logger's thread and run by two threads are steps in any order), the objects of the broker's client,
-- the parser and printer of documents beyond Prelude/Json, the arithmetic of doubles, the load of the
-- processor on systems other than Linux, the format of times, and the functions of
-- system/common_src/exports.cpp that only forward to one operation or set a hook.
--
-- Conventions: an operation is a function from the state to the new state and its result, in the order
-- of the source; an exception or an undefined behaviour is a value of the result. Times are numbers,
-- read once for each call of a clock in the source and given as arguments.
-- What is not under system/ is a parameter: Prelude/HashMap is the interface of the concurrent hash
-- map of oneTBB, whose accessors make each use an atomic step, Prelude/Json that of nlohmann::json,
-- Logger that of redis, Peer/Inputs that of boost::circular_buffer, and Rpc/Typed that of the arrays of
-- nlohmann::json, of its conversions of each type, and of the text of the exception for arguments that
-- it cannot convert.
-- The maps and lists of the standard library are association lists and lists (Prelude/Assoc,
-- Prelude/Lists).
pub mod Prelude
pub mod Rpc
mod Tests
pub mod Ghost
pub mod Peer
pub mod Net
pub mod Timing
pub mod Topics
pub mod Config
pub mod Logger
pub mod Runtime
pub mod Metrics
