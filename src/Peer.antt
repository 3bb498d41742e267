-- ===== src/Peer.antt =====
-- The registries of a peer and the transfer of authority between containers.
pub mod State
pub mod Containers
pub mod Entities
pub mod Transfer
pub mod Moves
pub mod Owned
pub mod Deletes
pub mod Tasks
pub mod Subscriptions
pub mod Grapes
pub mod Clients
pub mod Inputs
pub mod GrapeContainers
pub mod Connections
pub mod Reactors
pub mod NamedTasks
pub mod Loading
pub mod Disconnect
pub mod Executors
pub mod Remote
pub mod Ready
