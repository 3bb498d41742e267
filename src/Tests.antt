-- ===== src/Tests.antt =====
-- Concrete runs: each theorem that has hypotheses, at an input that meets them.
mod Rpc
mod Written
mod Typed
mod Reactors
mod NamedTasks
mod Disconnect
mod Ghost
mod Peer
mod Net
mod Grapes
mod Timing
mod Clients
mod Engine
mod Runtime
mod GrapeContainers
mod Start
mod Remote
mod Ready
