-- ===== src/Runtime.antt =====
-- The runtime of a peer (system/include/Runtime.hpp, system/common_src/Runtime.cpp) and its schedulers.
pub mod Scheduler
pub mod Sync
pub mod Connect
pub mod Start
