-- ===== src/Ghost.antt =====
-- GhostSystem (system/include/GhostSystem.hpp, system/common_src/GhostSystem.cpp).
pub mod Defs
pub mod Poll
pub mod Store
pub mod Seen
pub mod Replicate
pub mod Worker
