-- ===== src/Rpc/LruSet.antt =====
-- LRUSet and UniqueTaskManager of system/include/CRPC.hpp: the definitions, and what is proved of
-- them.
pub mod Defs
pub mod Laws
pub mod Refine
pub mod Once
pub mod Race
