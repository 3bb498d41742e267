-- ===== src/Rpc.antt =====
-- The remote procedure calls of system/include/CRPC.hpp and system/common_src/CRPC.cpp.
pub mod LruSet
pub mod Stub
pub mod Retry
pub mod Builder
pub mod Custom
pub mod CallStub
pub mod Typed
pub mod ProducerPool
