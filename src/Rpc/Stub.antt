-- ===== src/Rpc/Stub.antt =====
-- RPCCallerStub and RPCCalleeStub (system/include/CRPC.hpp, system/common_src/CRPC.cpp).
pub mod Defs
pub mod Once
pub mod Answers
pub mod Calls
