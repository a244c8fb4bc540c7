-- ===== src/Rpc.antt =====
-- The two sample programs: a client that sends requests and a server that answers them.
-- (src/rpc_client/Main.cpp, src/rpc_server/Main.cpp)
pub mod Program
pub mod Server
pub mod Client
pub mod Setup
pub mod Main
