-- ===== src/Server.antt =====
-- The recovery server (src/jobs/server.cxx), the result sets that its commands make
-- (src/protocol/proto-types.cxx) and the commands (src/parser/pgproto-commands.cxx).
pub mod ResultSet
pub mod Command
pub mod Connection
pub mod Startup
pub mod Query
