-- ===== src/Buffer.antt =====
-- Buffers in memory and what is written into them in network order (src/main/memorybuffer.cxx,
-- src/protocol/proto-buffer.cxx).
pub mod Memory
pub mod Protocol
pub mod ErrorStack
