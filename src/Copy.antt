-- ===== src/Copy.antt =====
-- The COPY subprotocol (src/protocol/pgproto-copy.cxx, src/protocol/pgproto-copystate.cxx and the
-- messages of src/protocol/pgmessage*.cxx).
pub mod Format
pub mod State
pub mod Message
