-- ===== src/Examples.antt =====
-- The theorems at concrete inputs.
mod Data
mod Positions
mod Rules
mod Slots
mod Messages
mod Segments
mod Receiving
mod Settings
mod Commands
