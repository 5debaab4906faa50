-- ===== src/Retention.antt =====
-- The retention rules (src/catalog/retention.cxx): which basebackups a policy removes, and how far
-- the write-ahead log may go with them.
pub mod Rule
pub mod Pin
pub mod Safety
pub mod Count
pub mod Label
pub mod CleanupRule
pub mod DateTime
