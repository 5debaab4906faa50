-- ===== src/Config.antt =====
-- The variables that a run of the program carries around (src/main/rtconfig.cxx).
pub mod Variable
pub mod Runtime
