-- ===== src/Config.antt =====
-- The configuration of src/config.c and src/config.h.
pub mod Parse
pub mod Settings
pub mod Init
