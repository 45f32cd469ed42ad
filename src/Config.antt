-- ===== src/Config.antt =====
-- The settings of src/ia_config.c.
pub mod Names
pub mod OptionBool
pub mod Parse
pub mod Valid
mod Tests
