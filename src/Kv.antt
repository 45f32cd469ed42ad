-- ===== src/Kv.antt =====
-- The key-value generator of src/ia_kv.c.
pub mod Sbox
pub mod Mix
pub mod Fill
pub mod Gen
pub mod Pool
pub mod Setup
pub mod Keys
mod Tests
