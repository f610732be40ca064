-- ===== src/Util.antt =====
-- Package util.
pub mod Date
