-- ===== src/Httpserver.antt =====
-- The package httpserver.
pub mod Pagination
pub mod Handling
pub mod Server
