-- ===== src/Middleware.antt =====
-- Package middleware: what stands between the router and the handlers.
pub mod Claims
pub mod RequestId
pub mod ErrorHandler
pub mod Jwt
pub mod RequestLogger
