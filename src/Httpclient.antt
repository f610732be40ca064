-- ===== src/Httpclient.antt =====
-- Package httpclient: a client for JSON services.
pub mod Client
pub mod Registry
pub mod Request
pub mod Response
