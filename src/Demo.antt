-- ===== src/Demo.antt =====
-- examples/demo-api: the repository's example of a service, built from the packages.
pub mod Users
pub mod Service
pub mod Readiness
pub mod Work
pub mod Config
pub mod Migrate
pub mod Wiring
pub mod Api
pub mod Clients
pub mod Parts
