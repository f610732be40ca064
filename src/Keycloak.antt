-- ===== src/Keycloak.antt =====
-- Package keycloak: a client for users and roles, and one for decisions on permissions.
pub mod Admin
pub mod Options
pub mod Uma
