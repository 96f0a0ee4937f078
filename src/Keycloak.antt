-- ===== src/Keycloak.antt =====
-- internal/keycloak: the realms of the tenants.
pub mod Users
pub mod Admin
pub mod Clients
pub mod Contract
pub mod Realm
pub mod Sample
