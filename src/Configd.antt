-- ===== src/Configd.antt =====
-- internal/configd: the broker that issues signed client configurations.
pub mod NodeName
pub mod Token
pub mod Server
pub mod Examples
