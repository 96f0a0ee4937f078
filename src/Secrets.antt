-- ===== src/Secrets.antt =====
-- internal/secrets/secrets.go: the parameters that hold secrets, and the random ones that are made.
pub mod Random
pub mod Store
pub mod Examples
