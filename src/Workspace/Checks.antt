-- ===== src/Workspace/Checks.antt =====
-- internal/workspace/semantic.go: the checks of a tenant document, one module each. A check is a
-- function on reports; its theorem says exactly when it adds no error.
pub mod Forwards
pub mod Dns
pub mod Web
pub mod Database
pub mod Mail
