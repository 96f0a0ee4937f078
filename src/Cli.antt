-- ===== src/Cli.antt =====
-- internal/cli: what the commands compute from a valid workspace.
pub mod Order
pub mod Tenants
