-- ===== src/Headscale.antt =====
-- internal/headscale/headscale.go: the isolation policy, the commands, and the users and API keys.
pub mod Policy
pub mod Command
pub mod Accounts
pub mod Examples
