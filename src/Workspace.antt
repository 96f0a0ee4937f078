-- ===== src/Workspace.antt =====
-- internal/workspace: loading and checking a workspace.
pub mod Report
pub mod Cycles
pub mod Semver
pub mod Seen
pub mod Checks
pub mod Hosts
pub mod Domain
pub mod Engine
pub mod Fleet
pub mod Tenants
pub mod Users
pub mod Semantic
pub mod Load
pub mod Validate
pub mod Discover
pub mod Examples
