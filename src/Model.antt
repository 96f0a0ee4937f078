-- ===== src/Model.antt =====
-- internal/model: the documents of a workspace, their accessors, and the sizing of hosts.
pub mod Types
pub mod Accessors
pub mod Capacity
