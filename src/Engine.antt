-- ===== src/Engine.antt =====
-- internal/engine: the stack descriptors that are embedded in the program.
pub mod Descriptor
pub mod Catalog
pub mod Examples
