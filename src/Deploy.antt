-- ===== src/Deploy.antt =====
-- internal/deploy: what is put on a host over SSH.
pub mod Host
pub mod Files
pub mod Options
pub mod Stack
