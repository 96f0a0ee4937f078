-- ===== src/Ssh.antt =====
-- internal/ssh: the keys of the hosts that are trusted.
pub mod Trust
