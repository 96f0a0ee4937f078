-- ===== src/Infra.antt =====
-- internal/infra/infra.go: the inputs of Terraform.
pub mod Inputs
