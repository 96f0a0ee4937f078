-- ===== src/Workspace/Tenants.antt =====
-- internal/workspace/semantic.go: the part of `semanticChecks` that visits the tenants.
pub mod Outcome
use mksrv.Common.{
  ℕ, suc, ◌+◌, ◌/◌, not, none, some, List, [], ◌∷◌, ◌++◌, arith, if◌then◌else◌, is_some, is_empty,
  drop, Text, txt, text_eq, trim_right, trim_suffix, last_index, itoa, lookup,
}
use mksrv.Model.Types.{Tenant, Stack}
use mksrv.Workspace.Report.{Report, semantic_error}
use mksrv.Workspace.Report.Outcome.{error_if}
use mksrv.Workspace.Seen.{is_dup, note}
use mksrv.Workspace.Domain.{check_domain_within_root}
use mksrv.Workspace.Checks.Forwards.{check_tenant_forwards}
use mksrv.Workspace.Checks.Dns.{check_tenant_dns, check_tenant_mesh_routes}
use mksrv.Workspace.Checks.Web.{check_tenant_web}
use mksrv.Workspace.Checks.Mail.{check_tenant_mail}
use mksrv.Workspace.Checks.Database.{check_tenant_database}
use mksrv.Workspace.Fleet.{assigned_to}

-- What stands behind the last slash.
unfoldable pub after_slash : Text → Text
after_slash path = elim (last_index path 47) [ none ↦ path | some i ↦ drop (suc i) path ]

-- filepath.Base
unfoldable pub base_name : Text → Text
base_name path =
    let name = after_slash (trim_right path 47) in
    if is_empty path then txt "." else if is_empty name then txt "/" else name

-- `data.TenantFiles[tenantID]`, the empty string for a missing key.
pub file_of : List (Text × Text) → Text → Text
file_of files id = elim (lookup files id) [ none ↦ [] | some file ↦ file ]

-- The entries of a map in the order of the given keys, as a loop over them visits it.
unfoldable pub entries {ℓ} : {V : Type ℓ} → List (Text × V) → List Text → List (Text × V)
entries m [] = []
entries m (k ∷ ks) =
    let rest = entries m ks in elim (lookup m k) [ none ↦ rest | some v ↦ (k, v) ∷ rest ]

pub realm_of : Tenant → Text
realm_of tenant = if text_eq tenant.realm [] then tenant.id else tenant.realm

tenant_stack_path : ℕ → Text
tenant_stack_path index = txt "$.stacks[" ++ (itoa index ++ txt "]")

module _ (catalog : List (Text × Stack)) (assigned : List (Text × List Text)) where
  -- The body of the loop over a tenant's stacks.
  pub check_tenant_stack : Text → ℕ → Text → Report → Report
  check_tenant_stack file index stack_name report = elim (lookup catalog stack_name) [
    | none ↦ semantic_error report file (tenant_stack_path index) (txt "stack.unknown")
    | some stack ↦
        error_if (is_empty (assigned_to assigned stack_name))
          (error_if (not stack.per_tenant) report file (tenant_stack_path index)
            (txt "tenant.stack.scope"))
          file (tenant_stack_path index) (txt "tenant.stack.unassigned")
  ]

  pub check_tenant_stacks : Text → ℕ → List Text → Report → Report
  check_tenant_stacks file index [] report = report
  check_tenant_stacks file index (stack_name ∷ stacks) report =
      check_tenant_stacks file (suc index) stacks (check_tenant_stack file index stack_name report)

  -- The checks of one tenant that no other tenant bears on, in two runs: before the stacks, and from
  -- them on. The check of the realm stands between them.
  pub check_tenant_identity : Text → Text → Tenant → Report → Report
  check_tenant_identity root file tenant report =
      let r1 =
        error_if (not (text_eq tenant.id (trim_suffix (base_name file) (txt ".yaml")))) report file
          (txt "$.id") (txt "tenant.filename") in
      if is_some tenant.dns_override
      then r1
      else check_domain_within_root file (txt "$.base_domain") tenant.base_domain root r1

  pub check_tenant_blocks : Text → Tenant → Report → Report
  check_tenant_blocks file tenant report =
      let r1 = check_tenant_stacks file 0 tenant.stacks report in
      let r2 = check_tenant_forwards file tenant r1 in
      let r3 = check_tenant_dns file tenant r2 in
      let r4 = check_tenant_mesh_routes file tenant r3 in
      let r5 = check_tenant_web file tenant r4 in
      let r6 = check_tenant_database file tenant r5 in
      check_tenant_mail file tenant (not (is_empty (assigned_to assigned (txt "mail")))) r6

  -- The body of the loop over the tenants.
  pub check_tenant : Text → Text → List (Text × Text) → Tenant → Report → Report
  check_tenant root file realms tenant report = check_tenant_blocks file tenant (
      error_if (is_dup realms (realm_of tenant)) (check_tenant_identity root file tenant report)
        file (txt "$.keycloak.realm") (txt "tenant.realm.duplicate"))

  module _ (root : Text) (files : List (Text × Text)) where
    pub check_tenants : List (Text × Text) → List (Text × Tenant) → Report → Report
    check_tenants realms [] report = report
    check_tenants realms ((tenant_id, tenant) ∷ tenants) report =
        check_tenants (note realms (realm_of tenant) tenant.id) tenants
          (check_tenant root (file_of files tenant_id) realms tenant report)
