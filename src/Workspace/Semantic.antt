-- ===== src/Workspace/Semantic.antt =====
-- internal/workspace/semantic.go: `semanticChecks`, whose parts the other modules model.
-- internal/workspace/workspace.go: the decoded workspace that it reads.
pub mod Outcome
use mksrv.Common.{
  ◌/◌, Bool, ◌&&◌, not, Option, List, [], arith, if◌then◌else◌, Text, txt, text_eq, keys, is_cidr,
}
use mksrv.Model.Types.{Deployment, Tenant, UsersFile, Lock, Stack}
use mksrv.Workspace.Report.{Report}
use mksrv.Workspace.Report.Outcome.{error_if}
use mksrv.Workspace.Engine.{ValidateOptions, check_engine_versions}
use mksrv.Workspace.Domain.{check_domain_within_root}
use mksrv.Workspace.Fleet.{Fleet, check_hosts, sort_strings, start_fleet, check_fleet}
use mksrv.Workspace.Cycles.{check_catalog_cycles}
use mksrv.Workspace.Tenants.{entries, check_tenants}
use mksrv.Workspace.Users.{check_users}

-- A workspace that is decoded, less the folder it stands in.
pub record Data : Type 0 where
  pub deployment : Deployment
  pub tenants : List (Text × Tenant)
  pub tenant_files : List (Text × Text)
  pub users : List (Text × UsersFile)
  pub users_files : List (Text × Text)
  pub lock : Option Lock
  pub catalog : List (Text × Stack)

deployment_file : Text
deployment_file = txt "deployment.yaml"

pub timezone_of : Deployment → Text
timezone_of deployment =
    if text_eq deployment.timezone [] then txt "Etc/UTC" else deployment.timezone

-- `is_location` says which names time.LoadLocation finds in the zone database of the machine.
module _ (is_location : Text → Bool) where
  -- The checks of the deployment's own values.
  pub check_deployment : Deployment → Option Lock → ValidateOptions → Report → Report
  check_deployment deployment lock options report =
      let r1 =
        error_if (not (is_location (timezone_of deployment))) report deployment_file
          (txt "$.timezone") (txt "timezone.invalid") in
      let r2 =
        error_if
          (not (text_eq deployment.mgmt_cidr (txt "auto")) && not (is_cidr deployment.mgmt_cidr)) r1
          deployment_file (txt "$.mgmt_cidr") (txt "cidr.invalid") in
      let r3 = check_engine_versions deployment.engine lock options r2 in
      let r4 =
        check_domain_within_root deployment_file (txt "$.identity.keycloak_domain")
          deployment.identity.keycloak_domain deployment.root_domain r3 in
      check_domain_within_root deployment_file (txt "$.identity.headscale_domain")
        deployment.identity.headscale_domain deployment.root_domain r4

  -- The loop over the hosts.
  pub visit_hosts : Data → Report → Fleet
  visit_hosts loaded report =
      check_hosts loaded.catalog loaded.deployment.hosts
        (sort_strings (keys loaded.deployment.hosts)) (start_fleet report)

  pub semantic_checks : Data → ValidateOptions → Report → Report
  semantic_checks loaded options report =
      let fleet =
        visit_hosts loaded (check_deployment loaded.deployment loaded.lock options report) in
      let r1 = check_catalog_cycles loaded.catalog (check_fleet loaded.catalog fleet) in
      let r2 =
        check_tenants loaded.catalog fleet.assigned loaded.deployment.root_domain
          loaded.tenant_files [] (entries loaded.tenants (sort_strings (keys loaded.tenants))) r1 in
      check_users loaded.tenants loaded.users_files loaded.users r2
