-- ===== src/Workspace/Validate.antt =====
-- internal/workspace/workspace.go: `Validate`. A workspace on disk is what its files hold: an error
-- that ends the validation is `none`.
pub mod Outcome
pub mod Examples
use mksrv.Common.{Bool, false, not, Option, none, some, List, [], arith, ◌>>=◌, length, Text, txt}
use mksrv.Model.Types.{Deployment, Tenant, UsersFile, Lock, Stack}
use mksrv.Workspace.Report.{Report, has_errors, semantic_error}
use mksrv.Workspace.Engine.{ValidateOptions}
use mksrv.Workspace.Hosts.{normalize_implicit_stacks}
use mksrv.Workspace.Fleet.{sort_strings}
use mksrv.Workspace.Load.{
  FileState, count_file, validate_and_decode_file, Loaded, load_tenants, load_users,
}
use mksrv.Workspace.Semantic.{Data, semantic_checks}

-- mksrv.lock, which no schema describes.
pub data LockFile : Type 0 where
  no_lock : LockFile
  unknown_lock : LockFile
  malformed_lock : LockFile
  decoded_lock : Lock → LockFile

-- What `Validate` reads: `paths` is what filepath.Glob lists of tenants/*.yaml.
pub record Disk : Type 0 where
  pub deployment : FileState Deployment
  pub paths : List Text
  pub tenant_at : Text → FileState Tenant
  pub users_at : Text → FileState UsersFile
  pub lock : LockFile

pub load_lock : LockFile → Report → Option (Option Lock × Report)
load_lock no_lock report = some (none, report)
load_lock unknown_lock report = none
load_lock malformed_lock report =
    some (none, semantic_error report (txt "mksrv.lock") (txt "$") (txt "lock.parse"))
load_lock (decoded_lock lock) report = some (some lock, count_file report)

-- What is loaded before the semantic checks.
pub record Files : Type 0 where
  pub deployment : Option Deployment
  pub tenants : Loaded Tenant
  pub users : Loaded UsersFile
  pub lock : Option Lock
  pub report : Report

pub start_report : Text → List (Text × Stack) → Report
start_report root catalog = record {
  valid = false;
  workspace = root;
  files_checked = 0;
  hosts = 0;
  tenants = 0;
  users = 0;
  catalog_stacks = length catalog;
  issues = [];
}

pub load_workspace : Disk → Report → Option Files
load_workspace disk start = do
  (deployment, r1) ← validate_and_decode_file (txt "deployment.yaml") disk.deployment start
  tenants ←
      load_tenants disk.tenant_at (sort_strings disk.paths)
        (record { values = []; files = []; report = r1 })
  users ←
      load_users disk.users_at (sort_strings disk.paths)
        (record { values = []; files = []; report = tenants.report })
  (lock, r2) ← load_lock disk.lock users.report
  some (record {
    deployment = deployment;
    tenants = tenants;
    users = users;
    lock = lock;
    report = r2;
  })

-- The zero value that a deployment that is not decoded leaves behind.
pub no_deployment : Deployment
no_deployment = record {
  engine = [];
  timezone = [];
  mgmt_cidr = [];
  aws = record { region = []; profile = [] };
  backend = record { type = []; bucket = []; key = []; dynamodb_table = []; region = [] };
  root_domain = [];
  identity = record { keycloak_domain = []; headscale_domain = []; acme_email = [] };
  hosts = [];
}

-- `normalizeImplicitStacks(&data.Deployment)`
pub normalized : Deployment → Deployment
normalized deployment = record deployment { hosts = normalize_implicit_stacks deployment.hosts }

pub data_of : List (Text × Stack) → Files → Deployment → Data
data_of catalog files deployment = record {
  deployment = deployment;
  tenants = files.tenants.values;
  tenant_files = files.tenants.files;
  users = files.users.values;
  users_files = files.users.files;
  lock = files.lock;
  catalog = catalog;
}

-- The last lines of `Validate`.
pub close_report : Data → Report → Report
close_report loaded report = record report {
  hosts = length loaded.deployment.hosts;
  tenants = length loaded.tenants;
  valid = not (has_errors report.issues);
}

module _ (is_location : Text → Bool) (catalog : List (Text × Stack))
    (options : ValidateOptions) where
  -- From `if deploymentOK` on.
  pub check_files : Files → Option Deployment → Data × Report
  check_files files none =
      let loaded = data_of catalog files no_deployment in (loaded, close_report loaded files.report)
  check_files files (some deployment) =
      let loaded = data_of catalog files (normalized deployment) in
      (loaded, close_report loaded (semantic_checks is_location loaded options files.report))

  pub validate : Text → Disk → Option (Data × Report)
  validate root disk = elim (load_workspace disk (start_report root catalog)) [
    | none ↦ none
    | some files ↦ some (check_files files files.deployment)
  ]
