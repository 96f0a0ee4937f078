-- ===== src/Workspace/Validate/Examples.antt =====
-- The validation of a concrete workspace.
use mksrv.Common.{
  ◌≡◌, refl, ◌↔◌, Bool, true, false, none, some, [], Text, txt, text_eq, slice_stable,
}
use mksrv.Workspace.Report.{Report}
use mksrv.Workspace.Engine.{ValidateOptions}
use mksrv.Workspace.Fleet.{sort_strings}
use mksrv.Workspace.Load.{
  missing, checked, report_schema, count_file, decode, validate_and_decode_file, load_files,
  load_tenants, load_users,
}
use mksrv.Workspace.Semantic.{Data}
use mksrv.Workspace.Semantic.Outcome.{WorkspaceIsValid}
use mksrv.Workspace.Validate.{
  no_lock, Disk, load_lock, Files, start_report, load_workspace, no_deployment, check_files,
  validate,
}
use mksrv.Workspace.Validate.Outcome.{DiskIsReadable, validate_lem}

abbrev disk : Disk
disk = record {
  deployment = checked [] (some no_deployment);
  paths = [];
  tenant_at = λ _. missing;
  users_at = λ _. missing;
  lock = no_lock;
}

abbrev options : ValidateOptions
options = record { running_version = txt "0.8.0"; allow_downgrade = false }

abbrev is_location : Text → Bool
is_location name = text_eq name (txt "Etc/UTC")

abbrev first_report : Report
first_report = report_schema (txt "deployment.yaml") [] (count_file (start_report (txt "/ws") []))

abbrev files : Files
files = record {
  deployment = some no_deployment;
  tenants = record { values = []; files = []; report = first_report };
  users = record { values = []; files = []; report = first_report };
  lock = none;
  report = first_report;
}

abbrev outcome : Data × Report
outcome = check_files is_location [] options files files.deployment

validate_example :
    (outcome.1.valid ≡ true)
    ↔ (DiskIsReadable disk × WorkspaceIsValid is_location outcome.0 options)
unfolding validate load_workspace load_lock load_tenants load_users load_files
    validate_and_decode_file decode sort_strings slice_stable
validate_example = validate_lem is_location [] options (txt "/ws") disk outcome.0 outcome.1 refl
