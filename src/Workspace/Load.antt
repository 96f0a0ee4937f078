-- ===== src/Workspace/Load.antt =====
-- internal/workspace/workspace.go: the files that `Validate` loads. What the schema validator and the
-- decoder find in a file is a `FileState`. A path is relative to the workspace, whose files alone
-- are read; an error that ends the loading is `none`.
pub mod Outcome
pub mod Examples
use mksrv.Common.{
  ℕ, ◌+◌, Bool, not, Option, none, some, List, [], ◌∷◌, ◌++◌, arith, if◌then◌else◌, length, Text,
  txt, has_suffix, insert,
}
use mksrv.Model.Types.{Tenant, UsersFile}
use mksrv.Workspace.Report.{Report, semantic_error}
use mksrv.Workspace.Seen.{is_dup}
use mksrv.Workspace.Tenants.{base_name}

-- What os.ReadFile, the schema validator and encoding/json make of one file: the issues of the
-- schema with their paths and keywords, and the value that is decoded where it can be.
pub data FileState (A : Type 0) : Type 0 where
  missing : FileState A
  unreadable : FileState A
  malformed : FileState A
  checked : List (Text × Text) → Option A → FileState A

pub report_schema : Text → List (Text × Text) → Report → Report
report_schema file [] report = report
report_schema file ((path, keyword) ∷ found) report =
    report_schema file found (semantic_error report file path (txt "schema." ++ keyword))

-- `report.FilesChecked++`
pub count_file : Report → Report
count_file report = record report { files_checked = report.files_checked + 1 }

module _ {A : Type 0} where
  -- What follows the checks of the schema, which found nothing exactly for an empty list.
  unfoldable pub decode : List (Text × Text) → Option A → Report → Option (Option A × Report)
  decode [] none report = none
  decode [] (some value) report = some (some value, report)
  decode (issue ∷ issues) value report = some (none, report)

  -- `validateAndDecodeFile`; the value is there exactly when the source returns true.
  unfoldable pub validate_and_decode_file : Text → FileState A → Report → Option (Option A × Report)
  validate_and_decode_file file missing report =
      some (none, semantic_error report (base_name file) (txt "$") (txt "file.missing"))
  validate_and_decode_file file unreadable report = none
  validate_and_decode_file file malformed report =
      some (none, semantic_error (count_file report) file (txt "$") (txt "yaml.parse"))
  validate_and_decode_file file (checked issues value) report =
      decode issues value (report_schema file issues (count_file report))

-- The maps that a loop over the files fills.
pub record Loaded (A : Type 0) : Type 0 where
  pub values : List (Text × A)
  pub files : List (Text × Text)
  pub report : Report

-- The loops over the tenants and the users files differ in the paths that are wanted, the key of a
-- value, the number of users that is counted, and the place and code of a duplicate.
module _ {A : Type 0} (wanted : Text → Bool) (key : A → Text) (users_in : A → ℕ)
    (key_path duplicate : Text) (read : Text → FileState A) where
  pub store : Text → Option A → Loaded A → Report → Loaded A
  store path none state report = record state { report = report }
  store path (some value) state report =
      if is_dup state.files (key value)
      then record state { report = semantic_error report path key_path duplicate }
      else record {
        values = insert state.values (key value) value;
        files = insert state.files (key value) path;
        report = record report { users = report.users + users_in value };
      }

  pub load_file : Text → Loaded A → Option (Loaded A)
  load_file path state =
      if not (wanted path)
      then some state
      else elim (validate_and_decode_file path (read path) state.report) [
        | none ↦ none
        | some (found, report) ↦ some (store path found state report)
      ]

  unfoldable pub load_files : List Text → Loaded A → Option (Loaded A)
  load_files [] state = some state
  load_files (path ∷ paths) state = elim (load_file path state) [
    | none ↦ none
    | some next ↦ load_files paths next
  ]

pub is_users_file : Text → Bool
is_users_file path = has_suffix path (txt ".users.yaml")

-- `len(users.Users)`
pub count_users : UsersFile → ℕ
count_users users = length users.users

unfoldable pub load_tenants :
    (Text → FileState Tenant) → List Text → Loaded Tenant → Option (Loaded Tenant)
load_tenants =
    load_files (λ path. not (is_users_file path)) (λ tenant. tenant.id) (λ _. 0) (txt "$.id")
      (txt "tenant.id.duplicate")

unfoldable pub load_users :
    (Text → FileState UsersFile) → List Text → Loaded UsersFile → Option (Loaded UsersFile)
load_users =
    load_files is_users_file (λ users. users.tenant) count_users (txt "$.tenant")
      (txt "users.tenant.duplicate")
