-- ===== src/Workspace/Validate/Outcome.antt =====
-- What `Validate` accepts.
use mksrv.Common.{
  ◌≡◌, refl, sym, subst, ◌↔◌, inl, inr, Bool, true, not, Option, none, some, List, [], arith,
  Option-cases, is_some, All, Text, txt, count_if,
}
use mathlib.Core.Option.{some-injective, some-ne-none}
use mksrv.Model.Types.{Deployment, Tenant, UsersFile, Lock, Stack}
use mksrv.Workspace.Report.{Report}
use mksrv.Workspace.Report.Laws.{errors, has_errors-eq-false}
use mksrv.Workspace.Report.Outcome.{
  Reports, Reports-refl, Reports-trans, Reports-iff, Reports-error,
}
use mksrv.Workspace.Seen.{Distinct, IsFresh, IsFresh-start}
use mksrv.Workspace.Engine.{ValidateOptions}
use mksrv.Workspace.Fleet.{sort_strings}
use mksrv.Workspace.Load.{
  FileState, count_file, validate_and_decode_file, Loaded, load_tenants, load_users, is_users_file,
}
use mksrv.Workspace.Load.Outcome.{
  errors-count_file, value_of, CanBeRead, keys_in, IsRead, validate_and_decode_file_lem,
  load_files_lem,
}
use mksrv.Workspace.Semantic.{Data, semantic_checks}
use mksrv.Workspace.Semantic.Outcome.{WorkspaceIsValid, semantic_checks_lem}
use mksrv.Workspace.Validate.{
  LockFile, no_lock, unknown_lock, malformed_lock, decoded_lock, Disk, load_lock, Files,
  start_report, load_workspace, no_deployment, normalized, data_of, close_report, check_files,
  validate,
}

abbrev pub LockIsReadable : LockFile → Type 0
LockIsReadable no_lock = Unit
LockIsReadable unknown_lock = ⊥
LockIsReadable malformed_lock = ⊥
LockIsReadable (decoded_lock lock) = Unit

abbrev pub is_tenant_file : Text → Bool
is_tenant_file path = not (is_users_file path)

abbrev pub tenant_id : Tenant → Text
tenant_id tenant = tenant.id

abbrev pub tenant_of : UsersFile → Text
tenant_of users = users.tenant

-- The files can all be read and decoded, and no two of them have the same key.
pub record DiskIsReadable (disk : Disk) : Type 0 where
  pub deployment : is_some (value_of disk.deployment) ≡ true
  pub tenants : All (CanBeRead is_tenant_file tenant_id disk.tenant_at) (sort_strings disk.paths)
  pub tenant_ids :
      Distinct (keys_in is_tenant_file tenant_id disk.tenant_at (sort_strings disk.paths))
  pub users : All (CanBeRead is_users_file tenant_of disk.users_at) (sort_strings disk.paths)
  pub user_tenants :
      Distinct (keys_in is_users_file tenant_of disk.users_at (sort_strings disk.paths))
  pub lock : LockIsReadable disk.lock

load_lock_lem :
    (lock : LockFile) (report after : Report) (found : Option Lock)
    → load_lock lock report ≡ some (found, after)
    → Reports report after (LockIsReadable lock)
unfolding load_lock
load_lock_lem no_lock report after found e =
    let pair = some-injective (none, report) (found, after) e in
    subst (λ p. Reports report p.1 Unit) pair (Reports-refl report)
load_lock_lem unknown_lock report after found e = cc
load_lock_lem malformed_lock report after found e =
    let pair = some-injective (none, _) (found, after) e in
    subst (λ p. Reports report p.1 ⊥) pair (Reports-error _ _ _ report)
load_lock_lem (decoded_lock lock) report after found e =
    let pair = some-injective (some lock, count_file report) (found, after) e in
    let same = errors-count_file report in
    subst (λ p. Reports report p.1 Unit) pair
      (record { le = omega (arith, same); accepted = λ _. tt; silent = λ _. same })

load_tenants_lem :
    (read : Text → FileState Tenant) (paths : List Text) (start after : Loaded Tenant)
    → load_tenants read paths start ≡ some after
    → Reports start.report after.report (
        All (CanBeRead is_tenant_file tenant_id read) paths
        × IsFresh start.files (keys_in is_tenant_file tenant_id read paths))
unfolding load_tenants
load_tenants_lem read paths start after e =
    load_files_lem is_tenant_file tenant_id _ _ _ read paths start after e

load_users_lem :
    (read : Text → FileState UsersFile) (paths : List Text) (start after : Loaded UsersFile)
    → load_users read paths start ≡ some after
    → Reports start.report after.report (
        All (CanBeRead is_users_file tenant_of read) paths
        × IsFresh start.files (keys_in is_users_file tenant_of read paths))
unfolding load_users
load_users_lem read paths start after e =
    load_files_lem is_users_file tenant_of _ _ _ read paths start after e

pub record Loads (disk : Disk) (start : Report) (files : Files) : Type 0 where
  pub outcome : Reports start files.report (DiskIsReadable disk)
  pub deployment : files.deployment ≡ value_of disk.deployment

combine :
    (disk : Disk) (start r1 r2 : Report) (deployment : Option Deployment) (tenants : Loaded Tenant)
    (users : Loaded UsersFile) (lock : Option Lock)
    → IsRead start r1 disk.deployment deployment
    → Reports r1 tenants.report (
        All (CanBeRead is_tenant_file tenant_id disk.tenant_at) (sort_strings disk.paths)
        × IsFresh {V = Text} []
            (keys_in is_tenant_file tenant_id disk.tenant_at (sort_strings disk.paths)))
    → Reports tenants.report users.report (
        All (CanBeRead is_users_file tenant_of disk.users_at) (sort_strings disk.paths)
        × IsFresh {V = Text} []
            (keys_in is_users_file tenant_of disk.users_at (sort_strings disk.paths)))
    → Reports users.report r2 (LockIsReadable disk.lock)
    → Loads disk start (record {
      deployment = deployment;
      tenants = tenants;
      users = users;
      lock = lock;
      report = r2;
    })
combine disk start r1 r2 deployment tenants users lock d t u l =
    let ids =
      IsFresh-start Text
        (keys_in is_tenant_file tenant_id disk.tenant_at (sort_strings disk.paths)) in
    let names =
      IsFresh-start Text
        (keys_in is_users_file tenant_of disk.users_at (sort_strings disk.paths)) in
    record {
      outcome =
          Reports-iff
            (
              (λ (((some_deployment, (ts, fresh_ids)), (us, fresh_names)), lock_ok). record {
                deployment = subst (λ o. is_some o ≡ true) d.value some_deployment;
                tenants = ts;
                tenant_ids = ids.0 fresh_ids;
                users = us;
                user_tenants = names.0 fresh_names;
                lock = lock_ok;
              }),
              (λ v. (
                (
                  (
                    subst (λ o. is_some o ≡ true) (sym d.value) v.deployment,
                    (v.tenants, ids.1 v.tenant_ids),
                  ),
                  (v.users, names.1 v.user_tenants),
                ),
                v.lock,
              )),
            )
            (Reports-trans (Reports-trans (Reports-trans d.outcome t) u) l);
      deployment = d.value;
    }

load_workspace_lem :
    (disk : Disk) (start : Report) (files : Files)
    → load_workspace disk start ≡ some files
    → Loads disk start files
unfolding load_workspace
load_workspace_lem disk start files e =
    let paths = sort_strings disk.paths in
    elim (Option-cases (validate_and_decode_file (txt "deployment.yaml") disk.deployment start)) [
      | inl f1 ↦ absurd (some-ne-none files (sym (rw (f1, load_workspace) at e)))
      | inr ((deployment, r1), e1) ↦
          let first : Loaded Tenant = record { values = []; files = []; report = r1 } in
          elim (Option-cases (load_tenants disk.tenant_at paths first)) [
            | inl f2 ↦ absurd (some-ne-none files (sym (rw (e1, f2, load_workspace) at e)))
            | inr (tenants, e2) ↦
                let second : Loaded UsersFile = record {
                  values = [];
                  files = [];
                  report = tenants.report;
                } in
                elim (Option-cases (load_users disk.users_at paths second)) [
                  | inl f3 ↦
                      absurd (some-ne-none files (sym (rw (e1, e2, f3, load_workspace) at e)))
                  | inr (users, e3) ↦ elim (Option-cases (load_lock disk.lock users.report)) [
                    | inl f4 ↦
                        absurd (some-ne-none files (sym (rw (e1, e2, e3, f4, load_workspace) at e)))
                    | inr ((lock, r2), e4) ↦
                        let same =
                          some-injective _ files (rw (e1, e2, e3, e4, load_workspace) at e) in
                        subst (Loads disk start) same (
                          combine disk start r1 r2 deployment tenants users lock
                            (validate_and_decode_file_lem _ disk.deployment start r1 deployment e1)
                            (load_tenants_lem disk.tenant_at paths first tenants e2)
                            (load_users_lem disk.users_at paths second users e3)
                            (load_lock_lem disk.lock users.report r2 lock e4))
                  ]
                ]
          ]
    ]

module _ (is_location : Text → Bool) (catalog : List (Text × Stack))
    (options : ValidateOptions) where
  closed_iff :
      (loaded : Data) (report : Report)
      → ((close_report loaded report).valid ≡ true) ↔ (errors report ≡ 0)
  unfolding close_report
  closed_iff loaded report =
      let none_found = has_errors-eq-false report in
      (λ h. none_found.0 (ground (arith, h)), λ h. ground (arith, none_found.1 h))

  -- The report that is returned with the workspace is valid exactly when all is well.
  abbrev Accepts : Disk → Data × Report → Type 0
  Accepts disk (loaded, report) =
      (report.valid ≡ true) ↔ (DiskIsReadable disk × WorkspaceIsValid is_location loaded options)

  check_files_lem :
      (disk : Disk) (files : Files) (start : Report) (deployment : Option Deployment)
      → errors start ≡ 0
      → Reports start files.report (DiskIsReadable disk)
      → deployment ≡ value_of disk.deployment
      → Accepts disk (check_files is_location catalog options files deployment)
  unfolding check_files
  check_files_lem disk files start none clean loads e =
      let closed = closed_iff (data_of catalog files no_deployment) files.report in
      (
        λ h.
            let readable = loads.accepted (omega (arith, clean, closed.0 h)) in
            cc (e, readable.deployment),
        λ h. cc (e, h.0.deployment),
      )
  check_files_lem disk files start (some deployment) clean loads e =
      let loaded = data_of catalog files (normalized deployment) in
      let after = semantic_checks is_location loaded options files.report in
      let closed = closed_iff loaded after in
      let all = Reports-trans loads (semantic_checks_lem is_location loaded options files.report) in
      (
        λ h. all.accepted (omega (arith, clean, closed.0 h)),
        λ h. closed.1 (omega (arith, clean, all.silent h)),
      )

  errors-start_report : (root : Text) → errors (start_report root catalog) ≡ 0
  unfolding errors start_report count_if
  errors-start_report root = refl

  -- Whenever `Validate` returns a workspace and its report, without an error that ends it: the report
  -- is valid exactly when every file can be read and decoded, no two files have the same key, and the
  -- workspace that is returned is valid.
  pub validate_lem :
      (root : Text) (disk : Disk) (loaded : Data) (report : Report)
      → validate is_location catalog options root disk ≡ some (loaded, report)
      → (report.valid ≡ true) ↔ (DiskIsReadable disk × WorkspaceIsValid is_location loaded options)
  unfolding validate
  validate_lem root disk loaded report e =
      elim (Option-cases (load_workspace disk (start_report root catalog))) [
        | inl failed ↦ absurd (some-ne-none (loaded, report) (sym (rw (failed, validate) at e)))
        | inr (files, found) ↦
            let loads = load_workspace_lem disk (start_report root catalog) files found in
            let same = some-injective _ (loaded, report) (rw (found, validate) at e) in
            subst (Accepts disk) same (
              check_files_lem disk files (start_report root catalog) files.deployment
                (errors-start_report root) loads.outcome loads.deployment)
      ]
