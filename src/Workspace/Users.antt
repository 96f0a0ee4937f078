-- ===== src/Workspace/Users.antt =====
-- internal/workspace/semantic.go: the part of `semanticChecks` that visits the users files.
use mksrv.Common.{
  ℕ, suc, ◌≡◌, true, not, List, [], ◌∷◌, ◌++◌, arith, is_some, All, Text, txt, text_eq, trim_space,
  to_lower, trim_suffix, itoa, lookup,
}
use mksrv.Model.Types.{Tenant, User, UsersFile}
use mksrv.Workspace.Report.{Report}
use mksrv.Workspace.Report.Outcome.{
  Reports, Reports-refl, Reports-trans, Reports-iff, error_if, Reports-error_if, Reports-and_if,
}
use mksrv.Workspace.Seen.{is_dup, note, Distinct, IsFresh, IsFresh-nil, IsFresh-cons, IsFresh-start}
use mksrv.Workspace.Tenants.{base_name, file_of}

-- The address by which users are told apart.
pub normal_email : User → Text
normal_email user = to_lower (trim_space user.email)

-- The loop over the users of one file.
pub check_emails : Text → ℕ → List (Text × ℕ) → List User → Report → Report
check_emails file index seen [] report = report
check_emails file index seen (user ∷ users) report =
    check_emails file (suc index) (note seen (normal_email user) index) users (
      error_if (is_dup seen (normal_email user)) report file
        (txt "$.users[" ++ (itoa index ++ txt "].email")) (txt "users.email.duplicate"))

-- The body of the loop over the users files.
pub check_users_file : List (Text × Tenant) → Text → Text → UsersFile → Report → Report
check_users_file tenants tenant_id file users report = check_emails file 0 [] users.users (
    error_if (not (is_some (lookup tenants tenant_id)))
      (error_if (not (text_eq users.tenant (trim_suffix (base_name file) (txt ".users.yaml"))))
        report file (txt "$.tenant") (txt "users.filename"))
      file (txt "$.tenant") (txt "users.tenant.missing"))

module _ (tenants : List (Text × Tenant)) (files : List (Text × Text)) where
  pub check_users : List (Text × UsersFile) → Report → Report
  check_users [] report = report
  check_users ((tenant_id, users) ∷ rest) report =
      check_users rest (check_users_file tenants tenant_id (file_of files tenant_id) users report)

abbrev pub emails : List User → List Text
emails [] = []
emails (user ∷ users) = normal_email user ∷ emails users

-- The file is named for its tenant, which exists, and no address is given twice.
pub record UsersAreValid (tenants : List (Text × Tenant)) (tenant_id file : Text)
    (users : UsersFile) : Type 0 where
  pub filename : text_eq users.tenant (trim_suffix (base_name file) (txt ".users.yaml")) ≡ true
  pub tenant : is_some (lookup tenants tenant_id) ≡ true
  pub distinct : Distinct (emails users.users)

check_emails_lem :
    (file : Text) (index : ℕ) (seen : List (Text × ℕ)) (users : List User) (report : Report)
    → Reports report (check_emails file index seen users report) (IsFresh seen (emails users))
unfolding check_emails
check_emails_lem file index seen [] report = Reports-iff (IsFresh-nil seen) (Reports-refl report)
check_emails_lem file index seen (user ∷ users) report =
    Reports-iff (IsFresh-cons seen (normal_email user) index (emails users)) (
      Reports-trans (Reports-error_if _ _ _ _ report) (check_emails_lem file (suc index) _ users _))

check_users_file_lem :
    (tenants : List (Text × Tenant)) (tenant_id file : Text) (users : UsersFile) (report : Report)
    → Reports report
        (check_users_file tenants tenant_id file users report)
        (UsersAreValid tenants tenant_id file users)
unfolding check_users_file
check_users_file_lem tenants tenant_id file users report =
    let start = IsFresh-start ℕ (emails users.users) in
    Reports-iff
      (
        (λ h. record {
          filename = ground (arith, h.0.0);
          tenant = ground (arith, h.0.1);
          distinct = start.0 h.1;
        }),
        (λ h. ((ground (arith, h.filename), ground (arith, h.tenant)), start.1 h.distinct)),
      )
      (Reports-trans (Reports-and_if _ _ _ _ (Reports-error_if _ _ _ _ report))
        (check_emails_lem file 0 [] users.users _))

module _ (tenants : List (Text × Tenant)) (files : List (Text × Text)) where
  abbrev pub UsersEntryIsValid : Text × UsersFile → Type 0
  UsersEntryIsValid entry = UsersAreValid tenants entry.0 (file_of files entry.0) entry.1

  -- The loop over the users files adds no error exactly when each file is named for its tenant,
  -- belongs to a tenant of the workspace, and gives no address twice, whatever its case and the
  -- space around it.
  pub check_users_lem :
      (users : List (Text × UsersFile)) (report : Report)
      → Reports report (check_users tenants files users report) (All UsersEntryIsValid users)
  unfolding check_users
  check_users_lem [] report = Reports-refl report
  check_users_lem ((tenant_id, file) ∷ rest) report =
      Reports-trans (check_users_file_lem tenants tenant_id (file_of files tenant_id) file report)
        (check_users_lem rest _)
