-- ===== src/Workspace/Domain.antt =====
-- internal/workspace/semantic.go: `checkDomainWithinRoot`
use mksrv.Common.{
  ◌≡◌, ◌⊎◌, inl, inr, ◌&&◌, ◌||◌, not, [], ◌++◌, arith, if◌then◌else◌, Bool-cases, Text, txt,
  text_eq, text_eq_iff, text_eq_sound, has_suffix, trim_space, to_lower, trim_suffix,
  has_suffix_iff,
}
use mksrv.Workspace.Report.{Report}
use mksrv.Workspace.Report.Outcome.{Reports, Reports-refl, Reports-iff, error_if, Reports-error_if}

-- A domain with no space around it, in lower case, with no final dot.
pub normal_domain : Text → Text
normal_domain domain = trim_suffix (to_lower (trim_space domain)) (txt ".")

pub check_normal_domain : Text → Text → Text → Text → Report → Report
check_normal_domain file value_path domain root report =
    if text_eq domain [] || text_eq root []
    then report
    else error_if (not (text_eq domain root) && not (has_suffix domain (txt "." ++ root))) report
        file value_path (txt "domain.outside_root")

pub check_domain_within_root : Text → Text → Text → Text → Report → Report
check_domain_within_root file value_path domain root =
    check_normal_domain file value_path (normal_domain domain) (normal_domain root)

-- One of the names is empty, or the domain is the root or ends in a dot and the root.
abbrev pub IsWithin : Text → Text → Type 0
IsWithin domain root =
    (domain ≡ [])
    ⊎ (root ≡ [])
    ⊎ (domain ≡ root)
    ⊎ ((label : Text) × (domain ≡ label ++ (txt "." ++ root)))

check_normal_domain_lem :
    (file value_path domain root : Text) (report : Report)
    → Reports report (check_normal_domain file value_path domain root report) (IsWithin domain root)
unfolding check_normal_domain
check_normal_domain_lem file value_path domain root report =
    elim (Bool-cases (text_eq domain [] || text_eq root [])) [
      | inl e ↦
          rw (e, check_normal_domain)
            (Reports-iff
              (
                (λ h. elim (Bool-cases (text_eq domain [])) [
                  | inl d ↦ inl (text_eq_sound domain [] d)
                  | inr d ↦ inr (inl (text_eq_sound root [] (ground arith)))
                ]),
                (λ h. tt),
              )
              (Reports-refl report))
      | inr e ↦
          let suffix = has_suffix_iff domain (txt "." ++ root) in
          rw (e, check_normal_domain)
            (Reports-iff
              (
                (λ h. elim (Bool-cases (text_eq domain root)) [
                  | inl d ↦ inr (inr (inl (text_eq_sound domain root d)))
                  | inr d ↦ inr (inr (inr (suffix.0 (ground arith))))
                ]),
                (λ h. elim h [
                  | inl d ↦ ground (arith, text_eq_iff domain [])
                  | inr (inl d) ↦ ground (arith, text_eq_iff root [])
                  | inr (inr (inl d)) ↦ ground (arith, text_eq_iff domain root)
                  | inr (inr (inr d)) ↦ ground (arith, suffix.1 d)
                ]),
              )
              (Reports-error_if _ _ _ _ report))
    ]

-- `checkDomainWithinRoot` adds no error exactly when the domain or the root is empty, or the domain
-- is the root or a subdomain of it, both without surrounding space, case and a final dot.
pub check_domain_within_root_lem :
    (file value_path domain root : Text) (report : Report)
    → Reports report
        (check_domain_within_root file value_path domain root report)
        (IsWithin (normal_domain domain) (normal_domain root))
unfolding check_domain_within_root
check_domain_within_root_lem file value_path domain root report =
    check_normal_domain_lem file value_path (normal_domain domain) (normal_domain root) report
