-- ===== src/Workspace/Checks/Forwards.antt =====
-- `checkTenantForwards`
use mksrv.Common.{
  ℕ, suc, ◌+◌, ◌≤◌, ◌≡◌, Bool, true, false, ◌&&◌, not, List, [], ◌∷◌, ◌++◌, arith, ltb, length, All,
  Text, txt, text_eq, trim_space, itoa, contains, is_host_port,
}
use mksrv.Model.Types.{Tenant, TenantForward}
use mksrv.Workspace.Report.{Report}
use mksrv.Workspace.Report.Outcome.{
  Reports, Reports-refl, Reports-trans, Reports-iff, error_if, Reports-error_if, Reports-and_if,
}
use mksrv.Workspace.Seen.{is_dup, note, Distinct, IsFresh, IsFresh-start, IsFresh-cons}

pub reserved_forward_ids : List Text
reserved_forward_ids =
    txt "edge-health" ∷ txt "database" ∷ txt "rest" ∷ txt "cache" ∷ txt "openbao" ∷ []

-- `fwd.Type == "ssh" && strings.TrimSpace(fwd.SSHAlias) == ""`
pub lacks_ssh_alias : TenantForward → Bool
lacks_ssh_alias fwd = text_eq fwd.type (txt "ssh") && text_eq (trim_space fwd.ssh_alias) []

forward_path : ℕ → Text → Text
forward_path i field = txt "$.forwards[" ++ (itoa i ++ (txt "]" ++ field))

-- The body of the loop, for the forward at index `i`.
pub check_forward : Text → ℕ → List (Text × ℕ) → TenantForward → Report → Report
check_forward file i seen fwd report =
    error_if (lacks_ssh_alias fwd)
      (error_if (not (is_host_port fwd.target))
        (error_if (is_dup seen fwd.id)
          (error_if (contains reserved_forward_ids fwd.id) report file (forward_path i (txt ".id"))
            (txt "forward.reserved"))
          file (forward_path i (txt ".id")) (txt "forward.duplicate"))
        file (forward_path i (txt ".target")) (txt "forward.target"))
      file (forward_path i (txt ".ssh_alias")) (txt "forward.ssh_alias")

pub check_forwards : Text → ℕ → List (Text × ℕ) → List TenantForward → Report → Report
check_forwards file i seen [] report = report
check_forwards file i seen (fwd ∷ forwards) report =
    check_forwards file (suc i) (note seen fwd.id i) forwards (check_forward file i seen fwd report)

pub check_tenant_forwards : Text → Tenant → Report → Report
check_tenant_forwards file tenant report =
    error_if (ltb 32 (length tenant.forwards + 5)) (check_forwards file 0 [] tenant.forwards report)
      file (txt "$.forwards") (txt "forward.count")

-- A forward that is right in itself.
pub record IsForwardOk (fwd : TenantForward) : Type 0 where
  pub unreserved : contains reserved_forward_ids fwd.id ≡ false
  pub reachable : is_host_port fwd.target ≡ true
  pub alias : text_eq fwd.type (txt "ssh") ≡ true → text_eq (trim_space fwd.ssh_alias) [] ≡ false

abbrev pub forward_ids : List TenantForward → List Text
forward_ids [] = []
forward_ids (fwd ∷ forwards) = fwd.id ∷ forward_ids forwards

pub record HasValidForwards (tenant : Tenant) : Type 0 where
  pub each : All IsForwardOk tenant.forwards
  pub distinct : Distinct (forward_ids tenant.forwards)
  pub few : length tenant.forwards ≤ 27

check_forward_lem :
    (file : Text) (i : ℕ) (seen : List (Text × ℕ)) (fwd : TenantForward) (report : Report)
    → Reports report
        (check_forward file i seen fwd report)
        (IsForwardOk fwd × (is_dup seen fwd.id ≡ false))
unfolding check_forward lacks_ssh_alias
check_forward_lem file i seen fwd report =
    Reports-iff
      (
        (λ h. (
          record { unreserved = h.0.0.0; reachable = ground arith; alias = λ ssh. ground arith },
          h.0.0.1,
        )),
        (λ h. (((h.0.unreserved, h.1), ground arith), ground (arith, h.0.alias))),
      )
      (Reports-and_if _ _ _ _
        (Reports-and_if _ _ _ _ (Reports-and_if _ _ _ _ (Reports-error_if _ _ _ _ report))))

check_forwards_lem :
    (file : Text) (i : ℕ) (seen : List (Text × ℕ)) (forwards : List TenantForward) (report : Report)
    → Reports report
        (check_forwards file i seen forwards report)
        (All IsForwardOk forwards × IsFresh seen (forward_ids forwards))
unfolding check_forwards
check_forwards_lem file i seen [] report =
    Reports-iff ((λ h. (tt, (tt, tt))), (λ h. tt)) (Reports-refl report)
check_forwards_lem file i seen (fwd ∷ forwards) report =
    Reports-iff
      (
        (λ h.
            ((h.0.0, h.1.0), (IsFresh-cons seen fwd.id i (forward_ids forwards)).0 (h.0.1, h.1.1))),
        (λ h.
            let fresh = (IsFresh-cons seen fwd.id i (forward_ids forwards)).1 h.1 in
            ((h.0.0, fresh.0), (h.0.1, fresh.1))),
      )
      (Reports-trans (check_forward_lem file i seen fwd report) (
        check_forwards_lem file (suc i) (note seen fwd.id i) forwards
          (check_forward file i seen fwd report)))

-- `checkTenantForwards` adds no error exactly when every forward avoids the reserved ids, has a
-- host:port target and, if it is an ssh forward, an alias; when no id occurs twice; and when there
-- are at most 27 of them, so that the client's limit of 32 leaves room for the built-in ones.
pub check_tenant_forwards_lem :
    (file : Text) (tenant : Tenant) (report : Report)
    → Reports report (check_tenant_forwards file tenant report) (HasValidForwards tenant)
unfolding check_tenant_forwards
check_tenant_forwards_lem file tenant report =
    Reports-iff
      (
        (λ h. record { each = h.0.0; distinct = h.0.1.1; few = ground arith }),
        (λ h. (
          (h.each, (IsFresh-start ℕ (forward_ids tenant.forwards)).1 h.distinct),
          ground (arith, h.few),
        )),
      )
      (Reports-and_if _ _ _ _ (check_forwards_lem file 0 [] tenant.forwards report))
