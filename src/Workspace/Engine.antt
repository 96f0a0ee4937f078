-- ===== src/Workspace/Engine.antt =====
-- internal/workspace/semantic.go: `checkEngineVersions`
use mksrv.Common.{
  ℕ, zero, suc, ◌≡◌, refl, ◌↔◌, inl, inr, Bool, true, false, ◌&&◌, not, Option, none, some, [],
  arith, if◌then◌else◌, Bool-cases, Text, txt, text_eq, trim_space, ℤ, pos, negsuc,
}
use mksrv.Model.Types.{Lock}
use mksrv.Workspace.Report.{Report, semantic_error, semantic_warning}
use mksrv.Workspace.Report.Outcome.{
  Reports, Reports-refl, Reports-trans, Reports-iff, Reports-error, Reports-warning,
}
use mksrv.Workspace.Semver.{compare_semver}

pub record ValidateOptions : Type 0 where
  pub running_version : Text
  pub allow_downgrade : Bool

-- A version that is given and is not the development build.
pub is_release : Text → Bool
is_release version = not (text_eq version []) && not (text_eq version (txt "dev"))

engine_error : Report → Text → Report
engine_error report code = semantic_error report (txt "deployment.yaml") (txt "$.engine") code

engine_warning : Text → Report → Text → Report
engine_warning file report code = semantic_warning report file (txt "$.engine") code

-- The branches on the result of the comparison.
pub check_comparison : Option ℤ → Bool → Report → Report
check_comparison none allow_downgrade report = engine_error report (txt "engine.version")
check_comparison (some (negsuc n)) allow_downgrade report =
    if not allow_downgrade then engine_error report (txt "engine.downgrade") else report
check_comparison (some (pos zero)) allow_downgrade report = report
check_comparison (some (pos (suc n))) allow_downgrade report =
    engine_warning (txt "deployment.yaml") report (txt "engine.upgrade")

pub check_running : Text → Text → Bool → Report → Report
check_running running declared allow_downgrade report =
    if is_release running && is_release declared
    then check_comparison (compare_semver running declared) allow_downgrade report
    else report

pub check_lock : Option Lock → Text → Report → Report
check_lock none declared report = report
check_lock (some lock) declared report =
    if text_eq (trim_space lock.engine) []
    then semantic_error report (txt "mksrv.lock") (txt "$.engine") (txt "lock.engine.empty")
    else if not (text_eq declared []) && not (text_eq lock.engine declared)
    then engine_warning (txt "mksrv.lock") report (txt "lock.engine.drift")
    else report

pub check_engine_versions : Text → Option Lock → ValidateOptions → Report → Report
check_engine_versions engine lock options report =
    let running = trim_space options.running_version in
    let declared = trim_space engine in
    check_lock lock declared (check_running running declared options.allow_downgrade report)

-- The running release can be compared, and is not older unless a downgrade is allowed.
pub record IsRunnable (running declared : Text) (allow_downgrade : Bool) : Type 0 where
  pub comparison : ℤ
  pub compared : compare_semver running declared ≡ some comparison
  pub current : (n : ℕ) → comparison ≡ negsuc n → allow_downgrade ≡ true

abbrev pub LockIsNamed : Option Lock → Type 0
LockIsNamed none = Unit
LockIsNamed (some lock) = text_eq (trim_space lock.engine) [] ≡ false

pub record EngineIsFit (engine : Text) (lock : Option Lock) (options : ValidateOptions)
    : Type 0 where
  pub runnable :
      is_release (trim_space options.running_version) && is_release (trim_space engine) ≡ true
      → IsRunnable (trim_space options.running_version) (trim_space engine) options.allow_downgrade
  pub locked : LockIsNamed lock

abbrev ComparisonOk : Option ℤ → Bool → Type 0
ComparisonOk none allow = ⊥
ComparisonOk (some c) allow = (n : ℕ) → c ≡ negsuc n → allow ≡ true

check_comparison_lem :
    (c : Option ℤ) (allow : Bool) (report : Report)
    → Reports report (check_comparison c allow report) (ComparisonOk c allow)
unfolding check_comparison engine_error engine_warning
check_comparison_lem none allow report = Reports-error _ _ _ report
check_comparison_lem (some (negsuc n)) true report =
    Reports-iff ((λ h m e. refl), (λ h. tt)) (Reports-refl report)
check_comparison_lem (some (negsuc n)) false report =
    Reports-iff ((λ h. absurd h), (λ h. cc (h n refl))) (Reports-error _ _ _ report)
check_comparison_lem (some (pos zero)) allow report =
    Reports-iff ((λ h m e. cc), (λ h. tt)) (Reports-refl report)
check_comparison_lem (some (pos (suc n))) allow report =
    Reports-iff ((λ h m e. cc), (λ h. tt)) (Reports-warning _ _ _ report)

ComparisonOk-IsRunnable :
    (running declared : Text) (allow : Bool) (c : Option ℤ)
    → compare_semver running declared ≡ c
    → ComparisonOk c allow ↔ IsRunnable running declared allow
ComparisonOk-IsRunnable running declared allow none e = (λ h. absurd h, λ r. cc (e, r.compared))
ComparisonOk-IsRunnable running declared allow (some c) e = (
  λ h. record { comparison = c; compared = e; current = h },
  λ r n h. r.current n (ground (arith, r.compared)),
)

check_running_lem :
    (running declared : Text) (allow : Bool) (report : Report)
    → Reports report
        (check_running running declared allow report)
        (is_release running && is_release declared ≡ true → IsRunnable running declared allow)
unfolding check_running
check_running_lem running declared allow report =
    elim (Bool-cases (is_release running && is_release declared)) [
      | inl e ↦
          let ok =
            ComparisonOk-IsRunnable running declared allow (compare_semver running declared) refl in
          rw (e, check_running)
            (Reports-iff ((λ h _. ok.0 h), (λ h. ok.1 (h refl)))
              (check_comparison_lem (compare_semver running declared) allow report))
      | inr e ↦ rw (e, check_running) (Reports-iff ((λ h k. cc), (λ h. tt)) (Reports-refl report))
    ]

check_lock_lem :
    (lock : Option Lock) (declared : Text) (report : Report)
    → Reports report (check_lock lock declared report) (LockIsNamed lock)
unfolding check_lock engine_warning
check_lock_lem none declared report = Reports-refl report
check_lock_lem (some lock) declared report =
    elim (Bool-cases (text_eq (trim_space lock.engine) [])) [
      | inl e ↦
          rw (e, check_lock) (Reports-iff ((λ h. absurd h), (λ h. cc)) (Reports-error _ _ _ report))
      | inr e ↦
          elim (Bool-cases (not (text_eq declared []) && not (text_eq lock.engine declared))) [
            | inl d ↦
                rw (e, d, check_lock)
                  (Reports-iff ((λ h. refl), (λ h. tt)) (Reports-warning _ _ _ report))
            | inr d ↦
                rw (e, d, check_lock) (Reports-iff ((λ h. refl), (λ h. tt)) (Reports-refl report))
          ]
    ]

-- `checkEngineVersions` adds no error exactly when two releases, the running and the declared one,
-- compare and the running one is not older, unless a downgrade is allowed; and when a lock names an
-- engine.
pub check_engine_versions_lem :
    (engine : Text) (lock : Option Lock) (options : ValidateOptions) (report : Report)
    → Reports report
        (check_engine_versions engine lock options report)
        (EngineIsFit engine lock options)
unfolding check_engine_versions
check_engine_versions_lem engine lock options report =
    Reports-iff ((λ h. record { runnable = h.0; locked = h.1 }), (λ h. (h.runnable, h.locked)))
      (Reports-trans (check_running_lem _ _ options.allow_downgrade report)
        (check_lock_lem lock (trim_space engine) _))
