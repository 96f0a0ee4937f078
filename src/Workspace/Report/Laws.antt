-- ===== src/Workspace/Report/Laws.antt =====
-- What `add_issue` keeps of a report, and what an error in it means.
use mksrv.Common.{
  ℕ, ◌+◌, ◌≡◌, refl, ◌↔◌, Bool, false, not, List, [], ◌∷◌, ◌++◌, arith, ltb, if◌then◌else◌, Text,
  txt, text_eq, text_eq_refl, count_if, count_if-slice_stable, count_if-append,
}
use mksrv.Workspace.Report.{
  Issue, Report, issue_less, add_issue, error_text, warning_text, semantic_error, semantic_warning,
  has_errors,
}

pub is_error : Issue → Bool
is_error issue = text_eq issue.severity error_text

-- The number of the errors of a report.
unfoldable pub errors : Report → ℕ
unfolding is_error
errors report = count_if is_error report.issues

pub errors-add_issue :
    (report : Report) (issue : Issue)
    → errors (add_issue report issue)
      ≡ (if is_error issue then errors report + 1 else errors report)
unfolding errors add_issue count_if
errors-add_issue report issue = ground (
  arith,
  count_if-slice_stable issue_less is_error (report.issues ++ issue ∷ []),
  count_if-append is_error report.issues (issue ∷ []),
)

module _ (report : Report) (file path code : Text) where
  pub errors-semantic_error : errors (semantic_error report file path code) ≡ errors report + 1
  unfolding semantic_error is_error
  errors-semantic_error = ground (
    arith,
    errors-add_issue report
        (record { severity = error_text; file = file; path = path; code = code }),
    text_eq_refl error_text,
  )

  pub errors-semantic_warning : errors (semantic_warning report file path code) ≡ errors report
  unfolding semantic_warning is_error warning_text error_text txt text_eq
  errors-semantic_warning =
      errors-add_issue report
        (record { severity = warning_text; file = file; path = path; code = code })

has_errors-count_if : (issues : List Issue) → has_errors issues ≡ ltb 0 (count_if is_error issues)
unfolding has_errors count_if is_error
has_errors-count_if [] = refl
has_errors-count_if (issue ∷ issues) = ground (arith, has_errors-count_if issues)

-- `hasErrors` finds an error exactly when there is one.
pub has_errors-eq-false :
    (report : Report) → (has_errors report.issues ≡ false) ↔ (errors report ≡ 0)
unfolding errors
has_errors-eq-false report = ground (arith, has_errors-count_if report.issues)

-- The number of the issues that are no errors.
pub warnings : Report → ℕ
unfolding is_error
warnings report = count_if (λ issue. not (is_error issue)) report.issues

warnings-add_issue :
    (report : Report) (issue : Issue)
    → warnings (add_issue report issue)
      ≡ (if is_error issue then warnings report else warnings report + 1)
unfolding warnings add_issue count_if
warnings-add_issue report issue = ground (
  arith,
  count_if-slice_stable issue_less (λ i. not (is_error i)) (report.issues ++ issue ∷ []),
  count_if-append (λ i. not (is_error i)) report.issues (issue ∷ []),
)

pub warnings-semantic_warning :
    (report : Report) (file path code : Text)
    → warnings (semantic_warning report file path code) ≡ warnings report + 1
unfolding semantic_warning is_error warning_text error_text txt text_eq
warnings-semantic_warning report file path code =
    warnings-add_issue report
      (record { severity = warning_text; file = file; path = path; code = code })
