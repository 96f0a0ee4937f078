-- ===== src/Workspace/Report.antt =====
-- internal/workspace/workspace.go: the report of a validation and the functions that write to it.
-- An issue's message is text for the operator that no code reads, and is left out.
pub mod Laws
pub mod Outcome
use mksrv.Common.{
  ℕ, ◌+◌, Bool, true, false, not, List, [], ◌∷◌, ◌++◌, arith, if◌then◌else◌, Text, txt, text_eq,
  text_lt, slice_stable,
}

pub record Issue : Type 0 where
  pub severity : Text
  pub file : Text
  pub path : Text
  pub code : Text

pub record Report : Type 0 where
  pub valid : Bool
  pub workspace : Text
  pub files_checked : ℕ
  pub hosts : ℕ
  pub tenants : ℕ
  pub users : ℕ
  pub catalog_stacks : ℕ
  pub issues : List Issue

-- `if a.key != b.key { return a.key < b.key }`, followed by the other keys.
pub by_key : (Issue → Text) → (Issue → Issue → Bool) → Issue → Issue → Bool
by_key key rest a b = if not (text_eq (key a) (key b)) then text_lt (key a) (key b) else rest a b

-- The comparison of `addIssue`.
pub issue_less : Issue → Issue → Bool
unfolding by_key
issue_less =
    by_key (λ i. i.severity)
      (by_key (λ i. i.file) (by_key (λ i. i.path) (λ a b. text_lt a.code b.code)))

pub add_issue : Report → Issue → Report
unfolding issue_less
add_issue report issue = record report {
  issues = slice_stable issue_less (report.issues ++ issue ∷ []);
}

unfoldable pub error_text : Text
error_text = txt "error"

unfoldable pub warning_text : Text
warning_text = txt "warning"

pub semantic_error : Report → Text → Text → Text → Report
semantic_error report file path code =
    add_issue report (record { severity = error_text; file = file; path = path; code = code })

pub semantic_warning : Report → Text → Text → Text → Report
semantic_warning report file path code =
    add_issue report (record { severity = warning_text; file = file; path = path; code = code })

pub has_errors : List Issue → Bool
has_errors [] = false
has_errors (issue ∷ issues) = if text_eq issue.severity error_text then true else has_errors issues
