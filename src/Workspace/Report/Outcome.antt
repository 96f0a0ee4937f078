-- ===== src/Workspace/Report/Outcome.antt =====
-- What a part of a validation finds, stated once for each way to put parts together. `Reports a b P`
-- says of a part that took the report from `a` to `b`: it takes no error back, and it adds none
-- exactly when `P` holds.
use mksrv.Common.{◌≤◌, ◌≡◌, refl, ◌↔◌, Bool, true, false, arith, if◌then◌else◌, Text}
use mksrv.Workspace.Report.{Report, semantic_error, semantic_warning}
use mksrv.Workspace.Report.Laws.{errors, errors-semantic_error, errors-semantic_warning}

pub record Reports (before after : Report) (P : Type 0) : Type 0 where
  pub le : errors before ≤ errors after
  pub accepted : errors after ≡ errors before → P
  pub silent : P → errors after ≡ errors before

-- `if condition { semanticError(...) }`
pub error_if : Bool → Report → Text → Text → Text → Report
error_if condition report file path code =
    if condition then semantic_error report file path code else report

pub Reports-refl : (r : Report) → Reports r r Unit
Reports-refl r = record { le = omega arith; accepted = λ h. tt; silent = λ h. refl }

pub Reports-trans :
    {a b c : Report} {P Q : Type 0} → Reports a b P → Reports b c Q → Reports a c (P × Q)
Reports-trans p q = record {
  le = omega (arith, p.le, q.le);
  accepted =
      λ h. (p.accepted (omega (arith, h, p.le, q.le)), q.accepted (omega (arith, h, p.le, q.le)));
  silent = λ h. omega (arith, p.silent h.0, q.silent h.1);
}

-- The same part under another statement of the same condition.
pub Reports-iff : {a b : Report} {P Q : Type 0} → P ↔ Q → Reports a b P → Reports a b Q
Reports-iff e p = record {
  le = p.le;
  accepted = λ h. e.0 (p.accepted h);
  silent = λ h. p.silent (e.1 h);
}

module _ (file path code : Text) where
  pub Reports-error : (r : Report) → Reports r (semantic_error r file path code) ⊥
  Reports-error r = record {
    le = omega (arith, errors-semantic_error r file path code);
    accepted = λ h. omega (arith, errors-semantic_error r file path code);
    silent = λ h. absurd h;
  }

  pub Reports-warning : (r : Report) → Reports r (semantic_warning r file path code) Unit
  Reports-warning r = record {
    le = omega (arith, errors-semantic_warning r file path code);
    accepted = λ h. tt;
    silent = λ h. errors-semantic_warning r file path code;
  }

  pub Reports-error_if :
      (condition : Bool) (r : Report)
      → Reports r (error_if condition r file path code) (condition ≡ false)
  unfolding error_if
  Reports-error_if true r = Reports-iff ((λ h. absurd h), (λ h. cc)) (Reports-error r)
  Reports-error_if false r = Reports-iff ((λ h. refl), (λ h. tt)) (Reports-refl r)

-- One more guarded error behind a part.
pub Reports-and_if :
    {a b : Report} {P : Type 0} (condition : Bool) (file path code : Text)
    → Reports a b P
    → Reports a (error_if condition b file path code) (P × (condition ≡ false))
Reports-and_if {b = b} condition file path code p =
    Reports-trans p (Reports-error_if file path code condition b)
