-- ===== src/Workspace/Cycles.antt =====
-- internal/workspace/semantic.go: `checkCatalogCycles`, the depth-first search for dependency cycles
-- of the stack catalog. The chain of names that the program carries is read only by the message of
-- an issue, and is left out with the messages.
pub mod Graph
mod Faults
mod Sound
mod Complete
pub mod Theorem
use mksrv.Common.{
  ℕ, zero, suc, ◌+◌, ◌-◌, ◌/◌, ◌≡◌, refl, ◌⊎◌, inl, inr, none, some, List, [], ◌∷◌, ◌++◌, arith,
  if◌then◌else◌, length, Text, txt, text_eq, lookup, keys,
}
use mksrv.Model.Types.{Stack}
use mksrv.Workspace.Report.{Report, semantic_error}

-- The values 0, 1 and 2 of the map `state`.
pub data Color : Type 0 where
  white grey black : Color

pub record Walk : Type 0 where
  pub state : Text → Color
  pub report : Report

-- `catalog[name].DependsOn`
unfoldable pub depends_on : List (Text × Stack) → Text → List Text
depends_on catalog name = elim (lookup catalog name) [ none ↦ [] | some stack ↦ stack.depends_on ]

-- `state[name] = color`
unfoldable pub mark : Text → Color → Walk → Walk
mark name color walk = record walk {
  state = λ other. if text_eq name other then color else walk.state other;
}

stack_file : Text → Text
stack_file name = txt "stacks/" ++ (name ++ txt "/stack.yaml")

pub report_cycle : Text → Walk → Walk
report_cycle name walk = record walk {
  report =
      semantic_error walk.report (stack_file name) (txt "$.depends_on")
        (txt "stack.dependency.cycle");
}

pub report_unknown : Text → Walk → Walk
report_unknown name walk = record walk {
  report =
      semantic_error walk.report (stack_file name) (txt "$.depends_on")
        (txt "stack.dependency.unknown");
}

module _ (catalog : List (Text × Stack)) where
  -- One round of the loop over the dependencies of `name`; `go` is the recursive call.
  unfoldable pub visit_dependency : (Text → Walk → Walk) → Text → Text → Walk → Walk
  visit_dependency go name dependency walk = elim (lookup catalog dependency) [
    | none ↦ report_unknown name walk
    | some stack ↦ go dependency walk
  ]

  unfoldable pub visit_all : (Text → Walk → Walk) → Text → List Text → Walk → Walk
  visit_all go name [] walk = walk
  visit_all go name (dependency ∷ rest) walk =
      visit_all go name rest (visit_dependency go name dependency walk)

  -- A name that is visited for the first time.
  unfoldable pub visit_white : (Text → Walk → Walk) → Text → Walk → Walk
  visit_white go name walk =
      mark name black (visit_all go name (depends_on catalog name) (mark name grey walk))

  unfoldable pub visit : ℕ → Text → Walk → Walk
  visit zero name walk = walk
  visit (suc fuel) name walk = elim (walk.state name) [
    | black ↦ walk
    | grey ↦ report_cycle name walk
    | white ↦ visit_white (visit fuel) name walk
  ]

  -- `for name := range catalog { visit(name, nil) }`
  unfoldable pub visit_roots : ℕ → List Text → Walk → Walk
  visit_roots fuel [] walk = walk
  visit_roots fuel (name ∷ names) walk = visit_roots fuel names (visit fuel name walk)

  -- Each nested call marks one more name of the catalog, so that their depth is at most its size.
  unfoldable pub check_catalog_cycles : Report → Report
  check_catalog_cycles report =
      let start : Walk = record { state = λ _. white; report = report } in
      (visit_roots (suc (length (keys catalog))) (keys catalog) start).report

-- To split on the colour of a name and keep the equation.
pub Color-cases : (c : Color) → (c ≡ white) ⊎ (c ≡ grey) ⊎ (c ≡ black)
Color-cases white = inl refl
Color-cases grey = inr (inl refl)
Color-cases black = inr (inr refl)
