-- ===== src/Workspace/Cycles/Faults.antt =====
-- How many issues a walk has reported, and how many names it has still to visit.
use mksrv.Common.{
  ℕ, zero, suc, ◌+◌, ◌≤◌, ◌<◌, ◌≡◌, refl, inl, inr, Bool, true, false, List, [], ◌∷◌, arith,
  Option-cases, length, Text, text_eq_iff, text_eq_refl, contains, lookup, count_if,
}
use mksrv.Model.Types.{Stack}
use mksrv.Workspace.Report.Laws.{errors, errors-semantic_error}
use mksrv.Workspace.Cycles.{
  Color, white, grey, Walk, mark, report_cycle, report_unknown, visit_dependency, visit_all,
  visit_white, visit, Color-cases,
}

abbrev pub faults : Walk → ℕ
faults walk = errors walk.report

pub faults-report_cycle :
    (name : Text) (walk : Walk) → faults (report_cycle name walk) ≡ faults walk + 1
unfolding report_cycle
faults-report_cycle name walk = errors-semantic_error walk.report _ _ _

pub faults-report_unknown :
    (name : Text) (walk : Walk) → faults (report_unknown name walk) ≡ faults walk + 1
unfolding report_unknown
faults-report_unknown name walk = errors-semantic_error walk.report _ _ _

unfoldable pub is_white : Color → Bool
is_white white = true
is_white _ = false

-- How many names are still to be visited.
pub whites : Walk → List Text → ℕ
unfolding is_white
whites walk names = count_if (λ name. is_white (walk.state name)) names

pub whites_le_length : (walk : Walk) (names : List Text) → whites walk names ≤ length names
unfolding whites count_if
whites_le_length walk [] = omega arith
whites_le_length walk (n ∷ names) = ground (arith, whites_le_length walk names)

pub whites-mark_le :
    (name : Text) (color : Color) (walk : Walk) (names : List Text)
    → is_white color ≡ false
    → whites (mark name color walk) names ≤ whites walk names
unfolding whites mark count_if
whites-mark_le name color walk [] h = omega arith
whites-mark_le name color walk (n ∷ names) h =
    ground (arith, whites-mark_le name color walk names h)

pub whites-mark_lt :
    (name : Text) (walk : Walk) (names : List Text)
    → walk.state name ≡ white
    → contains names name ≡ true
    → whites (mark name grey walk) names < whites walk names
unfolding whites mark count_if contains
whites-mark_lt name walk [] w h = ground arith
whites-mark_lt name walk (n ∷ names) w h = ground (
  arith,
  text_eq_iff n name,
  text_eq_refl name,
  whites-mark_lt name walk names w,
  whites-mark_le name grey walk names refl,
)

-- A search that takes no issue back.
abbrev pub Grows : (Text → Walk → Walk) → Type 0
Grows go = (name : Text) (walk : Walk) → faults walk ≤ faults (go name walk)

module _ (catalog : List (Text × Stack)) where
  pub visit_dependency-faults_le :
      (go : Text → Walk → Walk) (name d : Text) (walk : Walk)
      → Grows go
      → faults walk ≤ faults (visit_dependency catalog go name d walk)
  unfolding visit_dependency
  visit_dependency-faults_le go name d walk le = elim (Option-cases (lookup catalog d)) [
    | inl e ↦ rw (e, visit_dependency) (omega (arith, faults-report_unknown name walk))
    | inr (stack, e) ↦ rw (e, visit_dependency) (le d walk)
  ]

  pub visit_all-faults_le :
      (go : Text → Walk → Walk) (name : Text) (deps : List Text) (walk : Walk)
      → Grows go
      → faults walk ≤ faults (visit_all catalog go name deps walk)
  unfolding visit_all
  visit_all-faults_le go name [] walk le = omega arith
  visit_all-faults_le go name (d ∷ deps) walk le = omega (
    arith,
    visit_dependency-faults_le go name d walk le,
    visit_all-faults_le go name deps (visit_dependency catalog go name d walk) le,
  )

  -- A search never takes an issue back.
  pub visit-faults_le : (fuel : ℕ) → Grows (visit catalog fuel)
  unfolding visit visit_white mark
  visit-faults_le zero name walk = omega arith
  visit-faults_le (suc fuel) name walk = elim (Color-cases (walk.state name)) [
    | inl e ↦
        rw (e, visit)
          (visit_all-faults_le (visit catalog fuel) name _ (mark name grey walk)
            (visit-faults_le fuel))
    | inr (inl e) ↦ rw (e, visit) (omega (arith, faults-report_cycle name walk))
    | inr (inr e) ↦ rw (e, visit) (omega arith)
  ]
