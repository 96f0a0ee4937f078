-- ===== src/Cli/Order.antt =====
-- internal/cli/hosts.go: `orderedStacks`, the order in which the stacks of a host are deployed, and
-- `baseFirst`, the order of the hosts.
pub mod Invariant
pub mod Search
pub mod Sorted
pub mod Hosts
pub mod Examples
use mksrv.Common.{
  ℕ, zero, suc, Bool, true, false, ◌||◌, not, List, [], ◌∷◌, ◌++◌, if◌then◌else◌, length, Text, txt,
  text_eq, text_lt, contains, slice_stable, keep,
}
use mksrv.Model.Types.{Host, Stack}
use mksrv.Workspace.Cycles.{depends_on}

-- The variables `seen` and `order`.
pub record Walk : Type 0 where
  pub seen : Text → Bool
  pub order : List Text

-- `seen[name] = true`
unfoldable pub see : Text → Walk → Walk
see name walk = record walk { seen = λ other. if text_eq name other then true else walk.seen other }

unfoldable pub push : Text → Walk → Walk
push name walk = record walk { order = walk.order ++ name ∷ [] }

-- The loop over the dependencies, and the one over the names.
unfoldable pub visit_all : (Text → Walk → Walk) → List Text → Walk → Walk
visit_all go [] walk = walk
visit_all go (name ∷ names) walk = visit_all go names (go name walk)

module _ (catalog : List (Text × Stack)) (assigned : List Text) where
  unfoldable pub is_settled : Text → Walk → Bool
  is_settled name walk = walk.seen name || not (contains assigned name)

  -- A name that is visited for the first time; `go` is the recursive call.
  unfoldable pub visit_new : (Text → Walk → Walk) → Text → Walk → Walk
  visit_new go name walk = push name (visit_all go (depends_on catalog name) (see name walk))

  unfoldable pub visit : ℕ → Text → Walk → Walk
  visit zero name walk = walk
  visit (suc fuel) name walk = elim (is_settled name walk) [
    | true ↦ walk
    | false ↦ visit_new (visit fuel) name walk
  ]

  -- Each nested call sees one more of the assigned stacks, so that their depth is at most the number
  -- of those.
  unfoldable pub ordered_stacks : List Text
  ordered_stacks =
      let start : Walk = record { seen = λ _. false; order = [] } in
      (visit_all (visit (suc (length assigned))) (slice_stable text_lt assigned) start).order

unfoldable pub is_base : Text × Host → Bool
is_base (name, host) = contains host.stacks (txt "base")

-- Its two loops.
unfoldable pub base_first : List (Text × Host) → List (Text × Host)
base_first hosts = keep is_base hosts ++ keep (λ h. not (is_base h)) hosts
