-- ===== src/Workspace/Cycles/Graph.antt =====
-- The dependency graph of a catalog: its edges, its paths, and what it is to have no cycle.
use mathlib.Core.WellFounded.{Acc}
use mksrv.Common.{◌≡◌, refl, ◌≢◌, true, List, is_some, Text, lower, contains, lookup, keys}
use mksrv.Model.Types.{Stack}
use mksrv.Workspace.Cycles.{depends_on}

module _ (catalog : List (Text × Stack)) where
  -- `name` lists `dependency`, which the catalog has.
  pub record DependsOn (dependency name : Text) : Type 0 where
    pub listed : contains (depends_on catalog name) dependency ≡ true
    pub known : is_some (lookup catalog dependency) ≡ true

  -- `name` depends on `low`, through one or more edges.
  pub data Below (low : Text) : Text → Type 0 where
    one : {name : Text} → DependsOn low name → Below low name
    more : {middle name : Text} → Below low middle → DependsOn middle name → Below low name

  -- Every dependency is in the catalog, and no chain of dependencies goes on for ever: the graph
  -- has no cycle.
  pub record IsAcyclic : Type 0 where
    pub known :
        (name dependency : Text)
        → contains (keys catalog) name ≡ true
        → contains (depends_on catalog name) dependency ≡ true
        → is_some (lookup catalog dependency) ≡ true
    pub grounded : (name : Text) → contains (keys catalog) name ≡ true → Acc DependsOn name

module _ {catalog : List (Text × Stack)} where
  pub Below-cons : {a b c : Text} → DependsOn catalog a b → Below catalog b c → Below catalog a c
  Below-cons r (one s) = more (one r) s
  Below-cons r (more p s) = more (Below-cons r p) s

  pub Below-irrefl :
      (a name : Text) → Acc (DependsOn catalog) name → Below catalog a name → a ≢ name
  Below-irrefl a name (Acc.intro _ lower) (one r) e =
      Below-irrefl a a (lower a r) (one (rw (← e) at r)) refl
  Below-irrefl a name (Acc.intro _ lower) (more {middle = m} p r) e =
      Below-irrefl m m (lower m r) (Below-cons (rw (← e) at r) p) refl
