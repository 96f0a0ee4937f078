-- ===== src/Workspace/Cycles/Sound.antt =====
-- A walk that reports nothing has found that every name it visited is well founded.
use mathlib.Core.WellFounded.{Acc}
use mksrv.Common.{
  ℕ, zero, suc, ◌≤◌, ◌<◌, ◌≡◌, refl, subst, inl, inr, true, List, [], ◌∷◌, arith, Bool-cases,
  Option-cases, is_some, Text, text_eq, text_eq_refl, text_eq_sound, contains, lookup, keys,
  contains-keys,
}
use mksrv.Model.Types.{Stack}
use mksrv.Workspace.Cycles.{
  white, grey, black, Walk, depends_on, mark, visit_dependency, visit_all, visit_white, visit,
  Color-cases,
}
use mksrv.Workspace.Cycles.Faults.{
  faults, faults-report_cycle, faults-report_unknown, is_white, whites, whites-mark_le,
  whites-mark_lt, Grows, visit_dependency-faults_le, visit_all-faults_le, visit-faults_le,
}
use mksrv.Workspace.Cycles.Graph.{DependsOn}

module _ (catalog : List (Text × Stack)) where
  -- `name` has only known dependencies, and rests on no endless chain of them.
  abbrev pub IsGood : Text → Type 0
  IsGood name =
      Acc (DependsOn catalog) name
      × ((d : Text)
          → contains (depends_on catalog name) d ≡ true
          → is_some (lookup catalog d) ≡ true)

  pub record Inv (walk : Walk) : Type 0 where
    pub at_black : (name : Text) → walk.state name ≡ black → IsGood name

  pub record Extends (before after : Walk) : Type 0 where
    pub keeps_black : (name : Text) → before.state name ≡ black → after.state name ≡ black
    pub fewer : whites after (keys catalog) ≤ whites before (keys catalog)

  Extends-refl : (w : Walk) → Extends w w
  Extends-refl w = record { keeps_black = λ n h. h; fewer = omega arith }

  Extends-trans : {u v w : Walk} → Extends u v → Extends v w → Extends u w
  Extends-trans p q = record {
    keeps_black = λ n h. q.keeps_black n (p.keeps_black n h);
    fewer = omega (arith, p.fewer, q.fewer);
  }

  -- A search of `name` from `before` that ended in `after` and reported nothing.
  pub record Ends (name : Text) (before after : Walk) : Type 0 where
    pub inv : Inv after
    pub extends : Extends before after
    pub visited : after.state name ≡ black

  abbrev Searches : ℕ → (Text → Walk → Walk) → Type 0
  Searches bound go =
      (name : Text) (walk : Walk)
      → is_some (lookup catalog name) ≡ true
      → whites walk (keys catalog) < bound
      → faults (go name walk) ≡ faults walk
      → Inv walk
      → Ends name walk (go name walk)

  visit_dependency_sound :
      (go : Text → Walk → Walk) (bound : ℕ)
      → Searches bound go
      → (name d : Text) (walk : Walk) → whites walk (keys catalog) < bound
      → faults (visit_dependency catalog go name d walk) ≡ faults walk
      → Inv walk
      → (is_some (lookup catalog d) ≡ true) × Ends d walk (visit_dependency catalog go name d walk)
  unfolding visit_dependency
  visit_dependency_sound go bound sound name d walk room same inv =
      elim (Option-cases (lookup catalog d)) [
        | inl e ↦
            absurd
              (omega (arith, faults-report_unknown name walk, rw (e, visit_dependency) at same))
        | inr (stack, e) ↦
            let known : is_some (lookup catalog d) ≡ true = rw e refl in
            (
              known,
              rw (e, visit_dependency)
                  (sound d walk known room (rw (e, visit_dependency) at same) inv),
            )
      ]

  -- What the loop over dependencies has done.
  record AllEnd (deps : List Text) (before after : Walk) : Type 0 where
    inv : Inv after
    extends : Extends before after
    known : (d : Text) → contains deps d ≡ true → is_some (lookup catalog d) ≡ true
    visited : (d : Text) → contains deps d ≡ true → after.state d ≡ black

  module _ (go : Text → Walk → Walk) (bound : ℕ) (le : Grows go) (sound : Searches bound go) where
    visit_all_sound :
        (name : Text) (deps : List Text) (walk : Walk)
        → whites walk (keys catalog) < bound
        → faults (visit_all catalog go name deps walk) ≡ faults walk
        → Inv walk
        → AllEnd deps walk (visit_all catalog go name deps walk)
    unfolding visit_all contains
    visit_all_sound name [] walk room same inv = record {
      inv = inv;
      extends = Extends-refl walk;
      known = λ d h. cc;
      visited = λ d h. cc;
    }
    visit_all_sound name (d ∷ deps) walk room same inv =
        let next = visit_dependency catalog go name d walk in
        let quiet : faults next ≡ faults walk = omega (
          arith,
          same,
          visit_dependency-faults_le catalog go name d walk le,
          visit_all-faults_le catalog go name deps next le,
        ) in
        let (known, first) = visit_dependency_sound go bound sound name d walk room quiet inv in
        let rest =
          visit_all_sound name deps next (omega (arith, first.extends.fewer))
            (omega (arith, same, quiet)) first.inv in
        record {
          inv = rest.inv;
          extends = Extends-trans first.extends rest.extends;
          known = λ e h. elim (Bool-cases (text_eq d e)) [
            | inl same_name ↦
                subst (λ n. is_some (lookup catalog n) ≡ true) (text_eq_sound d e same_name) known
            | inr other ↦ rest.known e (rw other at h)
          ];
          visited = λ e h. elim (Bool-cases (text_eq d e)) [
            | inl same_name ↦
                rest.extends.keeps_black e
                  (subst (λ n. next.state n ≡ black) (text_eq_sound d e same_name) first.visited)
            | inr other ↦ rest.visited e (rw other at h)
          ];
        }

  mark-grey-Inv : (name : Text) (walk : Walk) → Inv walk → Inv (mark name grey walk)
  unfolding mark
  mark-grey-Inv name walk inv = record {
    at_black = λ n h. elim (Bool-cases (text_eq name n)) [
      | inl e ↦ absurd (cc (e, h))
      | inr e ↦ inv.at_black n (rw e at h)
    ];
  }

  mark-black-Inv : (name : Text) (walk : Walk) → IsGood name → Inv walk → Inv (mark name black walk)
  unfolding mark
  mark-black-Inv name walk good inv = record {
    at_black = λ n h. elim (Bool-cases (text_eq name n)) [
      | inl e ↦ subst IsGood (text_eq_sound name n e) good
      | inr e ↦ inv.at_black n (rw e at h)
    ];
  }

  mark-Extends :
      (name : Text) (walk after : Walk)
      → walk.state name ≡ white
      → Extends (mark name grey walk) after
      → Extends walk (mark name black after)
  unfolding mark is_white
  mark-Extends name walk after w ext = record {
    keeps_black = λ n h. elim (Bool-cases (text_eq name n)) [
      | inl e ↦ rw e refl
      | inr e ↦ rw e (ext.keeps_black n (rw e h))
    ];
    fewer = omega (
      arith,
      ext.fewer,
      whites-mark_le name grey walk (keys catalog) refl,
      whites-mark_le name black after (keys catalog) refl,
    );
  }

  -- With fuel for every name that is still white, a silent visit ends with its name visited.
  pub visit_sound : (fuel : ℕ) → Searches fuel (visit catalog fuel)
  unfolding visit visit_white visit_all mark
  visit_sound zero name walk known room same inv = absurd (omega arith)
  visit_sound (suc fuel) name walk known room same inv = elim (Color-cases (walk.state name)) [
    | inl e ↦
        let begun = mark name grey walk in
        let listed : contains (keys catalog) name ≡ true = rw contains-keys known in
        let all =
          visit_all_sound (visit catalog fuel) fuel (visit-faults_le catalog fuel)
            (visit_sound fuel) name (depends_on catalog name) begun
            (omega (arith, whites-mark_lt name walk (keys catalog) e listed))
            (rw (e, visit) at same) (mark-grey-Inv name walk inv) in
        let good : IsGood name =
          (Acc.intro name (λ d r. (all.inv.at_black d (all.visited d r.listed)).0), all.known) in
        rw (e, visit)
          (record {
            inv = mark-black-Inv name _ good all.inv;
            extends = mark-Extends name walk _ e all.extends;
            visited = unfold mark in rw text_eq_refl refl;
          })
    | inr (inl e) ↦ absurd (omega (arith, faults-report_cycle name walk, rw (e, visit) at same))
    | inr (inr e) ↦ rw (e, visit) (record { inv = inv; extends = Extends-refl walk; visited = e })
  ]
