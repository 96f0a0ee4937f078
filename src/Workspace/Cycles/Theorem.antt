-- ===== src/Workspace/Cycles/Theorem.antt =====
-- The search for dependency cycles reports an error exactly when there is something to report.
use mksrv.Common.{
  ℕ, suc, ◌≤◌, ◌<◌, ◌≡◌, refl, ◌∙◌, subst, ◌≢◌, ◌↔◌, inl, inr, true, List, [], ◌∷◌, arith,
  Bool-cases, is_some, length, Text, text_eq, text_eq_refl, text_eq_sound, contains, lookup, keys,
  contains-keys,
}
use mksrv.Model.Types.{Stack}
use mksrv.Workspace.Report.{Report}
use mksrv.Workspace.Report.Laws.{errors}
use mksrv.Workspace.Report.Outcome.{Reports}
use mksrv.Workspace.Cycles.{white, grey, Walk, visit, visit_roots, check_catalog_cycles}
use mksrv.Workspace.Cycles.Faults.{faults, whites, whites_le_length, visit-faults_le}
use mksrv.Workspace.Cycles.Graph.{IsAcyclic}
use mksrv.Workspace.Cycles.Sound.{Inv, Ends, IsGood, visit_sound}
use mksrv.Workspace.Cycles.Complete.{IsQuiet, visit_quiet}

module _ (catalog : List (Text × Stack)) where
  visit_roots-faults_le :
      (fuel : ℕ) (names : List Text) (walk : Walk)
      → faults walk ≤ faults (visit_roots catalog fuel names walk)
  unfolding visit_roots
  visit_roots-faults_le fuel [] walk = omega arith
  visit_roots-faults_le fuel (n ∷ names) walk = omega (
    arith,
    visit-faults_le catalog fuel n walk,
    visit_roots-faults_le fuel names (visit catalog fuel n walk),
  )

  visit_roots_sound :
      (fuel : ℕ) (names : List Text) (walk : Walk)
      → ((n : Text) → contains names n ≡ true → contains (keys catalog) n ≡ true)
      → whites walk (keys catalog) < fuel
      → faults (visit_roots catalog fuel names walk) ≡ faults walk
      → Inv catalog walk
      → (n : Text) → contains names n ≡ true
      → IsGood catalog n
  unfolding visit_roots contains
  visit_roots_sound fuel [] walk listed room same inv n h = cc
  visit_roots_sound fuel (m ∷ names) walk listed room same inv n h =
      let next = visit catalog fuel m walk in
      let quiet : faults next ≡ faults walk =
        omega (
          arith,
          same,
          visit-faults_le catalog fuel m walk,
          visit_roots-faults_le fuel names next,
        ) in
      let known : is_some (lookup catalog m) ≡ true =
        rw contains-keys at (listed m (rw text_eq_refl refl)) in
      let ends : Ends catalog m walk next = visit_sound catalog fuel m walk known room quiet inv in
      elim (Bool-cases (text_eq m n)) [
        | inl e ↦ subst (IsGood catalog) (text_eq_sound m n e) (ends.inv.at_black m ends.visited)
        | inr e ↦
            visit_roots_sound fuel names next (λ k g. listed k (ground arith))
              (omega (arith, ends.extends.fewer)) (omega (arith, same, quiet)) ends.inv n
              (rw e at h)
      ]

  visit_roots_quiet :
      (fuel : ℕ) (names : List Text) (walk : Walk)
      → IsAcyclic catalog
      → ((n : Text) → contains names n ≡ true → contains (keys catalog) n ≡ true)
      → ((g : Text) → walk.state g ≢ grey)
      → faults (visit_roots catalog fuel names walk) ≡ faults walk
  unfolding visit_roots contains
  visit_roots_quiet fuel [] walk acyclic listed idle = refl
  visit_roots_quiet fuel (m ∷ names) walk acyclic listed idle =
      let quiet : IsQuiet catalog acyclic walk (visit catalog fuel m walk) =
        visit_quiet catalog acyclic fuel m walk (listed m (rw text_eq_refl refl))
          (λ g h. absurd (idle g h)) in
      visit_roots_quiet fuel names (visit catalog fuel m walk) acyclic
        (λ k g. listed k (ground arith)) (λ g h. idle g (quiet.fewer_grey g h))
      ∙ quiet.same

  -- `checkCatalogCycles` adds no error exactly when every dependency that a stack lists is in the
  -- catalog and the dependency graph has no cycle (no endless chain of dependencies).
  pub check_catalog_cycles_iff :
      (report : Report)
      → (errors (check_catalog_cycles catalog report) ≡ errors report) ↔ IsAcyclic catalog
  unfolding check_catalog_cycles
  check_catalog_cycles_iff report = (accepted, silent)
    where
      start : Walk
      start = record { state = λ _. white; report = report }

      accepted : errors (check_catalog_cycles catalog report) ≡ errors report → IsAcyclic catalog
      accepted h =
          let good : (n : Text) → contains (keys catalog) n ≡ true → IsGood catalog n =
            visit_roots_sound (suc (length (keys catalog))) (keys catalog) start (λ n k. k)
              (omega (arith, whites_le_length start (keys catalog))) h
              (record { at_black = λ n k. cc }) in
          record {
            known = λ n d listed dep. (good n listed).1 d dep;
            grounded = λ n listed. (good n listed).0;
          }

      silent : IsAcyclic catalog → errors (check_catalog_cycles catalog report) ≡ errors report
      silent acyclic =
          visit_roots_quiet (suc (length (keys catalog))) (keys catalog) start acyclic (λ n k. k)
            (λ g h. cc)

  -- The same with the number of errors: the search never takes one back.
  pub check_catalog_cycles_lem :
      (report : Report) → Reports report (check_catalog_cycles catalog report) (IsAcyclic catalog)
  unfolding check_catalog_cycles
  check_catalog_cycles_lem report =
      let outcome = check_catalog_cycles_iff report in
      record {
        le =
            visit_roots-faults_le (suc (length (keys catalog))) (keys catalog)
              (record { state = λ _. white; report = report });
        accepted = outcome.0;
        silent = outcome.1;
      }
