-- ===== src/Workspace/Cycles/Complete.antt =====
-- A walk over a catalog without cycles reports nothing.
use mksrv.Common.{
  ℕ, zero, suc, ◌≡◌, refl, subst, inl, inr, true, List, [], ◌∷◌, arith, Bool-cases, Option-cases,
  Text, text_eq, text_eq_refl, text_eq_sound, contains, lookup, keys, contains-keys,
}
use mksrv.Model.Types.{Stack}
use mksrv.Workspace.Cycles.{
  grey, Walk, depends_on, mark, visit_dependency, visit_all, visit_white, visit, Color-cases,
}
use mksrv.Workspace.Cycles.Faults.{faults}
use mksrv.Workspace.Cycles.Graph.{DependsOn, Below, one, IsAcyclic, Below-cons, Below-irrefl}

module _ (catalog : List (Text × Stack)) (acyclic : IsAcyclic catalog) where
  -- Every name whose visit is not over depends on `name`.
  abbrev pub IsUnder : Text → Walk → Type 0
  IsUnder name walk = (g : Text) → walk.state g ≡ grey → Below catalog name g

  -- Nothing was reported, and no name was left grey.
  pub record IsQuiet (before after : Walk) : Type 0 where
    pub same : faults after ≡ faults before
    pub fewer_grey : (g : Text) → after.state g ≡ grey → before.state g ≡ grey

  IsQuiet-trans : {u v w : Walk} → IsQuiet u v → IsQuiet v w → IsQuiet u w
  IsQuiet-trans p q = record {
    same = omega (arith, p.same, q.same);
    fewer_grey = λ g h. p.fewer_grey g (q.fewer_grey g h);
  }

  abbrev Searches : (Text → Walk → Walk) → Type 0
  Searches go =
      (name : Text) (walk : Walk)
      → contains (keys catalog) name ≡ true
      → IsUnder name walk
      → IsQuiet walk (go name walk)

  visit_all-IsQuiet :
      (go : Text → Walk → Walk) (name : Text) (deps : List Text) (walk : Walk)
      → Searches go
      → ((d : Text) → contains deps d ≡ true → DependsOn catalog d name)
      → ((d : Text) → contains deps d ≡ true → IsUnder d walk)
      → IsQuiet walk (visit_all catalog go name deps walk)
  unfolding visit_all visit_dependency contains
  visit_all-IsQuiet go name [] walk search_go edges under = record {
    same = refl;
    fewer_grey = λ g h. h;
  }
  visit_all-IsQuiet go name (d ∷ deps) walk search_go edges under =
      let here : contains (d ∷ deps) d ≡ true = rw text_eq_refl refl in
      let edge : DependsOn catalog d name = edges d here in
      elim (Option-cases (lookup catalog d)) [
        | inl e ↦ absurd (cc (e, edge.known))
        | inr (stack, e) ↦
            let first : IsQuiet walk (go d walk) =
              search_go d walk (rw contains-keys edge.known) (under d here) in
            let later : (c : Text) → contains deps c ≡ true → contains (d ∷ deps) c ≡ true =
              λ c h. ground arith in
            rw (e, visit_dependency)
              (IsQuiet-trans first (
                visit_all-IsQuiet go name deps (go d walk) search_go (λ c h. edges c (later c h))
                  (λ c h g k. under c (later c h) g (first.fewer_grey g k))))
      ]

  -- A visit of a name that every unfinished name depends on is silent.
  pub visit_quiet : (fuel : ℕ) → Searches (visit catalog fuel)
  unfolding visit visit_white visit_all mark
  visit_quiet zero name walk listed under = record { same = refl; fewer_grey = λ g h. h }
  visit_quiet (suc fuel) name walk listed under = elim (Color-cases (walk.state name)) [
    | inl e ↦
        let begun = mark name grey walk in
        let edges : (d : Text)
            → contains (depends_on catalog name) d ≡ true
            → DependsOn catalog d name =
          λ d h. record { listed = h; known = acyclic.known name d listed h } in
        let all : IsQuiet begun
            (visit_all catalog (visit catalog fuel) name (depends_on catalog name) begun) =
          visit_all-IsQuiet (visit catalog fuel) name (depends_on catalog name) begun
            (visit_quiet fuel) edges
            (λ d h g k. elim (Bool-cases (text_eq name g)) [
              | inl same ↦ subst (Below catalog d) (text_eq_sound name g same) (one (edges d h))
              | inr other ↦ Below-cons (edges d h) (under g (rw other at k))
            ]) in
        rw (e, visit)
          (record {
            same = all.same;
            fewer_grey = λ g h. elim (Bool-cases (text_eq name g)) [
              | inl same ↦ absurd (cc (same, h))
              | inr other ↦ rw other at (all.fewer_grey g (rw other at h))
            ];
          })
    | inr (inl e) ↦
        absurd (Below-irrefl name name (acyclic.grounded name listed) (under name e) refl)
    | inr (inr e) ↦ rw (e, visit) (record { same = refl; fewer_grey = λ g h. h })
  ]
