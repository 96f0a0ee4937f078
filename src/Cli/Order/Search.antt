-- ===== src/Cli/Order/Search.antt =====
-- What one visit of `orderedStacks` does to the names seen and to the order.
use mksrv.Common.{
  ℕ, zero, suc, ◌<◌, ◌≡◌, refl, sym, ◌∙◌, subst, inl, inr, true, false, ◌||◌, List, [], ◌∷◌, ◌++◌,
  arith, Bool-cases, Option-cases, Text, text_eq, text_eq_refl, text_eq_sound, contains, lookup,
  keys, contains-keys,
}
use mksrv.Model.Types.{Stack}
use mksrv.Workspace.Cycles.{depends_on}
use mksrv.Workspace.Cycles.Graph.{DependsOn, Below, one, more, IsAcyclic, Below-cons, Below-irrefl}
use mksrv.Cli.Order.{Walk, see, push, visit_all, is_settled, visit_new, visit}
use mksrv.Cli.Order.Invariant.{
  IsOrdered-push, Inv, Extends-refl, Extends-trans, Ends, IsUnder, Searches, contains-append,
  unseen, unseen-see_le, unseen-see_lt, unseen-push,
}

module _ (catalog : List (Text × Stack)) (assigned : List Text) where
  pub visit_all-Ends :
      (go : Text → Walk → Walk) (bound : ℕ)
      → Searches catalog assigned bound go
      → (names : List Text) (walk : Walk) → unseen walk assigned < bound
      → ((n : Text) → contains names n ≡ true → IsUnder catalog assigned n walk)
      → Inv catalog assigned walk
      → Ends catalog assigned names walk (visit_all go names walk)
  unfolding visit_all contains
  visit_all-Ends go bound search_go [] walk room under inv = record {
    inv = inv;
    extends = Extends-refl catalog assigned walk;
    done = λ n h k. cc;
  }
  visit_all-Ends go bound search_go (m ∷ names) walk room under inv =
      let first = search_go m walk room (under m (rw text_eq_refl refl)) inv in
      let next = go m walk in
      let rest =
        visit_all-Ends go bound search_go names next (omega (arith, first.extends.fewer))
          (λ n h g k. under n (ground arith) g (first.extends.closed g k)) first.inv in
      record {
        inv = rest.inv;
        extends = Extends-trans catalog assigned first.extends rest.extends;
        done = λ n h k. elim (Bool-cases (text_eq m n)) [
          | inl same ↦
              let now : contains next.order n ≡ true = first.done n (rw same refl) k in
              rest.extends.keeps_order n (first.inv.seen_order n now) ∙ now
          | inr other ↦ rest.done n (rw other at h) k
        ];
      }

  see-Inv :
      (name : Text) (walk : Walk) → Inv catalog assigned walk → Inv catalog assigned (see name walk)
  unfolding see
  see-Inv name walk inv = record {
    ordered = inv.ordered;
    seen_order = λ n h. ground (arith, inv.seen_order n h);
    wanted_order = inv.wanted_order;
  }

  -- The name that was being visited is put into the order.
  push-Ends :
      (name : Text) (walk after : Walk)
      → walk.seen name ≡ false
      → contains assigned name ≡ true
      → Inv catalog assigned walk
      → Ends catalog assigned (depends_on catalog name) (see name walk) after
      → Ends catalog assigned (name ∷ []) walk (push name after)
  unfolding push see contains
  push-Ends name walk after new wanted inv all =
      let absent : contains walk.order name ≡ false = elim (Bool-cases (contains walk.order name)) [
        | inl h ↦ cc (inv.seen_order name h, new)
        | inr h ↦ h
      ] in
      let fresh : contains after.order name ≡ false =
        all.extends.keeps_order name (rw text_eq_refl refl) ∙ absent in
      let seen : after.seen name ≡ true = all.extends.keeps_seen name (rw text_eq_refl refl) in
      let pushed : (n : Text)
          → contains (after.order ++ name ∷ []) n ≡ (contains after.order n || text_eq name n) =
        λ n. ground (arith, contains-append after.order (name ∷ []) n) in
      record {
        inv = record {
          ordered =
              IsOrdered-push catalog assigned [] after.order name all.inv.ordered
                (record { fresh = fresh; ready = all.done });
          seen_order = λ n h. elim (Bool-cases (text_eq name n)) [
            | inl e ↦ subst (λ m. after.seen m ≡ true) (text_eq_sound name n e) seen
            | inr e ↦ all.inv.seen_order n (ground (arith, pushed n))
          ];
          wanted_order = λ n h. elim (Bool-cases (text_eq name n)) [
            | inl e ↦ subst (λ m. contains assigned m ≡ true) (text_eq_sound name n e) wanted
            | inr e ↦ all.inv.wanted_order n (ground (arith, pushed n))
          ];
        };
        extends = record {
          keeps_seen = λ n h. all.extends.keeps_seen n (ground arith);
          keeps_order = λ n h. elim (Bool-cases (text_eq name n)) [
            | inl e ↦ absurd (cc (subst (λ m. walk.seen m ≡ false) (text_eq_sound name n e) new, h))
            | inr e ↦ ground (arith, pushed n, all.extends.keeps_order n (ground arith))
          ];
          closed = λ n h. elim (Bool-cases (text_eq name n)) [
            | inl e ↦ ground (arith, pushed n, h.open_still)
            | inr e ↦
                let was = all.extends.closed n (record {
                  begun = h.begun;
                  open_still = ground (arith, pushed n, h.open_still);
                }) in
                record { begun = rw e at was.begun; open_still = was.open_still }
          ];
          fewer = omega (
            arith,
            all.extends.fewer,
            unseen-see_le name walk assigned,
            unseen-push name after assigned,
          );
        };
        done = λ n h k. ground (arith, pushed n);
      }

  dependent-listed :
      (name d : Text)
      → contains (depends_on catalog name) d ≡ true
      → contains (keys catalog) name ≡ true
  unfolding depends_on contains
  dependent-listed name d h = elim (Option-cases (lookup catalog name)) [
    | inl e ↦ absurd (cc (rw (depends_on, e) at h))
    | inr (stack, e) ↦ rw contains-keys (rw e refl)
  ]

  Below-listed : (low name : Text) → Below catalog low name → contains (keys catalog) name ≡ true
  Below-listed low name (one r) = dependent-listed name low r.listed
  Below-listed low name (more {middle = m} p r) = dependent-listed name m r.listed

  module _ (acyclic : IsAcyclic catalog) where
    edge : (name d : Text) → contains (depends_on catalog name) d ≡ true → DependsOn catalog d name
    edge name d h = record {
      listed = h;
      known = acyclic.known name d (dependent-listed name d h) h;
    }

    -- A name whose visit is open does not depend on itself, so that it is not visited again.
    seen-done :
        (name : Text) (walk : Walk)
        → IsUnder catalog assigned name walk
        → walk.seen name ≡ true
        → contains walk.order name ≡ true
    seen-done name walk under seen = elim (Bool-cases (contains walk.order name)) [
      | inl h ↦ h
      | inr h ↦
          let below = under name (record { begun = seen; open_still = h }) in
          absurd (
            Below-irrefl name name (acyclic.grounded name (Below-listed name name below)) below
              refl)
    ]

    skip-Ends :
        (name : Text) (walk : Walk)
        → is_settled catalog assigned name walk ≡ true
        → IsUnder catalog assigned name walk
        → Inv catalog assigned walk
        → Ends catalog assigned (name ∷ []) walk walk
    unfolding is_settled contains
    skip-Ends name walk settled under inv = record {
      inv = inv;
      extends = Extends-refl catalog assigned walk;
      done = λ n h k. elim (Bool-cases (text_eq name n)) [
        | inl e ↦
            let wanted = subst (λ m. contains assigned m ≡ true) (sym (text_eq_sound name n e)) k in
            subst (λ m. contains walk.order m ≡ true) (text_eq_sound name n e)
              (seen-done name walk under (ground (arith, settled, wanted)))
        | inr e ↦ absurd (ground arith)
      ];
    }

    -- While the dependencies of `name` are visited, its own visit is open.
    see-IsUnder :
        (name : Text) (walk : Walk)
        → IsUnder catalog assigned name walk
        → (d : Text) → contains (depends_on catalog name) d ≡ true
        → IsUnder catalog assigned d (see name walk)
    unfolding see
    see-IsUnder name walk under d h g k = elim (Bool-cases (text_eq name g)) [
      | inl e ↦ subst (Below catalog d) (text_eq_sound name g e) (one (edge name d h))
      | inr e ↦
          Below-cons (edge name d h)
            (under g (record { begun = rw e at k.begun; open_still = k.open_still }))
    ]

    -- With fuel for every name that is not seen yet, a visit puts its name into the order.
    pub visit-Ends : (fuel : ℕ) → Searches catalog assigned fuel (visit catalog assigned fuel)
    unfolding visit visit_new
    visit-Ends zero name walk room under inv = absurd (omega arith)
    visit-Ends (suc fuel) name walk room under inv =
        elim (Bool-cases (is_settled catalog assigned name walk)) [
          | inl settled ↦ rw (visit, settled) (skip-Ends name walk settled under inv)
          | inr fresh ↦
              let new : walk.seen name ≡ false = unfold is_settled in ground arith in
              let wanted : contains assigned name ≡ true = unfold is_settled in ground arith in
              rw (visit, fresh)
                (push-Ends name walk _ new wanted inv (
                  visit_all-Ends (visit catalog assigned fuel) fuel (visit-Ends fuel)
                    (depends_on catalog name) (see name walk)
                    (omega (arith, unseen-see_lt name walk assigned new wanted))
                    (see-IsUnder name walk under) (see-Inv name walk inv)))
        ]
