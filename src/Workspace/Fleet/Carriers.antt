-- ===== src/Workspace/Fleet/Carriers.antt =====
-- What the loop over the hosts collects: for every stack of the catalog, the hosts that list it.
use mathlib.Core.List.{concat-ne-nil}
use mksrv.Common.{
  ℕ, suc, ◌≡◌, sym, ap, ◌∙◌, ◌≢◌, inl, inr, ◌&&◌, Option, none, some, List, [], ◌∷◌, ◌++◌,
  append_assoc, append-nil, arith, if◌then◌else◌, Option-cases, is_some, Text, txt, text_eq,
  text_eq_iff, lookup, lookup-insert,
}
use mksrv.Model.Types.{Host, Stack}
use mksrv.Workspace.Fleet.{
  Fleet, assigned_to, append_if, assign_stack, check_stack, check_stacks, check_host,
  check_named_host, check_hosts,
}

-- The host's name, once for each time that a stack of the catalog is listed.
pub listings : List (Text × Stack) → Text → List Text → Text → List Text
listings catalog stack_name [] host_name = []
listings catalog stack_name (s ∷ stacks) host_name =
    let rest = listings catalog stack_name stacks host_name in
    if text_eq s stack_name && is_some (lookup catalog s) then host_name ∷ rest else rest

pub host_listings : List (Text × Stack) → Option Host → Text → Text → List Text
host_listings catalog none stack_name host_name = []
host_listings catalog (some host) stack_name host_name =
    listings catalog stack_name host.stacks host_name

-- The hosts, of the given names, that carry a stack.
pub carriers : List (Text × Stack) → List (Text × Host) → List Text → Text → List Text
carriers catalog hosts [] stack_name = []
carriers catalog hosts (host_name ∷ names) stack_name =
    host_listings catalog (lookup hosts host_name) stack_name host_name
    ++ carriers catalog hosts names stack_name

-- What a later state of the loop has collected behind an earlier one.
pub record Collects (before after : Fleet) (found : Text → List Text) : Type 0 where
  pub assigned :
      (s : Text) → assigned_to after.assigned s ≡ assigned_to before.assigned s ++ found s
  pub base : after.base_hosts ≡ before.base_hosts ++ found (txt "base")
  pub identity : after.identity_hosts ≡ before.identity_hosts ++ found (txt "identity")
  -- No key of the map has an empty slice.
  pub full :
      ((s : Text) → lookup before.assigned s ≢ some [])
      → (s : Text) → lookup after.assigned s ≢ some []

Collects-nil : (f : Fleet) → Collects f f (λ s. [])
Collects-nil f = record {
  assigned = λ s. sym (append-nil _);
  base = sym (append-nil _);
  identity = sym (append-nil _);
  full = λ h. h;
}

append_step :
    (a : List Text) {b c : List Text} (f g : List Text)
    → b ≡ a ++ f
    → c ≡ b ++ g
    → c ≡ a ++ (f ++ g)
append_step a f g p q = q ∙ ap (λ x. x ++ g) p ∙ append_assoc a f g

Collects-trans :
    {a b c : Fleet} (f g : Text → List Text)
    → Collects a b f
    → Collects b c g
    → Collects a c (λ s. f s ++ g s)
Collects-trans f g p q = record {
  assigned = λ s. append_step _ (f s) (g s) (p.assigned s) (q.assigned s);
  base = append_step _ (f (txt "base")) (g (txt "base")) p.base q.base;
  identity = append_step _ (f (txt "identity")) (g (txt "identity")) p.identity q.identity;
  full = λ h. q.full (p.full h);
}

module _ (catalog : List (Text × Stack)) where
  abbrev one_listing : Text → Text → Text → List Text
  one_listing s host_name stack_name =
      if text_eq s stack_name && is_some (lookup catalog s) then host_name ∷ [] else []

  check_stack-Collects :
      (host_name target : Text) (index : ℕ) (s : Text) (fleet : Fleet)
      → Collects fleet
          (check_stack catalog host_name target index s fleet)
          (one_listing s host_name)
  unfolding check_stack assign_stack append_if assigned_to
  check_stack-Collects host_name target index s fleet = elim (Option-cases (lookup catalog s)) [
    | inl absent ↦
        rw (absent, check_stack)
          (record {
            assigned = λ n. ground (arith, absent, append-nil (assigned_to fleet.assigned n));
            base = ground (arith, absent, append-nil fleet.base_hosts);
            identity = ground (arith, absent, append-nil fleet.identity_hosts);
            full = λ h. h;
          })
    | inr (stack, found) ↦
        rw (found, check_stack)
          (record {
            assigned = λ n. ground (
              arith,
              found,
              text_eq_iff s n,
              append-nil (assigned_to fleet.assigned n),
              lookup-insert fleet.assigned s (assigned_to fleet.assigned s ++ host_name ∷ []) n,
            );
            base = ground (arith, found, append-nil fleet.base_hosts);
            identity = ground (arith, found, append-nil fleet.identity_hosts);
            full = λ h n e. ground (
              arith,
              h n,
              lookup-insert fleet.assigned s (assigned_to fleet.assigned s ++ host_name ∷ []) n,
              concat-ne-nil host_name (assigned_to fleet.assigned s),
            );
          })
  ]

  listings-cons :
      (host_name s : Text) (stacks : List Text) (n : Text)
      → one_listing s host_name n ++ listings catalog n stacks host_name
        ≡ listings catalog n (s ∷ stacks) host_name
  unfolding listings
  listings-cons host_name s stacks n = ground arith

  Collects-eq :
      {a b : Fleet} {f g : Text → List Text}
      → ((s : Text) → f s ≡ g s)
      → Collects a b f
      → Collects a b g
  Collects-eq {a} e c = record {
    assigned = λ s. c.assigned s ∙ ap (λ x. assigned_to a.assigned s ++ x) (e s);
    base = c.base ∙ ap (λ x. a.base_hosts ++ x) (e (txt "base"));
    identity = c.identity ∙ ap (λ x. a.identity_hosts ++ x) (e (txt "identity"));
    full = c.full;
  }

  check_stacks-Collects :
      (host_name target : Text) (index : ℕ) (stacks : List Text) (fleet : Fleet)
      → Collects fleet
          (check_stacks catalog host_name target index stacks fleet)
          (λ n. listings catalog n stacks host_name)
  unfolding check_stacks listings
  check_stacks-Collects host_name target index [] fleet = Collects-nil fleet
  check_stacks-Collects host_name target index (s ∷ stacks) fleet =
      Collects-eq (listings-cons host_name s stacks) (
        Collects-trans (one_listing s host_name) (λ n. listings catalog n stacks host_name)
          (check_stack-Collects host_name target index s fleet)
          (check_stacks-Collects host_name target (suc index) stacks _))

  module _ (hosts : List (Text × Host)) where
    check_named_host-Collects :
        (host_name : Text) (fleet : Fleet)
        → Collects fleet
            (check_named_host catalog hosts host_name fleet)
            (λ n. host_listings catalog (lookup hosts host_name) n host_name)
    unfolding check_named_host check_host host_listings
    check_named_host-Collects host_name fleet = elim (Option-cases (lookup hosts host_name)) [
      | inl absent ↦ rw (absent, check_named_host) (Collects-nil fleet)
      | inr (host, found) ↦
          rw (found, check_named_host)
            (let c = check_stacks-Collects host_name _ 0 host.stacks fleet in
              record { assigned = c.assigned; base = c.base; identity = c.identity; full = c.full })
    ]

    -- After the loop, `assigned[s]` holds the hosts that carry `s`, and the two lists those that
    -- carry the base and the identity stack.
    pub check_hosts-Collects :
        (names : List Text) (fleet : Fleet)
        → Collects fleet (check_hosts catalog hosts names fleet) (carriers catalog hosts names)
    unfolding check_hosts carriers
    check_hosts-Collects [] fleet = Collects-nil fleet
    check_hosts-Collects (host_name ∷ names) fleet =
        Collects-trans (λ n. host_listings catalog (lookup hosts host_name) n host_name)
          (carriers catalog hosts names) (check_named_host-Collects host_name fleet)
          (check_hosts-Collects names (check_named_host catalog hosts host_name fleet))
