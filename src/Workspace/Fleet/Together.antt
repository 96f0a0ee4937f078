-- ===== src/Workspace/Fleet/Together.antt =====
-- When the stacks that the hosts carry fit together.
use mksrv.Common.{
  ℕ, ◌%◌, ◌≤◌, ◌≡◌, refl, sym, ap, ◌∙◌, subst, ◌≢◌, ◌↔◌, inl, inr, true, false, ◌&&◌, not, some,
  List, [], ◌∷◌, ◌++◌, arith, ◌==◌, ==_iff, Option-cases, length, is_empty, All, Text, txt, text_lt,
  contains, lookup, keys, contains-keys, keep, All-contains, contains-slice_stable, contains-keep,
}
use mksrv.Model.Types.{Host, Stack}
use mksrv.Workspace.Report.{Report}
use mksrv.Workspace.Report.Outcome.{
  Reports, Reports-refl, Reports-trans, Reports-iff, Reports-error_if, Reports-and_if,
}
use mksrv.Workspace.Cycles.{depends_on}
use mksrv.Workspace.Fleet.{
  Fleet, assigned_to, check_hosts, sort_strings, start_fleet, is_cluster, is_bad_quorum,
  check_clusters, check_dependencies, check_all_dependencies, check_fleet,
}
use mksrv.Workspace.Fleet.Carriers.{carriers, check_hosts-Collects}

-- What is asked of the hosts that carry each stack: `carried s` lists them.
pub record IsWhole (catalog : List (Text × Stack)) (carried : Text → List Text) : Type 0 where
  pub one_base : length (carried (txt "base")) ≡ 1
  pub one_identity : length (carried (txt "identity")) ≡ 1
  pub quorum :
      (s : Text)
      → carried s ≢ []
      → is_cluster catalog s ≡ true
      → (3 ≤ length (carried s)) × (length (carried s) % 2 ≡ 1)
  pub served :
      (s d : Text) → carried s ≢ [] → contains (depends_on catalog s) d ≡ true → carried d ≢ []

module _ (assigned : List (Text × List Text)) where
  check_clusters_lem :
      (names : List Text) (report : Report)
      → Reports report
          (check_clusters assigned names report)
          (All (λ s. is_bad_quorum (length (assigned_to assigned s)) ≡ false) names)
  unfolding check_clusters
  check_clusters_lem [] report = Reports-refl report
  check_clusters_lem (s ∷ names) report =
      Reports-trans (Reports-error_if _ _ _ _ report) (check_clusters_lem names _)

  check_dependencies_lem :
      (deps : List Text) (report : Report)
      → Reports report
          (check_dependencies assigned deps report)
          (All (λ d. is_empty (assigned_to assigned d) ≡ false) deps)
  unfolding check_dependencies
  check_dependencies_lem [] report = Reports-refl report
  check_dependencies_lem (d ∷ deps) report =
      Reports-trans (Reports-error_if _ _ _ _ report) (check_dependencies_lem deps _)

  check_all_dependencies_lem :
      (catalog : List (Text × Stack)) (names : List Text) (report : Report)
      → Reports report (check_all_dependencies catalog assigned names report) (
          All
            (λ s. All (λ d. is_empty (assigned_to assigned d) ≡ false) (depends_on catalog s))
            names)
  unfolding check_all_dependencies
  check_all_dependencies_lem catalog [] report = Reports-refl report
  check_all_dependencies_lem catalog (s ∷ names) report =
      Reports-trans (check_dependencies_lem (depends_on catalog s) report)
        (check_all_dependencies_lem catalog names _)

  -- With no empty slice in it, the map has a key exactly where it has hosts.
  keys_iff :
      (s : Text)
      → lookup assigned s ≢ some []
      → (contains (keys assigned) s ≡ true) ↔ (assigned_to assigned s ≢ [])
  unfolding assigned_to
  keys_iff s full = elim (Option-cases (lookup assigned s)) [
    | inl e ↦ (λ h. cc (e, contains-keys assigned s, h), λ h. absurd (h (rw (e, assigned_to) refl)))
    | inr (hosts, e) ↦
        (λ h k. full (ground (arith, e, k)), λ h. ground (arith, e, contains-keys assigned s))
  ]

is_bad_quorum_iff : (n : ℕ) → (is_bad_quorum n ≡ false) ↔ ((3 ≤ n) × (n % 2 ≡ 1))
unfolding is_bad_quorum
is_bad_quorum_iff n = (λ h. ground arith, λ h. ground arith)

not_empty_iff : (xs : List Text) → (is_empty xs ≡ false) ↔ (xs ≢ [])
not_empty_iff [] = (λ h. cc, λ h. absurd (h refl))
not_empty_iff (x ∷ xs) = (λ h e. cc, λ h. refl)

module _ (catalog : List (Text × Stack)) (carried : Text → List Text)
    (assigned : List (Text × List Text)) (same : (s : Text) → assigned_to assigned s ≡ carried s)
    (full : (s : Text) → lookup assigned s ≢ some []) where
  abbrev clusters : List Text
  clusters = sort_strings (keep (is_cluster catalog) (keys assigned))

  carried_iff : (s : Text) → (contains (keys assigned) s ≡ true) ↔ (carried s ≢ [])
  carried_iff s =
      subst (λ hosts. (contains (keys assigned) s ≡ true) ↔ (hosts ≢ [])) (same s)
        (keys_iff assigned s (full s))

  contains-clusters :
      (s : Text) → contains clusters s ≡ (is_cluster catalog s && contains (keys assigned) s)
  unfolding sort_strings
  contains-clusters s =
      contains-slice_stable text_lt (keep (is_cluster catalog) (keys assigned)) s
      ∙ contains-keep (is_cluster catalog) (keys assigned) s

  abbrev Quorums : Type 0
  Quorums = All (λ s. is_bad_quorum (length (assigned_to assigned s)) ≡ false) clusters

  abbrev QuorumOf : Text → Type 0
  QuorumOf s =
      carried s ≢ []
      → is_cluster catalog s ≡ true
      → (3 ≤ length (carried s)) × (length (carried s) % 2 ≡ 1)

  quorum_iff :
      (s : Text)
      → (is_bad_quorum (length (assigned_to assigned s)) ≡ false)
        ↔ ((3 ≤ length (carried s)) × (length (carried s) % 2 ≡ 1))
  quorum_iff s =
      subst
        (λ hosts.
          (is_bad_quorum (length (assigned_to assigned s)) ≡ false)
          ↔ ((3 ≤ length hosts) × (length hosts % 2 ≡ 1)))
        (same s) (is_bad_quorum_iff (length (assigned_to assigned s)))

  Quorums_iff : Quorums ↔ ((s : Text) → QuorumOf s)
  Quorums_iff = (
    λ h s some_host cluster. (quorum_iff s).0 (
        (All-contains _ clusters).0 h s
          (cc (contains-clusters s, cluster, (carried_iff s).1 some_host))),
    λ h. (All-contains _ clusters).1 (λ s member. (quorum_iff s).1 (
        h s ((carried_iff s).0 (ground (arith, member, contains-clusters s)))
          (ground (arith, member, contains-clusters s)))),
  )

  empty_iff : (d : Text) → (is_empty (assigned_to assigned d) ≡ false) ↔ (carried d ≢ [])
  empty_iff d =
      subst (λ hosts. (is_empty (assigned_to assigned d) ≡ false) ↔ (hosts ≢ [])) (same d)
        (not_empty_iff (assigned_to assigned d))

  abbrev Served : Type 0
  Served =
      All (λ s. All (λ d. is_empty (assigned_to assigned d) ≡ false) (depends_on catalog s))
        (keys assigned)

  Served_iff :
      Served
      ↔ ((s d : Text) → carried s ≢ [] → contains (depends_on catalog s) d ≡ true → carried d ≢ [])
  Served_iff = (
    λ h s d some_host member. (empty_iff d).0 (
        (All-contains _ (depends_on catalog s)).0
          ((All-contains _ (keys assigned)).0 h s ((carried_iff s).1 some_host)) d member),
    λ h. (All-contains _ (keys assigned)).1 (λ s listed.
        (All-contains _ (depends_on catalog s)).1
          (λ d member. (empty_iff d).1 (h s d ((carried_iff s).0 listed) member))),
  )

not_eq_iff : (n m : ℕ) → (not (n == m) ≡ false) ↔ (n ≡ m)
not_eq_iff n m = (λ h. ground (arith, ==_iff n m), λ h. ground (arith, ==_iff n m))

assigned_to_nil : (s : Text) → assigned_to [] s ≡ []
unfolding assigned_to lookup
assigned_to_nil s = refl

lookup_nil : (s : Text) → lookup {V = List Text} [] s ≢ some []
unfolding lookup
lookup_nil s e = cc

module _ (catalog : List (Text × Stack)) (hosts : List (Text × Host)) (names : List Text)
    (before : Report) where
  abbrev visited : Fleet
  visited = check_hosts catalog hosts names (start_fleet before)

  abbrev carried : Text → List Text
  carried = carriers catalog hosts names

  -- What the map of the loop holds for a stack.
  pub assigned_to-check_hosts : (s : Text) → assigned_to visited.assigned s ≡ carried s
  unfolding start_fleet
  assigned_to-check_hosts s =
      let c = check_hosts-Collects catalog hosts names (start_fleet before) in
      c.assigned s ∙ ap (λ x. x ++ carried s) (assigned_to_nil s)

  -- The checks behind the loop over the hosts add no error exactly when one host carries `base`, one
  -- carries `identity`, every cluster that is carried is on an odd number of at least three hosts,
  -- and every stack that is carried finds each of its dependencies on some host.
  pub check_fleet_lem :
      Reports visited.report (check_fleet catalog visited) (IsWhole catalog carried)
  unfolding check_fleet start_fleet
  check_fleet_lem =
      let c = check_hosts-Collects catalog hosts names (start_fleet before) in
      let same = assigned_to-check_hosts in
      let full : ((s : Text) → lookup visited.assigned s ≢ some []) = c.full lookup_nil in
      let quorums = Quorums_iff catalog carried visited.assigned same full in
      let served = Served_iff catalog carried visited.assigned same full in
      let bases = not_eq_iff (length visited.base_hosts) 1 in
      let identities = not_eq_iff (length visited.identity_hosts) 1 in
      Reports-iff
        (
          (λ h. record {
            one_base = sym (ap length c.base) ∙ bases.0 h.0.0.0;
            one_identity = sym (ap length c.identity) ∙ identities.0 h.0.0.1;
            quorum = quorums.0 h.0.1;
            served = served.0 h.1;
          }),
          (λ h. (
            (
              (
                bases.1 (ap length c.base ∙ h.one_base),
                identities.1 (ap length c.identity ∙ h.one_identity),
              ),
              quorums.1 h.quorum,
            ),
            served.1 h.served,
          )),
        )
        (Reports-trans
          (Reports-trans (Reports-and_if _ _ _ _ (Reports-error_if _ _ _ _ visited.report))
            (check_clusters_lem visited.assigned _ _))
          (check_all_dependencies_lem visited.assigned catalog (keys visited.assigned) _))
