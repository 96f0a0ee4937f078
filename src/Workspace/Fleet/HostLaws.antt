-- ===== src/Workspace/Fleet/HostLaws.antt =====
-- When the loop over the hosts adds no error.
use mksrv.Common.{
  ℕ, suc, ◌≡◌, refl, subst, inl, inr, true, false, some, List, [], ◌∷◌, arith, Option-cases, All,
  Text, txt, text_eq, contains, lookup,
}
use mathlib.Core.Option.{some-injective}
use mksrv.Model.Types.{Host, Stack}
use mksrv.Workspace.Report.{Report}
use mksrv.Workspace.Report.Outcome.{
  Reports, Reports-refl, Reports-trans, Reports-iff, Reports-error, Reports-error_if,
}
use mksrv.Workspace.Hosts.{check_host_capacity}
use mksrv.Workspace.Hosts.CapacityLaws.{check_host_capacity_lem}
use mksrv.Workspace.Hosts.StorageLaws.{HasValidStorage, check_host_storage_lem}
use mksrv.Workspace.Fleet.{
  Fleet, assign_stack, check_stack, check_stacks, target_of, check_host, check_named_host,
  check_hosts,
}

module _ (catalog : List (Text × Stack)) where
  -- The catalog has the stack, and it may run on a host of the given kind.
  pub record IsAssignable (target stack_name : Text) : Type 0 where
    pub stack : Stack
    pub known : lookup catalog stack_name ≡ some stack
    pub allowed : contains stack.targets target ≡ true

  pub record HostIsValid (host : Host) : Type 0 where
    pub stacks : All (IsAssignable (target_of host)) host.stacks
    pub storage : text_eq host.provider (txt "existing") ≡ false → HasValidStorage catalog host

  check_stack_lem :
      (host_name target : Text) (index : ℕ) (s : Text) (fleet : Fleet)
      → Reports fleet.report
          (check_stack catalog host_name target index s fleet).report
          (IsAssignable target s)
  unfolding check_stack assign_stack
  check_stack_lem host_name target index s fleet = elim (Option-cases (lookup catalog s)) [
    | inl absent ↦
        rw (absent, check_stack)
          (Reports-iff ((λ h. absurd h), (λ h. cc (absent, h.known)))
            (Reports-error _ _ _ fleet.report))
    | inr (stack, found) ↦
        rw (found, check_stack)
          (Reports-iff
            (
              (λ h. record { stack = stack; known = found; allowed = ground arith }),
              (λ h. ground (arith, found, h.known, h.allowed)),
            )
            (Reports-error_if _ _ _ _ fleet.report))
  ]

  check_stacks_lem :
      (host_name target : Text) (index : ℕ) (stacks : List Text) (fleet : Fleet)
      → Reports fleet.report
          (check_stacks catalog host_name target index stacks fleet).report
          (All (IsAssignable target) stacks)
  unfolding check_stacks
  check_stacks_lem host_name target index [] fleet = Reports-refl fleet.report
  check_stacks_lem host_name target index (s ∷ stacks) fleet =
      Reports-trans (check_stack_lem host_name target index s fleet)
        (check_stacks_lem host_name target (suc index) stacks _)

  capacity_silent :
      (host_name : Text) (host : Host) (report : Report)
      → Reports report (check_host_capacity catalog host_name host report) Unit
  capacity_silent host_name host report =
      let same = (check_host_capacity_lem catalog host_name host report).no_error in
      record { le = omega (arith, same); accepted = λ h. tt; silent = λ h. same }

  check_host_lem :
      (host_name : Text) (host : Host) (fleet : Fleet)
      → Reports fleet.report (check_host catalog host_name host fleet).report (HostIsValid host)
  unfolding check_host
  check_host_lem host_name host fleet =
      Reports-iff
        ((λ h. record { stacks = h.0.0; storage = h.1 }), (λ h. ((h.stacks, tt), h.storage)))
        (Reports-trans
          (Reports-trans (check_stacks_lem host_name (target_of host) 0 host.stacks fleet)
            (capacity_silent host_name host _))
          (check_host_storage_lem catalog host_name host _))

  module _ (hosts : List (Text × Host)) where
    abbrev pub NamedHostIsValid : Text → Type 0
    NamedHostIsValid host_name =
        (host : Host) → lookup hosts host_name ≡ some host → HostIsValid host

    check_named_host_lem :
        (host_name : Text) (fleet : Fleet)
        → Reports fleet.report
            (check_named_host catalog hosts host_name fleet).report
            (NamedHostIsValid host_name)
    unfolding check_named_host
    check_named_host_lem host_name fleet = elim (Option-cases (lookup hosts host_name)) [
      | inl absent ↦
          rw (absent, check_named_host)
            (Reports-iff ((λ h host e. cc), (λ h. tt)) (Reports-refl fleet.report))
      | inr (host, found) ↦
          rw (found, check_named_host)
            (Reports-iff
              ((λ h other e. subst HostIsValid (some-injective host other e) h), (λ h. h host refl))
              (check_host_lem host_name host fleet))
    ]

    -- The loop over the hosts adds no error exactly when every host carries stacks of the catalog
    -- alone, which may run on it, with volumes that can be attached.
    pub check_hosts_lem :
        (names : List Text) (fleet : Fleet)
        → Reports fleet.report
            (check_hosts catalog hosts names fleet).report
            (All NamedHostIsValid names)
    unfolding check_hosts
    check_hosts_lem [] fleet = Reports-refl fleet.report
    check_hosts_lem (host_name ∷ names) fleet =
        Reports-trans (check_named_host_lem host_name fleet) (check_hosts_lem names _)
