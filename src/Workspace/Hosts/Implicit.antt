-- ===== src/Workspace/Hosts/Implicit.antt =====
-- What `normalizeImplicitStacks` does to the stacks of the hosts.
use mathlib.Core.List.{Memᴰ}
use mksrv.Common.{
  true, sym, ap, ◌∙◌, ◌↔◌, ◌⊎◌, text_eq_sound, ◌≡◌, refl, inl, inr, Bool, false, ◌&&◌, ◌||◌, none,
  some, List, [], ◌∷◌, arith, Bool-cases, Option-cases, is_some, Text, txt, text_eq, text_eq_iff,
  text_eq_refl, contains, lookup,
}
use mksrv.Model.Types.{Host}
use mksrv.Workspace.Hosts.{has_monitor, add_agent, add_agents, normalize_implicit_stacks}

-- Whether the host of a name carries a stack.
pub carries : List (Text × Host) → Text → Text → Bool
carries hosts name stack = elim (lookup hosts name) [
  | none ↦ false
  | some host ↦ contains host.stacks stack
]

contains-add_agent :
    (host : Host) (stack : Text)
    → contains (add_agent host).stacks stack
      ≡ (contains host.stacks stack || text_eq (txt "agent") stack)
unfolding add_agent contains
contains-add_agent host stack = ground (arith, text_eq_iff (txt "agent") stack)

lookup-add_agents :
    (hosts : List (Text × Host)) (name : Text)
    → lookup (add_agents hosts) name
      ≡ elim (lookup hosts name) [ none ↦ none | some host ↦ some (add_agent host) ]
unfolding add_agents lookup
lookup-add_agents [] name = refl
lookup-add_agents ((n, host) ∷ hosts) name = ground (arith, lookup-add_agents hosts name)

agents_lem :
    (hosts : List (Text × Host)) (name stack : Text)
    → (is_some (lookup (add_agents hosts) name) ≡ is_some (lookup hosts name))
      × (carries (add_agents hosts) name stack ≡ (
          carries hosts name stack || (is_some (lookup hosts name) && text_eq (txt "agent") stack)))
unfolding carries
agents_lem hosts name stack = elim (Option-cases (lookup hosts name)) [
  | inl absent ↦
      (ground (arith, lookup-add_agents hosts name), ground (arith, lookup-add_agents hosts name))
  | inr (host, found) ↦ (
    ground (arith, lookup-add_agents hosts name),
    ground (arith, lookup-add_agents hosts name, contains-add_agent host stack),
  )
]

-- Some host of the fleet lists the monitor.
pub record IsMonitored (hosts : List (Text × Host)) : Type 0 where
  pub entry : Text × Host
  pub listed : Memᴰ entry hosts
  pub monitors : contains entry.1.stacks (txt "monitor") ≡ true

has_monitor-IsMonitored :
    (hosts : List (Text × Host)) → has_monitor hosts ≡ true → IsMonitored hosts
unfolding has_monitor
has_monitor-IsMonitored [] h = cc
has_monitor-IsMonitored ((name, host) ∷ hosts) h =
    elim (Bool-cases (contains host.stacks (txt "monitor"))) [
      | inl e ↦ record { entry = (name, host); listed = Memᴰ.head refl; monitors = e }
      | inr e ↦
          let rest = has_monitor-IsMonitored hosts (rw e at h) in
          record { entry = rest.entry; listed = Memᴰ.tail rest.listed; monitors = rest.monitors }
    ]

IsMonitored-has_monitor :
    (hosts : List (Text × Host)) (entry : Text × Host)
    → Memᴰ entry hosts
    → contains entry.1.stacks (txt "monitor") ≡ true
    → has_monitor hosts ≡ true
unfolding has_monitor
IsMonitored-has_monitor [] entry m h = elim m [ ]
IsMonitored-has_monitor ((name, host) ∷ hosts) entry (Memᴰ.head e) h =
    rw (ap (λ x. contains x.1.stacks (txt "monitor")) (sym e) ∙ h) refl
IsMonitored-has_monitor ((name, host) ∷ hosts) entry (Memᴰ.tail m) h =
    ground (arith, IsMonitored-has_monitor hosts entry m h)

-- What a host carries after the normalisation.
pub Implied : List (Text × Host) → Text → Text → Type 0
Implied hosts name stack =
    (carries hosts name stack ≡ true)
    ⊎ (IsMonitored hosts × (is_some (lookup hosts name) ≡ true) × (stack ≡ txt "agent"))

carries-agents :
    (hosts : List (Text × Host)) (name stack : Text)
    → IsMonitored hosts
    → (carries (add_agents hosts) name stack ≡ true) ↔ Implied hosts name stack
unfolding Implied
carries-agents hosts name stack m = (to, from)
  where
    to : carries (add_agents hosts) name stack ≡ true → Implied hosts name stack
    to h = elim (Bool-cases (carries hosts name stack)) [
      | inl e ↦ inl e
      | inr e ↦
          let both : (is_some (lookup hosts name) && text_eq (txt "agent") stack) ≡ true =
            ground (arith, (agents_lem hosts name stack).1) in
          inr (m, ground arith, sym (text_eq_sound (txt "agent") stack (ground arith)))
    ]

    from : Implied hosts name stack → carries (add_agents hosts) name stack ≡ true
    from (inl e) = ground (arith, (agents_lem hosts name stack).1)
    from (inr (_, listed, e)) =
        (agents_lem hosts name stack).1 ∙ rw (listed, e, text_eq_refl) (ground arith)

not_monitored :
    (hosts : List (Text × Host)) (name stack : Text)
    → has_monitor hosts ≡ false
    → (carries hosts name stack ≡ true) ↔ Implied hosts name stack
unfolding Implied
not_monitored hosts name stack h = (
  λ e. inl e,
  λ i. elim i [
    | inl e ↦ e
    | inr (m, _, _) ↦ cc (h, IsMonitored-has_monitor hosts m.entry m.listed m.monitors)
  ],
)

-- The names of the hosts stay the same. A host carries a stack after the normalisation exactly when it
-- carried it before, or when the stack is the agent and some host of the fleet lists the monitor.
pub carries-normalize_implicit_stacks :
    (hosts : List (Text × Host)) (name stack : Text)
    → (is_some (lookup (normalize_implicit_stacks hosts) name) ≡ is_some (lookup hosts name))
      × ((carries (normalize_implicit_stacks hosts) name stack ≡ true) ↔ Implied hosts name stack)
unfolding normalize_implicit_stacks
carries-normalize_implicit_stacks hosts name stack = elim (Bool-cases (has_monitor hosts)) [
  | inl e ↦
      rw (e, normalize_implicit_stacks)
        (
          (agents_lem hosts name stack).0,
          carries-agents hosts name stack (has_monitor-IsMonitored hosts e),
        )
  | inr e ↦ rw (e, normalize_implicit_stacks) (refl, not_monitored hosts name stack e)
]

add_agent_idem : (host : Host) → add_agent (add_agent host) ≡ add_agent host
unfolding add_agent contains
add_agent_idem host = ground (arith, text_eq_refl (txt "agent"))

add_agents_idem : (hosts : List (Text × Host)) → add_agents (add_agents hosts) ≡ add_agents hosts
unfolding add_agents
add_agents_idem [] = refl
add_agents_idem ((n, host) ∷ hosts) = rw (add_agent_idem host, add_agents_idem hosts)

-- Normalising a second time changes nothing, so that a stack list is never extended twice.
pub normalize_implicit_stacks_idem :
    (hosts : List (Text × Host))
    → normalize_implicit_stacks (normalize_implicit_stacks hosts) ≡ normalize_implicit_stacks hosts
unfolding normalize_implicit_stacks
normalize_implicit_stacks_idem hosts = ground (arith, add_agents_idem hosts)
