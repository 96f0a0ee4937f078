-- ===== src/Deploy/Stack/Steps.antt =====
-- What the units, the hooks and the health checks of `DeployStack` leave on the hosts.
use mksrv.Common.{
  arith, ◌≡◌, refl, ◌⊎◌, inl, inr, true, false, Bool-cases, Option, none, some, List, [], ◌∷◌, All,
  All-imp, Text,
}
use mksrv.Common.Effect.{
  Act, require, update, Effect, Effect-pure, Effect-require, Effect-map, Effect-bind,
}
use mksrv.Model.Types.{StackHealth}
use mksrv.Deploy.Host.{
  Command, write, reload_caddy, daemon_reload, restart, start, reload_networks, hook, Hosts, Run,
  attempt_on, run_on,
}
use mksrv.Deploy.Host.Laws.{
  is_mark, Follows, Happened-Follows, Acked, AckedBehind, AckedBehind-Follows, run_behind-Effect,
  run_on-Effect, attempt_on-Effect, order, update-Effect, run-Effect, same_result, run_then-Effect,
}
use mksrv.Deploy.Options.{
  StackHook, Options, Engine, note_restarted, note_health, is_skipped, hook_path, hook_env,
  check_command,
}
use mksrv.Deploy.Stack.{
  restart_units, start_units, refresh_networks, renew_units, apply_units, reload_edge, run_hook,
  run_due, run_hooks, run_check, check_health,
}

module _ (hosts : Hosts) (engine : Engine) (opts : Options) where
  -- Every unit was restarted after the definitions of the units had been reloaded.
  abbrev pub IsRestarted : List Text → Run → Type 0
  IsRestarted units s = All (λ unit. AckedBehind false daemon_reload (restart unit) s.history) units

  abbrev pub IsStarted : List Text → Run → Type 0
  IsStarted units s = All (λ unit. Acked false (start unit) s) units

  restart_units-Effect :
      (units : List Text) (s : Run)
      → Acked false daemon_reload s
      → Effect Follows (λ _ t. IsRestarted units t) s (restart_units hosts engine opts units s)
  unfolding restart_units note_restarted
  restart_units-Effect [] s reloaded = Effect-pure order _ tt s tt
  restart_units-Effect (unit ∷ units) s reloaded =
      Effect-bind order (λ _ t. AckedBehind false daemon_reload (restart unit) t.history)
        (λ _ t. IsRestarted (unit ∷ units) t) (run_on hosts false (restart unit)) _ s
        (run_behind-Effect hosts false daemon_reload (restart unit) s refl reloaded)
        λ _ t f now.
          Effect-bind order (λ _ u. Unit {0}) (λ _ u. IsRestarted (unit ∷ units) u)
            (update (note_restarted unit)) _ t
            (update-Effect (λ u. Unit {0}) (note_restarted unit) t (same_result t _) tt)
            λ _ u g _.
              let before = order.later s t u f g in
              Effect-map order (λ _ v. IsRestarted units v) _ u _
                (restart_units-Effect units u (Happened-Follows _ s u before reloaded))
                λ _ v h rest. (
                  AckedBehind-Follows false daemon_reload (restart unit) t v (order.later t u v g h)
                      now,
                  rest,
                )

  start_units-Effect :
      (units : List Text) (s : Run)
      → Effect Follows (λ _ t. IsStarted units t) s (start_units hosts engine opts units s)
  unfolding start_units
  start_units-Effect [] s = Effect-pure order _ tt s tt
  start_units-Effect (unit ∷ units) s =
      run_then-Effect hosts false (start unit) (IsStarted units) _ s refl (start_units-Effect units)

  refresh_networks-Effect :
      (units : List Text) (s : Run)
      → Effect Follows (λ _ t. Unit {0}) s (refresh_networks hosts engine opts units s)
  unfolding refresh_networks
  refresh_networks-Effect [] s = Effect-pure order _ tt s tt
  refresh_networks-Effect (unit ∷ units) s =
      Effect-bind order _ (λ _ t. Unit {0}) (attempt_on hosts false reload_networks) _ s
        (attempt_on-Effect hosts false reload_networks s refl)
        (λ _ t f answered. Effect-pure order _ tt t tt)

  -- The definitions of the units were reloaded, and then the units were restarted.
  abbrev pub IsRenewed : List Text → Run → Type 0
  IsRenewed units s = Acked false daemon_reload s × IsRestarted units s

  pub IsRenewed-Follows :
      (units : List Text) (s t : Run) → Follows s t → IsRenewed units s → IsRenewed units t
  IsRenewed-Follows units s t f renewed = (
    Happened-Follows _ s t f renewed.0,
    All-imp (λ unit. AckedBehind-Follows false daemon_reload (restart unit) s t f) units renewed.1,
  )

  renew_units-Effect :
      (units : List Text) (s : Run)
      → Effect Follows (λ _ t. IsRenewed units t) s (renew_units hosts engine opts units s)
  unfolding renew_units
  renew_units-Effect units s =
      Effect-bind order (λ _ t. Acked false daemon_reload t) (λ _ u. IsRenewed units u)
        (run_on hosts false daemon_reload) _ s (run_on-Effect hosts false daemon_reload s refl)
        λ _ t f reloaded.
          Effect-bind order (λ _ u. IsRestarted units u) (λ _ u. IsRenewed units u)
            (restart_units hosts engine opts units) _ t (restart_units-Effect units t reloaded)
            λ _ u g restarted.
              Effect-map order (λ _ v. Unit {0}) (λ _ v. IsRenewed units v) u _
                (refresh_networks-Effect units u)
                λ _ v h _.
                  IsRenewed-Follows units u v h (Happened-Follows _ t u g reloaded, restarted)

  pub apply_units-Effect :
      (units : List Text) (s : Run)
      → Effect Follows
          (λ _ t. IsRenewed units t ⊎ ((s.quadlet_changed ≡ false) × IsStarted units t))
          s
          (apply_units hosts engine opts units s)
  unfolding apply_units
  apply_units-Effect units s = elim (Bool-cases s.quadlet_changed) [
    | inl changed ↦ simp changed (
        Effect-map order (λ _ t. IsRenewed units t) _ s _ (renew_units-Effect units s)
          (λ _ t f q. inl q))
    | inr same ↦ simp same (
        Effect-map order (λ _ t. IsStarted units t) _ s _ (start_units-Effect units s)
          (λ _ t f q. inr (refl, q)))
  ]

  pub reload_edge-Effect :
      (s : Run)
      → Effect Follows
          (λ _ t. Acked true reload_caddy t ⊎ (s.edge_changed ≡ false))
          s
          (reload_edge hosts engine opts s)
  unfolding reload_edge
  reload_edge-Effect s = elim (Bool-cases s.edge_changed) [
    | inl changed ↦ simp changed (
        Effect-map order (λ _ t. Acked true reload_caddy t) _ s _
          (run-Effect hosts true reload_caddy s refl) (λ _ t f q. inl q))
    | inr same ↦
        simp same
          (Effect-pure order (λ _ t. Acked true reload_caddy t ⊎ (false ≡ false)) tt s (inr refl))
  ]

  -- The hook's script was put on the host and run.
  pub record IsRun (h : StackHook) (s : Run) : Type 0 where
    pub body : Text
    pub known : engine.read_hook h.run ≡ some body
    pub written : Acked false (write (hook_path opts h) body 488) s
    pub ran : Acked false (hook (hook_env opts) (hook_path opts h)) s

  abbrev pub IsHooked : StackHook → Run → Type 0
  IsHooked h s = (is_skipped opts h ≡ true) ⊎ IsRun h s

  pub IsHooked-Follows : (h : StackHook) (s t : Run) → Follows s t → IsHooked h s → IsHooked h t
  IsHooked-Follows h s t f (inl skipped) = inl skipped
  IsHooked-Follows h s t f (inr r) = inr (record {
    body = r.body;
    known = r.known;
    written = Happened-Follows _ s t f r.written;
    ran = Happened-Follows _ s t f r.ran;
  })

  run_hook-Effect :
      (h : StackHook) (s : Run)
      → Effect Follows (λ _ t. IsHooked h t) s (run_hook hosts engine opts h s)
  unfolding run_hook
  run_hook-Effect h s =
      Effect-bind order (λ body t. engine.read_hook h.run ≡ some body) (λ _ t. IsHooked h t)
        (require (engine.read_hook h.run)) _ s
        (Effect-require order (λ body t. engine.read_hook h.run ≡ some body)
          (engine.read_hook h.run) s (λ body e. e))
        λ body t f known.
          let put = write (hook_path opts h) body 488 in
          let script = hook (hook_env opts) (hook_path opts h) in
          Effect-map order (λ _ u. Acked false put u × Acked false script u) (λ _ u. IsHooked h u) t
            _
            (run_then-Effect hosts false put (λ u. Acked false script u) _ t refl
              (λ u. run-Effect hosts false script u refl))
            λ _ u g both.
              inr (record { body = body; known = known; written = both.0; ran = both.1 })

  run_due-Effect :
      (h : StackHook) (rest : Act Run (List Text)) (Q : Run → Type 0) (s : Run)
      → ((t : Run) → Effect Follows (λ _ u. Q u) t (rest t))
      → Effect Follows (λ _ t. IsHooked h t × Q t) s (run_due hosts engine opts h rest s)
  unfolding run_due
  run_due-Effect h rest Q s k =
      Effect-bind order (λ _ t. IsHooked h t) (λ _ t. IsHooked h t × Q t)
        (run_hook hosts engine opts h) _ s (run_hook-Effect h s)
        λ _ t f one.
          Effect-bind order (λ _ u. Q u) (λ _ u. IsHooked h u × Q u) rest _ t (k t)
            λ ran u g q.
              Effect-pure order (λ _ v. IsHooked h v × Q v) (h.run ∷ ran) u
                (IsHooked-Follows h t u g one, q)

  pub run_hooks-Effect :
      (hooks : List StackHook) (s : Run)
      → Effect Follows
          (λ _ t. All (λ h. IsHooked h t) hooks)
          s
          (run_hooks hosts engine opts hooks s)
  unfolding run_hooks
  run_hooks-Effect [] s = Effect-pure order _ [] s tt
  run_hooks-Effect (h ∷ hooks) s = elim (Bool-cases (is_skipped opts h)) [
    | inl skipped ↦
        rw (skipped, run_hooks)
          (Effect-map order (λ _ t. All (λ k. IsHooked k t) hooks) _ s _ (run_hooks-Effect hooks s)
            (λ _ t f rest. (inl refl, rest)))
    | inr due ↦
        rw (due, run_hooks)
          (Effect-map order (λ _ t. IsHooked h t × All (λ k. IsHooked k t) hooks) _ s _
            (run_due-Effect h (run_hooks hosts engine opts hooks)
              (λ t. All (λ k. IsHooked k t) hooks) s (run_hooks-Effect hooks))
            (λ _ t f both. (rw due at both.0, both.1)))
  ]

  -- The check has nothing to run, or it succeeded on the host.
  abbrev pub IsHealthy : StackHealth → Run → Type 0
  IsHealthy check s =
      (check_command check ≡ some none)
      ⊎ ((command : Command) × (check_command check ≡ some (some command)) × Acked false command s)

  pub IsHealthy-Follows :
      (check : StackHealth) (s t : Run) → Follows s t → IsHealthy check s → IsHealthy check t
  IsHealthy-Follows check s t f (inl nothing) = inl nothing
  IsHealthy-Follows check s t f (inr (command, e, acked)) =
      inr (command, e, Happened-Follows _ s t f acked)

  check_command-plain :
      (check : StackHealth) (command : Command)
      → check_command check ≡ some (some command)
      → is_mark command ≡ false
  unfolding check_command
  check_command-plain check command e = ground (arith, e)

  run_check-Effect :
      (check : StackHealth) (found : Option Command) (s : Run)
      → check_command check ≡ some found
      → Effect Follows (λ _ t. IsHealthy check t) s (run_check hosts engine opts found s)
  unfolding run_check
  run_check-Effect check none s e = Effect-pure order (λ _ t. IsHealthy check t) tt s (inl e)
  run_check-Effect check (some command) s e =
      Effect-map order (λ _ t. Acked false command t) (λ _ t. IsHealthy check t) s _
        (run-Effect hosts false command s (check_command-plain check command e))
        (λ _ t f acked. inr (command, e, acked))

  pub check_health-Effect :
      (checks : List StackHealth) (s : Run)
      → Effect Follows
          (λ _ t. All (λ check. IsHealthy check t) checks)
          s
          (check_health hosts engine opts checks s)
  unfolding check_health note_health
  check_health-Effect [] s = Effect-pure order _ tt s tt
  check_health-Effect (check ∷ checks) s =
      Effect-bind order (λ found t. check_command check ≡ some found)
        (λ _ t. All (λ c. IsHealthy c t) (check ∷ checks)) (require (check_command check)) _ s
        (Effect-require order (λ found t. check_command check ≡ some found) (check_command check) s
          (λ found e. e))
        λ found t f e.
          Effect-bind order (λ _ u. IsHealthy check u)
            (λ _ t. All (λ c. IsHealthy c t) (check ∷ checks)) (run_check hosts engine opts found) _
            t (run_check-Effect check found t e)
            λ _ u g healthy.
              Effect-bind order (λ _ v. IsHealthy check v)
                (λ _ t. All (λ c. IsHealthy c t) (check ∷ checks)) (update (note_health check.app))
                _ u
                (update-Effect (λ v. IsHealthy check v) (note_health check.app) u (same_result u _)
                  healthy)
                λ _ v h healthy'.
                  Effect-map order (λ _ w. All (λ c. IsHealthy c w) checks) _ v _
                    (check_health-Effect checks v)
                    λ _ w i rest. (IsHealthy-Follows check v w i healthy', rest)
