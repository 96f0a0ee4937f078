-- ===== src/Deploy/Stack/Alive.antt =====
-- `DeployStack` comes to its end when nothing that it needs is refused.
use mksrv.Common.{
  ◌≡◌, refl, inl, inr, Bool, true, false, Bool-cases, Option, none, some, List, [], ◌∷◌, All,
  is_empty, Text, trim_space, slice_stable, text_lt, keys,
}
use mksrv.Common.Effect.{pure, require, ◌>>◌, update, Succeeds, Succeeds-bind}
use mksrv.Model.Types.{StackApp, StackHealth}
use mksrv.Deploy.Host.{
  Command, Event, Hosts, attempt_on, run_on, pull, write, digest, hook, start, restart,
  daemon_reload, reload_caddy,
}
use mksrv.Deploy.Files.{drop_empty, sorted_paths, quadlet_units, file_mode}
use mksrv.Deploy.Options.{
  StackHook, Options, Engine, is_edge_fragment, visible_secrets, content_of, matches, note_changed,
  note_restarted, note_hooks, note_health, is_skipped, hook_path, hook_env, check_command,
}
use mksrv.Deploy.Stack.{
  push_secrets, push_secret, push_all, pre_pull, write_file, put_file, put_files, reload_edge,
  restart_units, start_units, refresh_networks, renew_units, apply_units, run_hook, run_due,
  run_hooks, run_check, check_health, write_marker, install, prepare, start_run, deploy_stack,
}

-- Every command is accepted, whatever went before it.
abbrev pub Accepts : Hosts → Type 0
Accepts hosts =
    (history : List Event) (edge : Bool) (command : Command) → (hosts history edge command).0 ≡ true

module _ (hosts : Hosts) (engine : Engine) (opts : Options) (accepts : Accepts hosts) where
  run_on-Succeeds : (edge : Bool) (command : Command) → Succeeds (run_on hosts edge command)
  unfolding run_on
  run_on-Succeeds edge command s =
      ((hosts s.history edge command).1, rw (accepts s.history edge command) refl)

  attempt_on-Succeeds : (edge : Bool) (command : Command) → Succeeds (attempt_on hosts edge command)
  unfolding attempt_on
  attempt_on-Succeeds edge command s = (_, refl)

  push_all-Succeeds : (names : List Text) → Succeeds (push_all hosts engine opts names)
  unfolding push_all push_secret
  push_all-Succeeds [] = λ s. (tt, refl)
  push_all-Succeeds (leaf ∷ names) =
      Succeeds-bind _ (λ _. push_all hosts engine opts names) (run_on-Succeeds false _)
        (λ _. push_all-Succeeds names)

  pre_pull-Succeeds : (apps : List StackApp) → Succeeds (pre_pull hosts engine opts apps)
  unfolding pre_pull
  pre_pull-Succeeds [] s = (tt, refl)
  pre_pull-Succeeds (app ∷ apps) s = elim (Bool-cases (is_empty (trim_space app.image))) [
    | inl blank ↦ rw (blank, pre_pull) (pre_pull-Succeeds apps s)
    | inr image ↦
        rw (image, pre_pull)
          (Succeeds-bind (attempt_on hosts false (pull app.image))
            (λ _. pre_pull hosts engine opts apps) (attempt_on-Succeeds false (pull app.image))
            (λ _. pre_pull-Succeeds apps) s)
  ]

  put_file-Succeeds : (dst content : Text) → Succeeds (put_file hosts engine opts dst content)
  unfolding put_file write_file
  put_file-Succeeds dst content =
      Succeeds-bind _ _ (attempt_on-Succeeds (is_edge_fragment opts dst) (digest dst)) λ reply s.
        elim (Bool-cases (matches engine content reply)) [
          | inl same ↦ rw same (tt, refl)
          | inr other ↦ rw other (
              Succeeds-bind
                (run_on hosts (is_edge_fragment opts dst) (write dst content (file_mode dst)))
                (λ _. update (note_changed opts dst))
                (run_on-Succeeds (is_edge_fragment opts dst) _) (λ _ t. (tt, refl)) s)
        ]

  put_files-Succeeds :
      (files : List (Text × Text)) (paths : List Text)
      → Succeeds (put_files hosts engine opts files paths)
  unfolding put_files
  put_files-Succeeds files [] = λ s. (tt, refl)
  put_files-Succeeds files (dst ∷ paths) =
      Succeeds-bind _ (λ _. put_files hosts engine opts files paths)
        (put_file-Succeeds dst (content_of files dst)) (λ _. put_files-Succeeds files paths)

  command-Succeeds :
      (edge : Bool) (command : Command) → Succeeds (run_on hosts edge command >> pure tt)
  command-Succeeds edge command =
      Succeeds-bind _ (λ _. pure tt) (run_on-Succeeds edge command) (λ _ s. (tt, refl))

  reload_edge-Succeeds : Succeeds (reload_edge hosts engine opts)
  unfolding reload_edge
  reload_edge-Succeeds s = elim (Bool-cases s.edge_changed) [
    | inl changed ↦ simp changed (command-Succeeds true reload_caddy s)
    | inr same ↦ simp same (tt, refl)
  ]

  restart_units-Succeeds : (units : List Text) → Succeeds (restart_units hosts engine opts units)
  unfolding restart_units
  restart_units-Succeeds [] = λ s. (tt, refl)
  restart_units-Succeeds (unit ∷ units) =
      Succeeds-bind _ _ (run_on-Succeeds false (restart unit)) λ _.
        Succeeds-bind (update (note_restarted unit)) (λ _. restart_units hosts engine opts units)
          (λ s. (tt, refl)) (λ _. restart_units-Succeeds units)

  start_units-Succeeds : (units : List Text) → Succeeds (start_units hosts engine opts units)
  unfolding start_units
  start_units-Succeeds [] = λ s. (tt, refl)
  start_units-Succeeds (unit ∷ units) =
      Succeeds-bind _ (λ _. start_units hosts engine opts units)
        (run_on-Succeeds false (start unit)) (λ _. start_units-Succeeds units)

  refresh_networks-Succeeds :
      (units : List Text) → Succeeds (refresh_networks hosts engine opts units)
  unfolding refresh_networks attempt_on
  refresh_networks-Succeeds [] s = (tt, refl)
  refresh_networks-Succeeds (unit ∷ units) s = (tt, refl)

  renew_units-Succeeds : (units : List Text) → Succeeds (renew_units hosts engine opts units)
  unfolding renew_units
  renew_units-Succeeds units = Succeeds-bind _ _ (run_on-Succeeds false daemon_reload) λ _.
      Succeeds-bind _ (λ _. refresh_networks hosts engine opts units) (restart_units-Succeeds units)
        (λ _. refresh_networks-Succeeds units)

  apply_units-Succeeds : (units : List Text) → Succeeds (apply_units hosts engine opts units)
  unfolding apply_units
  apply_units-Succeeds units s = elim (Bool-cases s.quadlet_changed) [
    | inl changed ↦ simp changed (renew_units-Succeeds units s)
    | inr same ↦ simp same (start_units-Succeeds units s)
  ]

  -- The script of the hook can be read.
  abbrev pub IsReadable : StackHook → Type 0
  IsReadable h = (body : Text) × (engine.read_hook h.run ≡ some body)

  run_hook-Succeeds : (h : StackHook) → IsReadable h → Succeeds (run_hook hosts engine opts h)
  unfolding run_hook
  run_hook-Succeeds h (body, known) =
      Succeeds-bind (require (engine.read_hook h.run)) _ (λ s. (body, known))
        λ text.
          Succeeds-bind _ _ (run_on-Succeeds false (write (hook_path opts h) text 488))
            λ _. command-Succeeds false (hook (hook_env opts) (hook_path opts h))

  run_hooks-Succeeds :
      (hooks : List StackHook) → All IsReadable hooks → Succeeds (run_hooks hosts engine opts hooks)
  unfolding run_hooks run_due
  run_hooks-Succeeds [] h s = ([], refl)
  run_hooks-Succeeds (k ∷ hooks) h s = elim (Bool-cases (is_skipped opts k)) [
    | inl skipped ↦ rw (skipped, run_hooks) (run_hooks-Succeeds hooks h.1 s)
    | inr due ↦
        rw (due, run_hooks)
          (Succeeds-bind (run_hook hosts engine opts k) _ (run_hook-Succeeds k h.0)
            (λ _.
              Succeeds-bind (run_hooks hosts engine opts hooks) _ (run_hooks-Succeeds hooks h.1)
                (λ ran t. (k.run ∷ ran, refl)))
            s)
  ]

  -- The type of the check is a known one.
  abbrev pub IsKnown : StackHealth → Type 0
  IsKnown check = (found : Option Command) × (check_command check ≡ some found)

  run_check-Succeeds : (found : Option Command) → Succeeds (run_check hosts engine opts found)
  unfolding run_check
  run_check-Succeeds none s = (tt, refl)
  run_check-Succeeds (some command) s = command-Succeeds false command s

  check_health-Succeeds :
      (checks : List StackHealth)
      → All IsKnown checks
      → Succeeds (check_health hosts engine opts checks)
  unfolding check_health
  check_health-Succeeds [] h = λ s. (tt, refl)
  check_health-Succeeds (check ∷ checks) h =
      Succeeds-bind (require (check_command check)) _ (λ s. h.0)
        λ found. Succeeds-bind (run_check hosts engine opts found) _ (run_check-Succeeds found) λ _.
          Succeeds-bind (update (note_health check.app))
            (λ _. check_health hosts engine opts checks) (λ s. (tt, refl))
            (λ _. check_health-Succeeds checks h.1)

  prepare-Succeeds :
      (rendered : List (Text × Text))
      → engine.render (visible_secrets opts) ≡ some rendered
      → All IsReadable opts.hooks
      → All IsKnown opts.stack.health
      → Succeeds (prepare hosts engine opts)
  unfolding prepare install push_secrets
  prepare-Succeeds rendered e hooks health =
      Succeeds-bind _ _ (push_all-Succeeds (slice_stable text_lt (keys opts.secrets))) λ _.
        Succeeds-bind (require (engine.render (visible_secrets opts))) _ (λ s. (rendered, e))
          λ found. Succeeds-bind _ _ (pre_pull-Succeeds opts.stack.apps) λ _.
            Succeeds-bind _ _
              (put_files-Succeeds (drop_empty found) (sorted_paths (drop_empty found)))
              λ _. Succeeds-bind _ _ reload_edge-Succeeds λ _.
                Succeeds-bind _ _ (apply_units-Succeeds (quadlet_units (drop_empty found))) λ _.
                  Succeeds-bind _ _ (run_hooks-Succeeds opts.hooks hooks) λ ran.
                    Succeeds-bind (update (note_hooks ran))
                      (λ _. check_health hosts engine opts opts.stack.health) (λ s. (tt, refl))
                      λ _. check_health-Succeeds opts.stack.health health

  -- `DeployStack` succeeds when the hosts accept every command, the templates render, every hook can be
  -- read and every health check is of a known type.
  pub deploy_stack-succeeds :
      (rendered : List (Text × Text))
      → engine.render (visible_secrets opts) ≡ some rendered
      → All IsReadable opts.hooks
      → All IsKnown opts.stack.health
      → (deploy_stack hosts engine opts).0 ≡ some tt
  unfolding deploy_stack write_marker
  deploy_stack-succeeds rendered e hooks health =
      (Succeeds-bind (prepare hosts engine opts) (λ _. write_marker hosts engine opts)
        (prepare-Succeeds rendered e hooks health) (λ _. command-Succeeds false _)
        (start_run hosts engine opts)).1
