-- ===== src/Deploy/Stack.antt =====
-- internal/deploy/stack.go: `DeployStack` with the functions that it calls, over the answers of the
-- host and of the edge.
pub mod Placing
pub mod Steps
pub mod Prepared
pub mod Deployed
pub mod Alive
pub mod Calm
pub mod Examples
use mksrv.Common.{
  [], ◌+◌, true, false, Option, none, some, List, ◌∷◌, ◌++◌, if◌then◌else◌, is_empty, Text, txt,
  text_lt, trim_space, keys, slice_stable,
}
use mksrv.Common.Effect.{◌>>=◌, Act, pure, require, ◌>>◌, update}
use mksrv.Model.Types.{StackApp, StackHealth}
use mksrv.Deploy.Host.{
  Command, create_secret, pull, digest, write, reload_caddy, daemon_reload, restart, start,
  reload_networks, hook, mark, Hosts, Run, attempt_on, run_on,
}
use mksrv.Deploy.Files.{drop_empty, sorted_paths, quadlet_units, file_mode}
use mksrv.Deploy.Options.{
  StackHook, Options, Engine, deployed_marker, is_edge_fragment, matches, visible_secrets,
  content_of, note_changed, note_unchanged, note_restarted, note_hooks, note_health, is_skipped,
  hook_path, hook_env, check_command,
}

module _ (hosts : Hosts) (engine : Engine) (opts : Options) where
  unfoldable pub push_secret : Text → Act Run Text
  push_secret leaf = run_on hosts false (
      create_secret (txt "mksrv-" ++ opts.stack.name ++ txt "-" ++ leaf)
        (content_of opts.secrets leaf))

  -- The loop of `pushSecrets`.
  unfoldable pub push_all : List Text → Act Run (Unit {0})
  push_all [] = pure tt
  push_all (leaf ∷ names) = do push_secret leaf; push_all names

  unfoldable pub push_secrets : Act Run (Unit {0})
  push_secrets = push_all (slice_stable text_lt (keys opts.secrets))

  -- The loop of `prePull`.
  unfoldable pub pre_pull : List StackApp → Act Run (Unit {0})
  pre_pull [] = pure tt
  pre_pull (app ∷ apps) = elim (is_empty (trim_space app.image)) [
    | true ↦ pre_pull apps
    | false ↦ do attempt_on hosts false (pull app.image); pre_pull apps
  ]

  unfoldable pub write_file : Text → Text → Act Run (Unit {0})
  write_file dst content = do
    run_on hosts (is_edge_fragment opts dst) (write dst content (file_mode dst))
    update (note_changed opts dst)

  unfoldable pub put_file : Text → Text → Act Run (Unit {0})
  put_file dst content = do
    reply ← attempt_on hosts (is_edge_fragment opts dst) (digest dst)
    if matches engine content reply then update note_unchanged else write_file dst content

  -- The loop over the sorted paths.
  unfoldable pub put_files : List (Text × Text) → List Text → Act Run (Unit {0})
  put_files files [] = pure tt
  put_files files (dst ∷ paths) = do put_file dst (content_of files dst); put_files files paths

  unfoldable pub reload_edge : Act Run (Unit {0})
  reload_edge s = (if s.edge_changed then run_on hosts true reload_caddy >> pure tt else pure tt) s

  unfoldable pub restart_units : List Text → Act Run (Unit {0})
  restart_units [] = pure tt
  restart_units (unit ∷ units) = do
    run_on hosts false (restart unit)
    update (note_restarted unit)
    restart_units units

  unfoldable pub start_units : List Text → Act Run (Unit {0})
  start_units [] = pure tt
  start_units (unit ∷ units) = do run_on hosts false (start unit); start_units units

  unfoldable pub refresh_networks : List Text → Act Run (Unit {0})
  refresh_networks [] = pure tt
  refresh_networks (unit ∷ units) = do attempt_on hosts false reload_networks; pure tt

  unfoldable pub renew_units : List Text → Act Run (Unit {0})
  renew_units units = do
    run_on hosts false daemon_reload
    restart_units units
    refresh_networks units

  unfoldable pub apply_units : List Text → Act Run (Unit {0})
  apply_units units s = (if s.quadlet_changed then renew_units units else start_units units) s

  unfoldable pub run_hook : StackHook → Act Run (Unit {0})
  run_hook h = do
    body ← require (engine.read_hook h.run)
    run_on hosts false (write (hook_path opts h) body 488)
    run_on hosts false (hook (hook_env opts) (hook_path opts h))
    pure tt

  -- A hook that is due, and the rest of the loop.
  unfoldable pub run_due : StackHook → Act Run (List Text) → Act Run (List Text)
  run_due h rest = do run_hook h; ran ← rest; pure (h.run ∷ ran)

  -- The loop of `runHooks`, with the hooks that were run.
  unfoldable pub run_hooks : List StackHook → Act Run (List Text)
  run_hooks [] = pure []
  run_hooks (h ∷ hooks) = elim (is_skipped opts h) [
    | true ↦ run_hooks hooks
    | false ↦ run_due h (run_hooks hooks)
  ]

  unfoldable pub run_check : Option Command → Act Run (Unit {0})
  run_check none = pure tt
  run_check (some command) = do run_on hosts false command; pure tt

  unfoldable pub check_health : List StackHealth → Act Run (Unit {0})
  check_health [] = pure tt
  check_health (check ∷ checks) = do
    command ← require (check_command check)
    run_check command
    update (note_health check.app)
    check_health checks

  unfoldable pub write_marker : Act Run (Unit {0})
  write_marker = do
    run_on hosts false
        (mark (deployed_marker opts.stack.name) (txt "deployed " ++ opts.stack.name ++ 10 ∷ []))
    pure tt

  -- `DeployStack` from the rendered files to the health checks.
  unfoldable pub install : List (Text × Text) → Act Run (Unit {0})
  install files = do
    pre_pull opts.stack.apps
    put_files files (sorted_paths files)
    reload_edge
    apply_units (quadlet_units files)
    hooks ← run_hooks opts.hooks
    update (note_hooks hooks)
    check_health opts.stack.health

  -- `DeployStack` before the marker.
  unfoldable pub prepare : Act Run (Unit {0})
  prepare = do
    push_secrets
    rendered ← require (engine.render (visible_secrets opts))
    install (drop_empty rendered)

  abbrev pub start_run : Run
  start_run = record {
    history = [];
    result = record {
      stack = opts.stack.name;
      changed = [];
      unchanged = 0;
      restarted = [];
      hooks = [];
      health_ok = [];
    };
    quadlet_changed = false;
    edge_changed = false;
  }

  unfoldable pub deploy_stack : Option (Unit {0}) × Run
  deploy_stack = (prepare >> write_marker) start_run
