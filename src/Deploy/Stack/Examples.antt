-- ===== src/Deploy/Stack/Examples.antt =====
-- The deployment of a small stack on hosts that accept everything, on a host whose health check
-- fails, and on hosts that have all the files.
use mksrv.Common.{
  ◌≡◌, refl, Bool, true, false, not, none, some, List, [], ◌∷◌, All, Text, txt, text_eq, text_lt,
  has_prefix, has_suffix, trim_space, trim_left_func, trim_right_func, trim_right, trim_suffix,
  drop_text, last_index, is_space, lookup, keys, slice_stable,
}
use mksrv.Model.Types.{Stack}
use mksrv.Deploy.Host.{Command, check_http, Hosts, attempt_on, run_on}
use mksrv.Deploy.Host.Laws.{IsQuiet}
use mksrv.Deploy.Files.{base_name, drop_empty, sorted_paths, units_in, quadlet_units, file_mode}
use mksrv.Deploy.Options.{
  Options, Engine, state_dir, deployed_marker, is_edge_fragment, matches, visible_secrets,
  content_of, note_changed, note_unchanged, note_restarted, note_hooks, note_health, is_skipped,
  hook_path, hook_env, check_command,
}
use mksrv.Deploy.Stack.{
  push_secret, push_all, push_secrets, pre_pull, write_file, put_file, put_files, reload_edge,
  restart_units, start_units, refresh_networks, renew_units, apply_units, run_hook, run_due,
  run_hooks, run_check, check_health, write_marker, install, prepare, deploy_stack,
}
use mksrv.Deploy.Stack.Deployed.{deploy_stack-IsUnmarked}
use mksrv.Deploy.Stack.Alive.{deploy_stack-succeeds}

abbrev web : Stack
web = record {
  name = txt "web";
  targets = [];
  kind = txt "single";
  per_tenant = false;
  depends_on = [];
  apps = record { name = txt "web"; image = txt "img" } ∷ [];
  min_ram_mb = 0;
  storage = [];
  templates = [];
  health = record { app = txt "web"; type = txt "http"; path = txt "/"; port = 0 } ∷ [];
}

abbrev opts : Options
opts = record {
  stack = web;
  hooks = record { run = txt "hooks/init.sh"; scope = txt "stack" } ∷ [];
  secrets = (txt "key", txt "s") ∷ [];
  context_secrets = none;
  env = txt "prod";
  host_name = txt "h";
  tenant_id = none;
  has_edge = true;
}

abbrev engine : Engine
engine = record {
  render = λ secrets. some (
      (txt "/etc/containers/systemd/web.container", txt "unit")
      ∷ (txt "/etc/empty", txt " ")
      ∷ (txt "/var/lib/mksrv/caddy.d/web", txt "site")
      ∷ []);
  read_hook = λ path. some (txt "true");
  checksum = λ content. content;
}

abbrev accepting : Hosts
accepting history edge command = (true, [])

-- A host whose health checks fail.
abbrev is_check : Command → Bool
is_check (check_http port path) = true
is_check command = false

abbrev unhealthy : Hosts
unhealthy history edge command = (not (is_check command), [])

-- Hosts that have the two files.
abbrev settled_answer : Bool → Text
settled_answer true = txt "site"
settled_answer false = txt "unit"

abbrev settled : Hosts
settled history edge command = (true, settled_answer edge)

abbrev rendered : List (Text × Text)
rendered =
    (txt "/etc/containers/systemd/web.container", txt "unit")
    ∷ (txt "/etc/empty", txt " ")
    ∷ (txt "/var/lib/mksrv/caddy.d/web", txt "site")
    ∷ []

deploy_stack-succeeds_example : (deploy_stack accepting engine opts).0 ≡ some tt
unfolding check_command txt text_eq
deploy_stack-succeeds_example =
    deploy_stack-succeeds accepting engine opts (λ history edge command. refl) rendered refl
      ((txt "true", refl), tt) ((_, refl), tt)

restarted_test : (deploy_stack accepting engine opts).1.result.restarted ≡ txt "web.service" ∷ []
unfolding txt text_eq text_lt has_prefix has_suffix trim_space trim_left_func trim_right_func
    trim_right trim_suffix drop_text last_index is_space lookup keys slice_stable base_name
    drop_empty sorted_paths units_in quadlet_units file_mode attempt_on run_on state_dir
    deployed_marker is_edge_fragment matches visible_secrets content_of note_changed note_unchanged
    note_restarted note_hooks note_health is_skipped hook_path hook_env check_command push_secret
    push_all push_secrets pre_pull write_file put_file put_files reload_edge restart_units
    start_units refresh_networks renew_units apply_units run_hook run_due run_hooks run_check
    check_health write_marker install prepare deploy_stack
restarted_test = refl

deploy_stack-IsUnmarked_example : All IsQuiet (deploy_stack unhealthy engine opts).1.history
unfolding txt text_eq text_lt has_prefix has_suffix trim_space trim_left_func trim_right_func
    trim_right trim_suffix drop_text last_index is_space lookup keys slice_stable base_name
    drop_empty sorted_paths units_in quadlet_units file_mode attempt_on run_on state_dir
    deployed_marker is_edge_fragment matches visible_secrets content_of note_changed note_unchanged
    note_restarted note_hooks note_health is_skipped hook_path hook_env check_command push_secret
    push_all push_secrets pre_pull write_file put_file put_files reload_edge restart_units
    start_units refresh_networks renew_units apply_units run_hook run_due run_hooks run_check
    check_health write_marker install prepare deploy_stack
deploy_stack-IsUnmarked_example = deploy_stack-IsUnmarked unhealthy engine opts refl
