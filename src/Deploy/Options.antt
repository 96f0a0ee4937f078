-- ===== src/Deploy/Options.antt =====
-- internal/deploy/stack.go: the options of a deployment, what it reads from them, and the notes of its
-- result.
use mksrv.Common.{
  ◌+◌, Bool, true, false, ◌&&◌, ◌||◌, Option, none, some, is_some, List, [], ◌∷◌, ◌++◌,
  if◌then◌else◌, ◌==◌, is_empty, Text, txt, text_eq, has_prefix, trim_space, lookup,
}
use mksrv.Model.Types.{StackHealth, Stack}
use mksrv.Deploy.Host.{Command, check_http, check_tcp, StackResult, Run}
use mksrv.Deploy.Files.{base_name}

pub record StackHook : Type 0 where
  pub run : Text
  pub scope : Text

-- The options, with the hooks of the stack's descriptor beside it, and the part of the template
-- context that the deployment reads.
pub record Options : Type 0 where
  pub stack : Stack
  pub hooks : List StackHook
  pub secrets : List (Text × Text)
  pub context_secrets : Option (List (Text × Text))
  pub env : Text
  pub host_name : Text
  pub tenant_id : Option Text
  pub has_edge : Bool

-- What is not on the hosts: `render.Stack` for the secrets of its context, the files of the hooks, and
-- the text of a SHA-256 sum.
pub record Engine : Type 0 where
  pub render : Option (List (Text × Text)) → Option (List (Text × Text))
  pub read_hook : Text → Option Text
  pub checksum : Text → Text

abbrev pub caddy_fragment_dir : Text
caddy_fragment_dir = txt "/var/lib/mksrv/caddy.d/"

abbrev pub quadlet_dir : Text
quadlet_dir = txt "/etc/containers/systemd/"

unfoldable pub state_dir : Text → Text
state_dir stack = txt "/var/lib/mksrv/stacks/" ++ stack

unfoldable pub deployed_marker : Text → Text
deployed_marker stack = state_dir stack ++ txt "/.deployed"

unfoldable pub is_edge_fragment : Options → Text → Bool
is_edge_fragment opts dst = opts.has_edge && has_prefix dst caddy_fragment_dir

-- `remoteMatches`, of the answer to sha256sum.
unfoldable pub matches : Engine → Text → Bool × Text → Bool
matches engine content (ok, output) = ok && text_eq (trim_space output) (engine.checksum content)

-- The secrets that the renderer sees.
unfoldable pub visible_secrets : Options → Option (List (Text × Text))
visible_secrets opts =
    if is_empty opts.secrets || is_some opts.context_secrets
    then opts.context_secrets
    else some opts.secrets

-- What an index of a map gives for a missing key is the empty value.
unfoldable pub content_of : List (Text × Text) → Text → Text
content_of files dst = elim (lookup files dst) [ none ↦ [] | some content ↦ content ]

unfoldable pub note_changed : Options → Text → Run → Run
note_changed opts dst s =
    let r : StackResult = record s.result { changed = s.result.changed ++ dst ∷ [] } in
    if has_prefix dst quadlet_dir
    then record s { result = r; quadlet_changed = true }
    else if is_edge_fragment opts dst
    then record s { result = r; edge_changed = true }
    else record s { result = r }

unfoldable pub note_unchanged : Run → Run
note_unchanged s = record s { result = record s.result { unchanged = s.result.unchanged + 1 } }

unfoldable pub note_restarted : Text → Run → Run
note_restarted unit s = record s {
  result = record s.result { restarted = s.result.restarted ++ unit ∷ [] };
}

unfoldable pub note_hooks : List Text → Run → Run
note_hooks hooks s = record s { result = record s.result { hooks = hooks } }

unfoldable pub note_health : Text → Run → Run
note_health app s = record s {
  result = record s.result { health_ok = s.result.health_ok ++ app ∷ [] };
}

unfoldable pub is_skipped : Options → StackHook → Bool
is_skipped opts h = elim opts.tenant_id [
  | none ↦ text_eq h.scope (txt "per_tenant")
  | some id ↦ false
]

unfoldable pub hook_path : Options → StackHook → Text
hook_path opts h = state_dir opts.stack.name ++ txt "/" ++ base_name h.run

unfoldable pub hook_env : Options → Text
hook_env opts =
    txt "MKSRV_ENV="
    ++ opts.env
    ++ txt " MKSRV_STACK="
    ++ opts.stack.name
    ++ txt " MKSRV_HOST="
    ++ opts.host_name
    ++ elim opts.tenant_id as (λ _. Text) [ none ↦ [] | some id ↦ txt " MKSRV_TENANT=" ++ id ]

-- What a health check runs: `none` for an unknown type, and nothing for a command.
unfoldable pub check_command : StackHealth → Option (Option Command)
check_command check =
    if text_eq check.type (txt "http")
    then some (some (check_http (if check.port == 0 then 80 else check.port) check.path))
    else if text_eq check.type (txt "tcp")
    then some (some (check_tcp check.port))
    else if text_eq check.type (txt "command")
    then some none
    else none
