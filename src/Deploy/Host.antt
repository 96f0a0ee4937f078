-- ===== src/Deploy/Host.antt =====
-- The commands that internal/deploy gives to hosts, and what is known when some have been answered.
pub mod Laws
use mksrv.Common.{ℕ, Bool, none, some, List, ◌∷◌, if◌then◌else◌, Text}
use mksrv.Common.Effect.{Act}

pub data Command : Type 0 where
  -- podman secret create, with the value on its input
  create_secret : Text → Text → Command
  -- podman pull, which is tried four times
  pull : Text → Command
  -- sha256sum of a file
  digest : Text → Command
  -- WriteFileSudo: the path, the content and the mode
  write : Text → Text → ℕ → Command
  reload_caddy : Command
  daemon_reload : Command
  restart : Text → Command
  start : Text → Command
  reload_networks : Command
  -- a script, with its environment
  hook : Text → Text → Command
  -- the loop around curl, for a port and a path, and the one around /dev/tcp
  check_http : ℕ → Text → Command
  check_tcp : ℕ → Command
  -- WriteFileSudo as DeployStack's last step calls it, for the marker of a stack that is deployed; the
  -- rendered files and the scripts of hooks are a `write`, whatever their paths are
  mark : Text → Text → Command

-- A command to the host or to the edge, and the answer.
pub record Event : Type 0 where
  pub on_edge : Bool
  pub command : Command
  pub ok : Bool
  pub output : Text

-- The answers of the hosts may depend on all that they were asked before, the last first.
abbrev pub Hosts : Type 0
Hosts = List Event → Bool → Command → Bool × Text

pub record StackResult : Type 0 where
  pub stack : Text
  pub changed : List Text
  pub unchanged : ℕ
  pub restarted : List Text
  pub hooks : List Text
  pub health_ok : List Text

-- Where a deployment stands: what was asked and answered, the result, and its two flags.
pub record Run : Type 0 where
  pub history : List Event
  pub result : StackResult
  pub quadlet_changed : Bool
  pub edge_changed : Bool

module _ (hosts : Hosts) where
  -- A command whose error is looked at by the caller, or ignored.
  unfoldable pub attempt_on : Bool → Command → Act Run (Bool × Text)
  attempt_on edge command s =
      let (ok, output) = hosts s.history edge command in
      let event : Event = record { on_edge = edge; command = command; ok = ok; output = output } in
      (some (ok, output), record s { history = event ∷ s.history })

  -- A command whose error is an error of the deployment.
  unfoldable pub run_on : Bool → Command → Act Run Text
  run_on edge command s =
      let (ok, output) = hosts s.history edge command in
      let event : Event = record { on_edge = edge; command = command; ok = ok; output = output } in
      (if ok then some output else none, record s { history = event ∷ s.history })
