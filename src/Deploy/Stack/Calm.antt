-- ===== src/Deploy/Stack/Calm.antt =====
-- `DeployStack` once more: where every file is in place, no file is written and no unit is restarted.
use mksrv.Common.{
  not, any, text_eq, ap, ◌++◌, append_assoc, All-append, ◌≡◌, refl, sym, ◌∙◌, Bool, true, false,
  Option, List, [], All, Text,
}
use mksrv.Common.Effect.{IsPreorder}
use mksrv.Deploy.Host.{
  restart, reload_caddy, daemon_reload, Command, Event, Hosts, Run, write, digest,
}
use mksrv.Deploy.Options.{
  StackHook, Options, Engine, is_edge_fragment, content_of, matches, hook_path,
}

-- The path is that of a hook's script, which is written whenever the hook is run.
abbrev pub is_script : Options → Text → Bool
is_script opts dst = any (λ h. text_eq (hook_path opts h) dst) opts.hooks

-- What changes a host that has all files: a file is written, a unit is restarted, or the units or Caddy
-- are reloaded.
abbrev pub changes : Options → Command → Bool
changes opts (write dst content mode) = not (is_script opts dst)
changes opts (restart unit) = true
changes opts reload_caddy = true
changes opts daemon_reload = true
changes opts command = false

-- Nothing was given to the host or to the edge that changes them, no change was noted between two
-- states, and no flag was set.
pub record IsSame (opts : Options) (s t : Run) : Type 0 where
  pub new : List Event
  pub history : t.history ≡ new ++ s.history
  pub harmless : All (λ e. changes opts e.command ≡ false) new
  pub changed : t.result.changed ≡ s.result.changed
  pub restarted : t.result.restarted ≡ s.result.restarted
  pub quadlet : t.quadlet_changed ≡ s.quadlet_changed
  pub edge : t.edge_changed ≡ s.edge_changed

-- Where no flag is set, nothing changes.
abbrev Calm : Options → Run → Run → Type 0
Calm opts s t = s.quadlet_changed ≡ false → s.edge_changed ≡ false → IsSame opts s t

-- What only the result knows of.
abbrev unasked : (opts : Options) (s : Run) → IsSame opts s s
unasked opts s = record {
  new = [];
  history = refl;
  harmless = tt;
  changed = refl;
  restarted = refl;
  quadlet = refl;
  edge = refl;
}

Calm-IsPreorder : (opts : Options) → IsPreorder (Calm opts)
Calm-IsPreorder opts = record {
  at_once = λ s q e. unasked opts s;
  later = λ s t u f g q e.
      let first = f q e in
      let second = g (first.quadlet ∙ q) (first.edge ∙ e) in
      record {
        new = second.new ++ first.new;
        history =
            second.history
            ∙ (ap (λ h. second.new ++ h) first.history
                ∙ sym (append_assoc second.new first.new s.history));
        harmless =
            All-append (λ e. changes opts e.command ≡ false) second.new first.new second.harmless
              first.harmless;
        changed = second.changed ∙ first.changed;
        restarted = second.restarted ∙ first.restarted;
        quadlet = second.quadlet ∙ first.quadlet;
        edge = second.edge ∙ first.edge;
      };
}

module _ (hosts : Hosts) (engine : Engine) (opts : Options) where
  abbrev order : IsPreorder (Calm opts)
  order = Calm-IsPreorder opts

  -- The host or the edge has the content, whatever it was asked before.
  abbrev pub IsThere : List (Text × Text) → Text → Type 0
  IsThere files dst =
      (history : List Event)
      → matches engine (content_of files dst)
          (hosts history (is_edge_fragment opts dst) (digest dst))
        ≡ true

  -- The hook is one of the stack's.
  abbrev IsScript : StackHook → Type 0
  IsScript h = is_script opts (hook_path opts h) ≡ true
