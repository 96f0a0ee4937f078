-- ===== src/Deploy/Stack/Deployed.antt =====
-- `DeployStack` as a whole: what a deployment that succeeds has done, and what one that fails has not.
use mksrv.Common.{
  ◌≡◌, refl, inl, inr, false, Bool-cases, Option, none, some, [], ◌∷◌, ◌++◌, append-nil, All, Text,
  txt,
}
use mathlib.Core.Option.{some-ne-none}
use mksrv.Common.Effect.{continue, Effect}
use mksrv.Deploy.Host.{Command, mark, Event, Hosts, Run, run_on}
use mksrv.Deploy.Host.Laws.{IsQuiet, Follows, IsAcked}
use mksrv.Deploy.Options.{Options, Engine, deployed_marker}
use mksrv.Deploy.Stack.{write_marker, prepare, start_run, deploy_stack}
use mksrv.Deploy.Stack.Prepared.{IsPrepared, prepare-Effect}

abbrev marker_content : Options → Text
marker_content opts = txt "deployed " ++ opts.stack.name ++ 10 ∷ []

abbrev marker : Options → Command
marker opts = mark (deployed_marker opts.stack.name) (marker_content opts)

module _ (hosts : Hosts) (engine : Engine) (opts : Options) where
  -- The marker is the last command, and no marker was written before it.
  pub record IsDeployed (s : Run) : Type 0 where
    pub before : Run
    pub prepared : IsPrepared hosts engine opts before
    pub last : Event
    pub history : s.history ≡ last ∷ before.history
    pub marked :
        (content : Text) × IsAcked false (mark (deployed_marker opts.stack.name) content) last
    pub quiet : All IsQuiet before.history

  history-IsQuiet : (s : Run) → Follows (start_run hosts engine opts) s → All IsQuiet s.history
  history-IsQuiet s f = rw (f.history, append-nil f.new) f.quiet

  mark-IsQuiet :
      (found : Option (Unit {0})) (s : Run)
      → Follows (start_run hosts engine opts) s
      → (continue found (λ _. write_marker hosts engine opts) s).0 ≡ none
      → All IsQuiet (continue found (λ _. write_marker hosts engine opts) s).1.history
  unfolding write_marker run_on
  mark-IsQuiet none s f h = history-IsQuiet s f
  mark-IsQuiet (some a) s f h = elim (Bool-cases (hosts s.history false (marker opts)).0) [
    | inl ok ↦ absurd (some-ne-none tt (rw (ok, write_marker, run_on) at h))
    | inr failed ↦ rw (failed, write_marker, run_on) (refl, history-IsQuiet s f)
  ]

  -- When `DeployStack` fails, whatever it had done and wherever it stopped, no marker was written.
  pub deploy_stack-IsUnmarked :
      (deploy_stack hosts engine opts).0 ≡ none
      → All IsQuiet (deploy_stack hosts engine opts).1.history
  unfolding deploy_stack
  deploy_stack-IsUnmarked h =
      let s = start_run hosts engine opts in
      let (found, t) = prepare hosts engine opts s in
      mark-IsQuiet found t (prepare-Effect hosts engine opts s).keeps h
