-- ===== src/Deploy/Host/Laws.antt =====
-- What the steps of a deployment leave in its history.
use mksrv.Common.{
  ◌≡◌, refl, sym, ap, ◌∙◌, ◌⊎◌, inl, inr, Bool, true, false, ◌&&◌, Bool-cases, List, [], ◌∷◌, ◌++◌,
  append_assoc, All, All-append, Text,
}
use mathlib.Core.Option.{some-injective, some-ne-none}
use mksrv.Common.Effect.{
  Act, pure, ◌>>◌, update, Effect, IsPreorder, Effect-pure, Effect-map, Effect-bind,
}
use mksrv.Deploy.Host.{Command, mark, Event, Hosts, StackResult, Run, attempt_on, run_on}

abbrev pub is_mark : Command → Bool
is_mark (mark path content) = true
is_mark command = false

-- An event that is not a marker which was written.
abbrev pub IsQuiet : Event → Type 0
IsQuiet e = (is_mark e.command && e.ok) ≡ false

-- Some event of the history is as `P` says.
abbrev pub Happened : (Event → Type 0) → List Event → Type 0
Happened P [] = ⊥
Happened P (e ∷ events) = P e ⊎ Happened P events

Happened-append :
    (P : Event → Type 0) (new old : List Event) → Happened P old → Happened P (new ++ old)
Happened-append P [] old h = h
Happened-append P (e ∷ new) old h = inr (Happened-append P new old h)

-- A later state: the history has only grown, by quiet events, and a flag that was set still is.
pub record Follows (p q : Run) : Type 0 where
  pub new : List Event
  pub history : q.history ≡ new ++ p.history
  pub quiet : All IsQuiet new
  pub quadlet : p.quadlet_changed ≡ true → q.quadlet_changed ≡ true
  pub edge : p.edge_changed ≡ true → q.edge_changed ≡ true

pub Follows-IsPreorder : IsPreorder Follows
Follows-IsPreorder = record {
  at_once = λ p. record { new = []; history = refl; quiet = tt; quadlet = λ h. h; edge = λ h. h };
  later = λ p q r f g. record {
    new = g.new ++ f.new;
    history = g.history ∙ ap (λ h. g.new ++ h) f.history ∙ sym (append_assoc g.new f.new p.history);
    quiet = All-append IsQuiet g.new f.new g.quiet f.quiet;
    quadlet = λ h. g.quadlet (f.quadlet h);
    edge = λ h. g.edge (f.edge h);
  };
}

pub Happened-Follows :
    (P : Event → Type 0) (p q : Run) → Follows p q → Happened P p.history → Happened P q.history
Happened-Follows P p q f h = rw f.history (Happened-append P f.new p.history h)

-- The command was given, to the edge or to the host, and it succeeded.
abbrev pub IsAcked : Bool → Command → Event → Type 0
IsAcked edge command e = (e.on_edge ≡ edge) × (e.command ≡ command) × (e.ok ≡ true)

abbrev pub Acked : Bool → Command → Run → Type 0
Acked edge command s = Happened (IsAcked edge command) s.history

-- The command was answered so.
abbrev pub IsAnswered : Bool → Command → Bool × Text → Event → Type 0
IsAnswered edge command reply e =
    (e.on_edge ≡ edge) × (e.command ≡ command) × ((e.ok ≡ reply.0) × (e.output ≡ reply.1))

abbrev pub Answered : Bool → Command → Bool × Text → Run → Type 0
Answered edge command reply s = Happened (IsAnswered edge command reply) s.history

-- The second command succeeded at some time after the first did.
abbrev pub AckedBehind : Bool → Command → Command → List Event → Type 0
AckedBehind edge first second [] = ⊥
AckedBehind edge first second (e ∷ events) =
    (IsAcked edge second e × Happened (IsAcked edge first) events)
    ⊎ AckedBehind edge first second events

AckedBehind-append :
    (edge : Bool) (first second : Command) (new old : List Event)
    → AckedBehind edge first second old
    → AckedBehind edge first second (new ++ old)
AckedBehind-append edge first second [] old h = h
AckedBehind-append edge first second (e ∷ new) old h =
    inr (AckedBehind-append edge first second new old h)

pub AckedBehind-Follows :
    (edge : Bool) (first second : Command) (p q : Run)
    → Follows p q
    → AckedBehind edge first second p.history
    → AckedBehind edge first second q.history
AckedBehind-Follows edge first second p q f h =
    rw f.history (AckedBehind-append edge first second f.new p.history h)

module _ (hosts : Hosts) where
  pub run_on-Effect :
      (edge : Bool) (command : Command) (s : Run)
      → is_mark command ≡ false
      → Effect Follows (λ _ t. Acked edge command t) s (run_on hosts edge command s)
  unfolding run_on
  run_on-Effect edge command s plain = record {
    keeps = record {
      new = record { on_edge = edge; command = command; ok = _; output = _ } ∷ [];
      history = refl;
      quiet = (rw plain refl, tt);
      quadlet = λ h. h;
      edge = λ h. h;
    };
    gives = λ a e. elim (Bool-cases (hosts s.history edge command).0) [
      | inl ok ↦ inl (refl, refl, ok)
      | inr failed ↦ absurd (some-ne-none a (sym (rw failed at e)))
    ];
  }

  pub attempt_on-Effect :
      (edge : Bool) (command : Command) (s : Run)
      → is_mark command ≡ false
      → Effect Follows
          (λ reply t. Answered edge command reply t)
          s
          (attempt_on hosts edge command s)
  unfolding attempt_on
  attempt_on-Effect edge command s plain = record {
    keeps = record {
      new = record { on_edge = edge; command = command; ok = _; output = _ } ∷ [];
      history = refl;
      quiet = (rw plain refl, tt);
      quadlet = λ h. h;
      edge = λ h. h;
    };
    gives = λ reply e.
        let same = some-injective _ reply e in
        inl (refl, refl, (ap (λ r. r.0) same, ap (λ r. r.1) same));
  }

-- A command that succeeds comes behind what had succeeded before.
pub run_behind-Effect :
    (hosts : Hosts) (edge : Bool) (first command : Command) (s : Run)
    → is_mark command ≡ false
    → Acked edge first s
    → Effect Follows
        (λ _ t. AckedBehind edge first command t.history)
        s
        (run_on hosts edge command s)
unfolding run_on
run_behind-Effect hosts edge first command s plain before = record {
  keeps = (run_on-Effect hosts edge command s plain).keeps;
  gives = λ a e. elim (Bool-cases (hosts s.history edge command).0) [
    | inl ok ↦ inl ((refl, refl, ok), before)
    | inr failed ↦ absurd (some-ne-none a (sym (rw failed at e)))
  ];
}

abbrev pub order : IsPreorder Follows
order = Follows-IsPreorder

-- What only the result knows of is no command.
pub update-Effect :
    (Q : Run → Type 0) (f : Run → Run) (s : Run)
    → Follows s (f s)
    → Q (f s)
    → Effect Follows (λ _ t. Q t) s (update f s)
update-Effect Q f s follows q = record { keeps = follows; gives = λ a e. q }

-- A command that is run for what it does alone.
pub run-Effect :
    (hosts : Hosts) (edge : Bool) (command : Command) (s : Run)
    → is_mark command ≡ false
    → Effect Follows (λ _ t. Acked edge command t) s ((run_on hosts edge command >> pure tt) s)
run-Effect hosts edge command s plain =
    Effect-bind order (λ _ t. Acked edge command t) (λ _ t. Acked edge command t)
      (run_on hosts edge command) (λ _. pure tt) s (run_on-Effect hosts edge command s plain)
      (λ _ t f acked. Effect-pure order (λ _ u. Acked edge command u) tt t acked)

-- A state with another result.
pub same_result : (s : Run) (r : StackResult) → Follows s (record s { result = r })
same_result s r = record { new = []; history = refl; quiet = tt; quadlet = λ h. h; edge = λ h. h }

-- A command that is run in a loop, with the rest of the loop behind it.
pub run_then-Effect :
    (hosts : Hosts) (edge : Bool) (command : Command) (Q : Run → Type 0) (rest : Act Run (Unit {0}))
    (s : Run)
    → is_mark command ≡ false
    → ((t : Run) → Effect Follows (λ _ u. Q u) t (rest t))
    → Effect Follows (λ _ t. Acked edge command t × Q t) s ((run_on hosts edge command >> rest) s)
run_then-Effect hosts edge command Q rest s plain k =
    Effect-bind order (λ _ t. Acked edge command t) (λ _ t. Acked edge command t × Q t)
      (run_on hosts edge command) (λ _. rest) s (run_on-Effect hosts edge command s plain)
      λ _ t f acked.
        Effect-map order (λ _ u. Q u) (λ _ u. Acked edge command u × Q u) t (rest t) (k t)
          λ _ u g q. (Happened-Follows (IsAcked edge command) t u g acked, q)
