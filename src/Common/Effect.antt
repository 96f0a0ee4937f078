-- ===== src/Common/Effect.antt =====
-- Code that changes a state and may stop with an error: the state comes back beside the error, since
-- what was done before the error stays done.
use mathlib.Core.Path.{◌≡◌, refl, sym, subst}
use mathlib.Core.Logic.{inl, inr}
use mathlib.Core.Bool.{Bool, true, false}
use mathlib.Core.Option.{Option, none, some, some-injective, some-ne-none}
use mksrv.Common.Tests.{Bool-cases}

abbrev pub Act : Type 0 → Type 0 → Type 0
Act S A = S → Option A × S

module _ {S A : Type 0} where
  abbrev pub pure : A → Act S A
  pure a s = (some a, s)

  abbrev pub fail : Act S A
  fail s = (none, s)

  -- A value that may be missing, which is an error then.
  abbrev pub require : Option A → Act S A
  require found s = (found, s)

  -- A read that may fail.
  abbrev pub read : (S → Option A) → Act S A
  read f s = (f s, s)

module _ {S A B : Type 0} where
  abbrev pub continue : Option A → (A → Act S B) → Act S B
  continue none f s = (none, s)
  continue (some a) f s = f a s

  infixl 5 ◌>>=◌ ◌>>◌
  abbrev pub ◌>>=◌ : Act S A → (A → Act S B) → Act S B
  ◌>>=◌ m f s = let (found, s') = m s in continue found f s'

  abbrev pub ◌>>◌ : Act S A → Act S B → Act S B
  m >> n = m >>= λ _. n

-- A change of the state, and its effect on what is reported.
abbrev pub update : {S : Type 0} → (S → S) → Act S (Unit {0})
update f s = (some tt, f s)

-- A request that says whether it succeeded.
abbrev pub attempt : {S : Type 0} → (S → Bool × S) → Act S (Unit {0})
attempt f s = let (ok, s') = f s in (elim ok [ true ↦ some tt | false ↦ none ], s')

-- A relation between an earlier and a later state.
pub record IsPreorder {S : Type 0} (R : S → S → Type 0) : Type 0 where
  pub at_once : (s : S) → R s s
  pub later : (s t u : S) → R s t → R t u → R s u

-- An outcome is related to the state before, and the result, if there is one, is as `Q` says.
pub record Effect {S A : Type 0} (R : S → S → Type 0) (Q : A → S → Type 0) (before : S)
    (outcome : Option A × S) : Type 0 where
  pub keeps : R before outcome.1
  pub gives : (a : A) → outcome.0 ≡ some a → Q a outcome.1

module _ {S A : Type 0} {R : S → S → Type 0} (order : IsPreorder R) where
  pub Effect-pure : (Q : A → S → Type 0) (a : A) (s : S) → Q a s → Effect R Q s (some a, s)
  Effect-pure Q a s q = record {
    keeps = order.at_once s;
    gives = λ b e. subst (λ c. Q c s) (some-injective a b e) q;
  }

  pub Effect-fail : (Q : A → S → Type 0) (s : S) → Effect R Q s (none, s)
  Effect-fail Q s = record {
    keeps = order.at_once s;
    gives = λ b e. absurd (some-ne-none b (sym e));
  }

  pub Effect-require :
      (Q : A → S → Type 0) (found : Option A) (s : S)
      → ((a : A) → found ≡ some a → Q a s)
      → Effect R Q s (found, s)
  Effect-require Q found s q = record { keeps = order.at_once s; gives = q }

  -- A weaker statement of the result, which may use that the state came later.
  pub Effect-map :
      (Q Q' : A → S → Type 0) (s : S) (outcome : Option A × S)
      → Effect R Q s outcome
      → ((a : A) (t : S) → R s t → Q a t → Q' a t)
      → Effect R Q' s outcome
  Effect-map Q Q' s outcome e f = record {
    keeps = e.keeps;
    gives = λ a h. f a outcome.1 e.keeps (e.gives a h);
  }

module _ {S : Type 0} {R : S → S → Type 0} where
  pub Effect-attempt :
      (Q : S → Type 0) (f : S → Bool × S) (s : S)
      → R s (f s).1
      → ((f s).0 ≡ true → Q (f s).1)
      → Effect R (λ _ t. Q t) s (attempt f s)
  Effect-attempt Q f s r q = elim (Bool-cases (f s).0) [
    | inl done ↦ rw done (record { keeps = r; gives = λ a e. q done })
    | inr failed ↦ rw failed (record { keeps = r; gives = λ a e. absurd (some-ne-none a (sym e)) })
  ]

module _ {S A B : Type 0} {R : S → S → Type 0} (order : IsPreorder R) where
  Effect-continue :
      (Q : A → S → Type 0) (Q' : B → S → Type 0) (f : A → Act S B) (s t : S) (found : Option A)
      → R s t
      → ((a : A) → found ≡ some a → Q a t)
      → ((a : A) (u : S) → R s u → Q a u → Effect R Q' u (f a u))
      → Effect R Q' s (continue found f t)
  Effect-continue Q Q' f s t none r q k = record {
    keeps = r;
    gives = λ b e. absurd (some-ne-none b (sym e));
  }
  Effect-continue Q Q' f s t (some a) r q k =
      let rest = k a t r (q a refl) in
      record { keeps = order.later s t (f a t).1 r rest.keeps; gives = rest.gives }

  -- The rest of a block may use what the first action gave, and that its state came later.
  pub Effect-bind :
      (Q : A → S → Type 0) (Q' : B → S → Type 0) (m : Act S A) (f : A → Act S B) (s : S)
      → Effect R Q s (m s)
      → ((a : A) (u : S) → R s u → Q a u → Effect R Q' u (f a u))
      → Effect R Q' s ((m >>= f) s)
  Effect-bind Q Q' m f s e k = Effect-continue Q Q' f s (m s).1 (m s).0 e.keeps e.gives k

module _ {S : Type 0} {R : S → S → Type 0} (order : IsPreorder R) where
  -- Two actions one after the other, where what the first gave stays true.
  pub Effect-then :
      (Q Q' : S → Type 0) (m n : Act S (Unit {0})) (s : S)
      → ((t u : S) → R t u → Q t → Q u)
      → Effect R (λ _. Q) s (m s)
      → ((u : S) → R s u → Effect R (λ _. Q') u (n u))
      → Effect R (λ _ t. Q t × Q' t) s ((m >> n) s)
  Effect-then Q Q' m n s stays e k =
      Effect-bind order (λ _. Q) (λ _ t. Q t × Q' t) m (λ _. n) s e
        λ a u r q.
          Effect-map order (λ _. Q') (λ _ t. Q t × Q' t) u (n u) (k u r)
            λ b t r' q'. (stays u t r' q, q')

-- The action does not stop with an error, whatever the state.
abbrev pub Succeeds : {S A : Type 0} → Act S A → Type 0
Succeeds {S} {A} m = (s : S) → (a : A) × ((m s).0 ≡ some a)

module _ {S A B : Type 0} where
  pub Succeeds-bind :
      (m : Act S A) (f : A → Act S B) → Succeeds m → ((a : A) → Succeeds (f a)) → Succeeds (m >>= f)
  Succeeds-bind m f h k s = let (a, e) = h s in let (b, e') = k a (m s).1 in (b, rw e e')

-- The state behind the action is related to the one before, whatever the outcome.
abbrev pub Keeps : {S A : Type 0} → (S → S → Type 0) → Act S A → Type 0
Keeps {S} {A} R m = (s : S) → R s (m s).1

module _ {S A B : Type 0} {R : S → S → Type 0} (order : IsPreorder R) where
  Keeps-continue :
      (f : A → Act S B) (s t : S) (found : Option A)
      → R s t
      → ((a : A) → found ≡ some a → Keeps R (f a))
      → R s (continue found f t).1
  Keeps-continue f s t none r k = r
  Keeps-continue f s t (some a) r k = order.later s t (f a t).1 r (k a refl t)

  pub Keeps-bind :
      (m : Act S A) (f : A → Act S B) → Keeps R m → ((a : A) → Keeps R (f a)) → Keeps R (m >>= f)
  Keeps-bind m f h k s = Keeps-continue f s (m s).1 (m s).0 (h s) (λ a e. k a)

  -- The rest of a block may use what the value is that it was given.
  pub Keeps-require :
      (found : Option A) (f : A → Act S B)
      → ((a : A) → found ≡ some a → Keeps R (f a))
      → Keeps R (require found >>= f)
  Keeps-require found f k s = Keeps-continue f s s found (order.at_once s) k
