-- ===== src/Secrets/Store/Ensured.antt =====
-- What `EnsureRandom` leaves in the parameters.
use mksrv.Common.{
  ℕ, ◌≡◌, refl, ap, ◌∙◌, ◌⊎◌, inl, inr, Bool, false, Option, none, some, List, arith, Bool-cases,
  Option-cases, Text, text_eq_iff, text_eq_refl, lookup, lookup-insert,
}
use mathlib.Core.Option.{some-injective}
use mksrv.Secrets.Random.{Drawn, drawn, failed, unfinished}
use mksrv.Secrets.Store.{
  expand, Answer, found, not_found, broken, Outcome, get, put_parameter, keep_value, create,
  ensure_random,
}

Answer-cases : (a : Answer) → ((value : Text) × (a ≡ found value)) ⊎ (a ≡ not_found) ⊎ (a ≡ broken)
Answer-cases (found value) = inl (value, refl)
Answer-cases not_found = inr (inl refl)
Answer-cases broken = inr (inr refl)

module _ (env : Text) (get_fails put_fails : Text → Bool) (before : List (Text × Text))
    (ref : Text) where
  abbrev read_from : List (Text × Text) → Answer
  read_from parameters = get env get_fails put_fails parameters ref

  -- A value that is returned can be read from then on, and no parameter is changed or lost.
  pub record Ensures (outcome : Outcome) : Type 0 where
    pub stored :
        (value : Text) → outcome.value ≡ some value → read_from outcome.parameters ≡ found value
    pub kept :
        (name value : Text)
        → lookup before name ≡ some value
        → lookup outcome.parameters name ≡ some value

  get-not_found :
      read_from before ≡ not_found
      → (get_fails (expand env ref) ≡ false) × (lookup before (expand env ref) ≡ none)
  unfolding get
  get-not_found e = elim (Bool-cases (get_fails (expand env ref))) [
    | inl fails ↦ cc (fails, e)
    | inr reads ↦ elim (Option-cases (lookup before (expand env ref))) [
      | inl absent ↦ (reads, absent)
      | inr (value, present) ↦ cc (reads, present, e)
    ]
  ]

  unchanged : Ensures (record { value = none; parameters = before })
  unchanged = record { stored = λ value e. cc; kept = λ name value e. e }

  create-Ensures :
      (drawing : Drawn)
      → read_from before ≡ not_found
      → Ensures (create env get_fails put_fails before ref drawing)
  unfolding create keep_value put_parameter get
  create-Ensures failed e = unchanged
  create-Ensures unfinished e = unchanged
  create-Ensures (drawn secret) e =
      let (reads, absent) = get-not_found e in
      elim (Bool-cases (put_fails (expand env ref))) [
        | inl fails ↦ rw (create, put_parameter, fails) unchanged
        | inr puts ↦
            rw (create, put_parameter, puts, absent)
              (record {
                stored = λ value h. ground (
                  arith,
                  reads,
                  h,
                  lookup-insert before (expand env ref) secret (expand env ref),
                  text_eq_refl (expand env ref),
                );
                kept = λ name value h. ground (
                  arith,
                  h,
                  absent,
                  lookup-insert before (expand env ref) secret name,
                  text_eq_iff (expand env ref) name,
                );
              })
      ]

  module _ (read : ℕ → Option Text) (reads nbytes : ℕ) where
    -- `EnsureRandom` changes no parameter that exists; and when it returns a value, a read of the
    -- reference gives that value from then on.
    pub ensure_random-Ensures :
        Ensures (ensure_random env get_fails put_fails read reads before ref nbytes)
    unfolding ensure_random
    ensure_random-Ensures = elim (Answer-cases (read_from before)) [
      | inl (value, e) ↦
          rw (ensure_random, e)
            (record {
              stored = λ other h. e ∙ ap found (some-injective value other h);
              kept = λ name old h. h;
            })
      | inr (inl e) ↦ rw (ensure_random, e) (create-Ensures _ e)
      | inr (inr e) ↦ rw (ensure_random, e) unchanged
    ]
