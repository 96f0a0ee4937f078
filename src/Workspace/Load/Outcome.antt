-- ===== src/Workspace/Load/Outcome.antt =====
-- When the loading of files adds no error.
use mksrv.Common.{
  ℕ, ◌+◌, ◌≡◌, refl, sym, subst, ◌↔◌, inl, inr, Bool, true, false, Option, none, some, List, [],
  ◌∷◌, ◌++◌, arith, if◌then◌else◌, Bool-cases, Option-cases, is_some, is_empty, All, Text, insert,
}
use mathlib.Core.Option.{some-injective, some-ne-none}
use mksrv.Workspace.Report.{Report}
use mksrv.Workspace.Report.Laws.{errors}
use mksrv.Workspace.Report.Outcome.{
  Reports, Reports-refl, Reports-trans, Reports-iff, Reports-error,
}
use mksrv.Workspace.Seen.{is_dup, note, IsFresh, IsFresh-nil, IsFresh-cons}
use mksrv.Workspace.Load.{
  FileState, missing, unreadable, malformed, checked, report_schema, count_file, decode,
  validate_and_decode_file, Loaded, store, load_file, load_files,
}

-- The value of a file that the schema allows.
abbrev pub value_of : {A : Type 0} → FileState A → Option A
value_of missing = none
value_of unreadable = none
value_of malformed = none
value_of (checked [] value) = value
value_of (checked (issue ∷ issues) value) = none

pub errors-count_file : (report : Report) → errors (count_file report) ≡ errors report
unfolding errors count_file
errors-count_file report = refl

-- A part behind one that leaves the number of errors as it is.
Reports-after : {a b c : Report} {P : Type 0} → errors b ≡ errors a → Reports b c P → Reports a c P
Reports-after e p = record {
  le = omega (arith, e, p.le);
  accepted = λ h. p.accepted (omega (arith, e, h));
  silent = λ h. omega (arith, e, p.silent h);
}

-- The count of the users, of which no error depends.
Reports-users :
    {a : Report} {P : Type 0} (b : Report) (n : ℕ)
    → Reports a b P
    → Reports a (record b { users = n }) P
unfolding errors
Reports-users b n p = record { le = p.le; accepted = p.accepted; silent = p.silent }

report_schema_lem :
    (file : Text) (found : List (Text × Text)) (report : Report)
    → Reports report (report_schema file found report) (is_empty found ≡ true)
unfolding report_schema
report_schema_lem file [] report = Reports-iff ((λ h. refl), (λ h. tt)) (Reports-refl report)
report_schema_lem file ((path, keyword) ∷ found) report =
    Reports-iff ((λ h. absurd h.0), (λ h. cc))
      (Reports-trans (Reports-error _ _ _ report) (report_schema_lem file found _))

module _ {A : Type 0} where
  -- The file was read: it has an error or a value.
  pub record IsRead (before after : Report) (state : FileState A) (found : Option A) : Type 0 where
    pub outcome : Reports before after (is_some found ≡ true)
    pub value : found ≡ value_of state

  IsRead-pair :
      (before after r : Report) (state : FileState A) (found f : Option A)
      → ◌≡◌ {A = Option (Option A × Report)} (some (f, r)) (some (found, after))
      → IsRead before r state f
      → IsRead before after state found
  IsRead-pair before after r state found f e h =
      let pair = some-injective (f, r) (found, after) e in
      subst (λ p. IsRead before p.1 state p.0) pair h

  -- `validateAndDecodeFile` adds an error exactly when it returns no value.
  pub validate_and_decode_file_lem :
      (file : Text) (state : FileState A) (report after : Report) (found : Option A)
      → validate_and_decode_file file state report ≡ some (found, after)
      → IsRead report after state found
  unfolding validate_and_decode_file decode
  validate_and_decode_file_lem file missing report after found e =
      IsRead-pair report after _ missing found none e (record {
        outcome = Reports-iff ((λ h. absurd h), (λ h. cc)) (Reports-error _ _ _ report);
        value = refl;
      })
  validate_and_decode_file_lem file unreadable report after found e = cc
  validate_and_decode_file_lem file malformed report after found e =
      IsRead-pair report after _ malformed found none e (record {
        outcome =
            Reports-after (errors-count_file report)
              (Reports-iff ((λ h. absurd h), (λ h. cc)) (Reports-error _ _ _ _));
        value = refl;
      })
  validate_and_decode_file_lem file (checked [] none) report after found e = cc
  validate_and_decode_file_lem file (checked [] (some value)) report after found e =
      IsRead-pair report after _ (checked [] (some value)) found (some value) e (record {
        outcome =
            Reports-after (errors-count_file report)
              (Reports-iff ((λ h. refl), (λ h. refl)) (report_schema_lem file [] _));
        value = refl;
      })
  validate_and_decode_file_lem file (checked (issue ∷ issues) value) report after found e =
      IsRead-pair report after _ (checked (issue ∷ issues) value) found none e (record {
        outcome =
            Reports-after (errors-count_file report)
              (Reports-iff ((λ h. cc), (λ h. cc)) (report_schema_lem file (issue ∷ issues) _));
        value = refl;
      })

note_new :
    (files : List (Text × Text)) (k path : Text)
    → is_dup files k ≡ false
    → note files k path ≡ insert files k path
unfolding is_dup note
note_new files k path new = ground (arith, new)

module _ {A : Type 0} (wanted : Text → Bool) (key : A → Text) (read : Text → FileState A) where
  -- The wanted files can all be decoded.
  abbrev pub CanBeRead : Text → Type 0
  CanBeRead path = wanted path ≡ true → is_some (value_of (read path)) ≡ true

  -- The keys of the values, in the order in which their files are read.
  abbrev key_of : Option A → List Text
  key_of none = []
  key_of (some value) = key value ∷ []

  abbrev pub keys_in : List Text → List Text
  keys_in [] = []
  keys_in (path ∷ paths) =
      (if wanted path then key_of (value_of (read path)) else []) ++ keys_in paths

module _ {A : Type 0} (wanted : Text → Bool) (key : A → Text) (users_in : A → ℕ)
    (key_path duplicate : Text) (read : Text → FileState A) where
  abbrev AreNew : List (Text × Text) → List Text → Type 0
  AreNew files ks = All (λ k. is_dup files k ≡ false) ks

  -- What one round of the loop does.
  record IsStep (before after : Loaded A) (path : Text) (ks : List Text) : Type 0 where
    outcome :
        Reports before.report after.report (CanBeRead wanted key read path × AreNew before.files ks)
    fresh :
        (rest : List Text)
        → (AreNew before.files ks × IsFresh after.files rest) ↔ IsFresh before.files (ks ++ rest)

  abbrev stored : Text → Option A → Loaded A → Report → Loaded A
  stored = store wanted key users_in key_path duplicate read

  skip_lem : (path : Text) (state : Loaded A) → wanted path ≡ false → IsStep state state path []
  skip_lem path state skipped = record {
    outcome = Reports-iff ((λ h. ((λ w. cc), tt)), (λ h. tt)) (Reports-refl state.report);
    fresh = λ rest. ((λ h. h.1), (λ h. (tt, h)));
  }

  store_lem :
      (path : Text) (state : Loaded A) (report : Report) (found : Option A)
      → wanted path ≡ true
      → IsRead state.report report (read path) found
      → IsStep state (stored path found state report) path (key_of wanted key read found)
  unfolding store
  store_lem path state report none w r = record {
    outcome = Reports-iff ((λ h. cc), (λ h. cc (h.0 w, r.value))) r.outcome;
    fresh = λ rest. ((λ h. h.1), (λ h. (tt, h)));
  }
  store_lem path state report (some value) w r =
      elim (Bool-cases (is_dup state.files (key value))) [
        | inl dup ↦
            rw (dup, store)
              (record {
                outcome =
                    Reports-iff ((λ h. absurd h.1), (λ h. cc (dup, h.1.0)))
                      (Reports-trans r.outcome (Reports-error _ _ _ report));
                fresh = λ rest. ((λ h. cc (dup, h.0.0)), (λ h. cc (dup, h.0.0)));
              })
        | inr new ↦
            rw (new, store)
              (record {
                outcome =
                    Reports-iff
                      (
                        (λ h. ((λ _. subst (λ o. is_some o ≡ true) r.value refl), (new, tt))),
                        (λ h. refl),
                      )
                      (Reports-users report (report.users + users_in value) r.outcome);
                fresh = λ rest.
                    let step = IsFresh-cons state.files (key value) path rest in
                    (
                      (λ h. step.0 (
                        h.0.0,
                        subst (λ m. IsFresh m rest)
                            (sym (note_new state.files (key value) path new)) h.1,
                      )),
                      (λ h.
                          let f = step.1 h in
                          (
                            (f.0, tt),
                            subst (λ m. IsFresh m rest) (note_new state.files (key value) path new)
                                f.1,
                          )),
                    );
              })
      ]

  abbrev loading : Text → Loaded A → Option (Loaded A)
  loading = load_file wanted key users_in key_path duplicate read

  abbrev keys_at : Text → List Text
  keys_at path = if wanted path then key_of wanted key read (value_of (read path)) else []

  load_file_lem :
      (path : Text) (state next : Loaded A)
      → loading path state ≡ some next
      → IsStep state next path (keys_at path)
  unfolding load_file
  load_file_lem path state next e = elim (Bool-cases (wanted path)) [
    | inl w ↦ elim (Option-cases (validate_and_decode_file path (read path) state.report)) [
      | inl failed ↦ absurd (some-ne-none next (sym (rw (w, failed, load_file) at e)))
      | inr ((found, report), read_it) ↦
          let r = validate_and_decode_file_lem path (read path) state.report report found read_it in
          let same : (stored path found state report ≡ next) =
            some-injective _ next (rw (w, read_it, load_file) at e) in
          rw (w, ← r.value)
            (subst (λ n. IsStep state n path (key_of wanted key read found)) same
              (store_lem path state report found w r))
    ]
    | inr skipped ↦
        let same : (state ≡ next) = some-injective state next (rw (skipped, load_file) at e) in
        rw skipped (subst (λ n. IsStep state n path []) same (skip_lem path state skipped))
  ]

  -- The loop adds no error exactly when every wanted file can be decoded, and the keys of the values
  -- are distinct and new.
  pub load_files_lem :
      (paths : List Text) (state after : Loaded A)
      → load_files wanted key users_in key_path duplicate read paths state ≡ some after
      → Reports state.report after.report (
          All (CanBeRead wanted key read) paths
          × IsFresh state.files (keys_in wanted key read paths))
  unfolding load_files
  load_files_lem [] state after e =
      let same : (state ≡ after) = some-injective state after e in
      subst (λ s. Reports state.report s.report (Unit × IsFresh state.files [])) same
        (Reports-iff ((λ h. (tt, (IsFresh-nil state.files).0 h)), (λ h. tt))
          (Reports-refl state.report))
  load_files_lem (path ∷ paths) state after e = elim (Option-cases (loading path state)) [
    | inl failed ↦ cc (failed, e)
    | inr (next, loaded) ↦
        let step = load_file_lem path state next loaded in
        let rest = load_files_lem paths next after (rw (loaded, load_files) at e) in
        let fresh = step.fresh (keys_in wanted key read paths) in
        Reports-iff
          (
            (λ h. ((h.0.0, h.1.0), fresh.0 (h.0.1, h.1.1))),
            (λ h. let f = fresh.1 h.1 in ((h.0.0, f.0), (h.0.1, f.1))),
          )
          (Reports-trans step.outcome rest)
  ]
