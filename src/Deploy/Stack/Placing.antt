-- ===== src/Deploy/Stack/Placing.antt =====
-- What the secrets and the files of `DeployStack` leave on the hosts.
use mksrv.Common.{
  ◌≡◌, refl, ◌⊎◌, inl, inr, Bool, true, false, Bool-cases, List, [], ◌∷◌, ◌++◌, All, is_empty, Text,
  txt, has_prefix, trim_space,
}
use mksrv.Common.Effect.{Effect, Effect-pure, Effect-map, Effect-bind, Effect-then}
use mksrv.Model.Types.{StackApp}
use mksrv.Deploy.Host.{create_secret, pull, digest, write, Hosts, Run, attempt_on, run_on}
use mksrv.Deploy.Host.Laws.{
  Follows, Happened-Follows, Acked, Answered, run_on-Effect, attempt_on-Effect, order,
  update-Effect, same_result,
}
use mksrv.Deploy.Files.{file_mode}
use mksrv.Deploy.Options.{
  Options, Engine, quadlet_dir, is_edge_fragment, matches, content_of, note_changed, note_unchanged,
}
use mksrv.Deploy.Stack.{push_secret, push_all, pre_pull, write_file, put_file, put_files}

module _ (hosts : Hosts) (engine : Engine) (opts : Options) where
  -- A secret that the host was given.
  abbrev pub IsPushed : Text → Run → Type 0
  IsPushed leaf s =
      Acked false
        (create_secret (txt "mksrv-" ++ opts.stack.name ++ txt "-" ++ leaf)
          (content_of opts.secrets leaf))
        s

  pub push_all-Effect :
      (names : List Text) (s : Run)
      → Effect Follows
          (λ _ t. All (λ leaf. IsPushed leaf t) names)
          s
          (push_all hosts engine opts names s)
  unfolding push_all push_secret
  push_all-Effect [] s = Effect-pure order _ tt s tt
  push_all-Effect (leaf ∷ names) s =
      Effect-bind order (λ _ t. IsPushed leaf t) (λ _ t. All (λ n. IsPushed n t) (leaf ∷ names))
        (push_secret hosts engine opts leaf) _ s (run_on-Effect hosts false _ s refl)
        λ _ t f pushed.
          Effect-map order (λ _ u. All (λ n. IsPushed n u) names) _ t _ (push_all-Effect names t)
            λ _ u g rest. (Happened-Follows _ t u g pushed, rest)

  pub pre_pull-Effect :
      (apps : List StackApp) (s : Run)
      → Effect Follows (λ _ t. Unit {0}) s (pre_pull hosts engine opts apps s)
  unfolding pre_pull
  pre_pull-Effect [] s = Effect-pure order _ tt s tt
  pre_pull-Effect (app ∷ apps) s = elim (Bool-cases (is_empty (trim_space app.image))) [
    | inl blank ↦ rw (blank, pre_pull) (pre_pull-Effect apps s)
    | inr image ↦
        rw (image, pre_pull)
          (Effect-bind order _ _ (attempt_on hosts false (pull app.image)) _ s
            (attempt_on-Effect hosts false (pull app.image) s refl)
            λ _ t f answered. pre_pull-Effect apps t)
  ]

  -- The host or the edge said that the file has the content.
  abbrev pub IsMatched : Text → Text → Run → Type 0
  IsMatched dst content s =
      (reply : Bool × Text) × Answered (is_edge_fragment opts dst) (digest dst) reply s
      × (matches engine content reply ≡ true)

  -- The file was written, and a flag says which part of the host has to be told.
  abbrev pub IsWritten : Text → Text → Run → Type 0
  IsWritten dst content s =
      Acked (is_edge_fragment opts dst) (write dst content (file_mode dst)) s
      × (has_prefix dst quadlet_dir ≡ true → s.quadlet_changed ≡ true)
      × (has_prefix dst quadlet_dir ≡ false
          → is_edge_fragment opts dst ≡ true
          → s.edge_changed ≡ true)

  abbrev pub IsInPlace : Text → Text → Run → Type 0
  IsInPlace dst content s = IsMatched dst content s ⊎ IsWritten dst content s

  pub IsInPlace-Follows :
      (dst content : Text) (s t : Run)
      → Follows s t
      → IsInPlace dst content s
      → IsInPlace dst content t
  IsInPlace-Follows dst content s t f (inl (reply, answered, matched)) =
      inl (reply, Happened-Follows _ s t f answered, matched)
  IsInPlace-Follows dst content s t f (inr (acked, quadlet, edge)) =
      inr (Happened-Follows _ s t f acked, λ h. f.quadlet (quadlet h), λ h k. f.edge (edge h k))

  note_changed-Follows : (dst : Text) (s : Run) → Follows s (note_changed opts dst s)
  unfolding note_changed
  note_changed-Follows dst s = elim (Bool-cases (has_prefix dst quadlet_dir)) [
    | inl quadlet ↦
        rw (quadlet, note_changed)
          (record { new = []; history = refl; quiet = tt; quadlet = λ h. refl; edge = λ h. h })
    | inr other ↦ elim (Bool-cases (is_edge_fragment opts dst)) [
      | inl fragment ↦
          rw (other, fragment, note_changed)
            (record { new = []; history = refl; quiet = tt; quadlet = λ h. h; edge = λ h. refl })
      | inr plain ↦
          rw (other, plain, note_changed)
            (record { new = []; history = refl; quiet = tt; quadlet = λ h. h; edge = λ h. h })
    ]
  ]

  note_changed-quadlet :
      (dst : Text) (s : Run)
      → has_prefix dst quadlet_dir ≡ true
      → (note_changed opts dst s).quadlet_changed ≡ true
  unfolding note_changed
  note_changed-quadlet dst s h = rw (h, note_changed) refl

  note_changed-edge :
      (dst : Text) (s : Run)
      → has_prefix dst quadlet_dir ≡ false
      → is_edge_fragment opts dst ≡ true
      → (note_changed opts dst s).edge_changed ≡ true
  unfolding note_changed
  note_changed-edge dst s h k = rw (h, k, note_changed) refl

  write_file-Effect :
      (dst content : Text) (s : Run)
      → Effect Follows
          (λ _ t. IsWritten dst content t)
          s
          (write_file hosts engine opts dst content s)
  unfolding write_file
  write_file-Effect dst content s =
      let command = write dst content (file_mode dst) in
      Effect-bind order (λ _ t. Acked (is_edge_fragment opts dst) command t)
        (λ _ t. IsWritten dst content t) (run_on hosts (is_edge_fragment opts dst) command) _ s
        (run_on-Effect hosts (is_edge_fragment opts dst) command s refl)
        λ _ t f acked.
          let noted = note_changed-Follows dst t in
          update-Effect (λ u. IsWritten dst content u) (note_changed opts dst) t noted
            (
              Happened-Follows _ t (note_changed opts dst t) noted acked,
              note_changed-quadlet dst t,
              note_changed-edge dst t,
            )

  put_file-Effect :
      (dst content : Text) (s : Run)
      → Effect Follows (λ _ t. IsInPlace dst content t) s (put_file hosts engine opts dst content s)
  unfolding put_file note_unchanged
  put_file-Effect dst content s =
      Effect-bind order (λ reply t. Answered (is_edge_fragment opts dst) (digest dst) reply t)
        (λ _ t. IsInPlace dst content t) (attempt_on hosts (is_edge_fragment opts dst) (digest dst))
        _ s (attempt_on-Effect hosts (is_edge_fragment opts dst) (digest dst) s refl)
        λ reply t f answered. elim (Bool-cases (matches engine content reply)) [
          | inl same ↦ rw same (
              update-Effect (λ u. IsInPlace dst content u) note_unchanged t (same_result t _)
                (inl (reply, answered, same)))
          | inr other ↦ rw other (
              Effect-map order (λ _ u. IsWritten dst content u) (λ _ u. IsInPlace dst content u) t _
                (write_file-Effect dst content t) (λ _ u g written. inr written))
        ]

  pub put_files-Effect :
      (files : List (Text × Text)) (paths : List Text) (s : Run)
      → Effect Follows
          (λ _ t. All (λ dst. IsInPlace dst (content_of files dst) t) paths)
          s
          (put_files hosts engine opts files paths s)
  unfolding put_files
  put_files-Effect files [] s = Effect-pure order _ tt s tt
  put_files-Effect files (dst ∷ paths) s =
      Effect-then order (λ t. IsInPlace dst (content_of files dst) t)
        (λ t. All (λ d. IsInPlace d (content_of files d) t) paths)
        (put_file hosts engine opts dst (content_of files dst))
        (put_files hosts engine opts files paths) s
        (λ t u f. IsInPlace-Follows dst (content_of files dst) t u f)
        (put_file-Effect dst (content_of files dst) s) (λ t f. put_files-Effect files paths t)
