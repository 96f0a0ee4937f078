-- ===== src/Ssh/Trust/Enrolled.antt =====
-- What a host that was enrolled once finds when it is enrolled again.
use mksrv.Common.{
  ℕ, ◌≡◌, refl, sym, ap, ◌∙◌, subst, ◌≢◌, ◌⊎◌, inl, inr, Bool, true, false, List, [], ◌∷◌, ◌++◌,
  append_assoc, append-nil, arith, ◌==◌, if◌then◌else◌, Bool-cases, All, Text, txt, text_eq,
  text_eq_refl, contains_text, trim_left_func, trim_right_func, trim_space, split, split-append,
}
use mksrv.Ssh.Trust.{Verdict, unknown, trusted, conflict, is_comment, scan, enrolled, trust}

-- A line as golang.org/x/crypto/ssh/knownhosts writes it: one line, that starts with the host's
-- pattern and has no space around it.
pub record IsEntry (pattern line : Text) : Type 0 where
  pub one_line : All (λ c. c ≢ 10) line
  pub trimmed : trim_space line ≡ line
  pub no_comment : is_comment line ≡ false
  pub for_host : contains_text line pattern ≡ true

split-ne-nil : (sep : ℕ) (s : Text) → (p : Text) × (ps : List Text) × (split s sep ≡ p ∷ ps)
unfolding split
split-ne-nil sep [] = ([], [], refl)
split-ne-nil sep (c ∷ s) =
    let (p, ps, e) = split-ne-nil sep s in
    elim (Bool-cases (c == sep)) [
      | inl same ↦ ([], split s sep, rw (split, same) refl)
      | inr other ↦ (c ∷ p, ps, rw (split, other, e) refl)
    ]

-- A text is split at a separator as the parts before and behind it are.
split_at : (sep : ℕ) (s r : Text) → split (s ++ sep ∷ r) sep ≡ split s sep ++ split r sep
unfolding split
split_at sep [] r = ground arith
split_at sep (c ∷ s) r = let (p, ps, e) = split-ne-nil sep s in ground (arith, split_at sep s r, e)

Verdict-cases : (v : Verdict) → (v ≡ unknown) ⊎ (v ≡ trusted) ⊎ (v ≡ conflict)
Verdict-cases unknown = inl refl
Verdict-cases trusted = inr (inl refl)
Verdict-cases conflict = inr (inr refl)

enrolled-injective : (a b : Text) → enrolled true a ≡ enrolled true b → a ≡ b
enrolled-injective a b e = cc

module _ (pattern line : Text) where
  scan-append :
      (a b : List Text)
      → scan pattern line (a ++ b) ≡ (elim (scan pattern line a) [
        | unknown ↦ scan pattern line b
        | trusted ↦ trusted
        | conflict ↦ conflict
      ])
  unfolding scan
  scan-append [] b = refl
  scan-append (l ∷ a) b = ground (arith, scan-append a b)

  -- The line of a host, and the empty line behind it, tell that the host is trusted.
  scan_entry : IsEntry pattern line → scan pattern line (line ∷ [] ∷ []) ≡ trusted
  unfolding scan
  scan_entry e = rw (e.trimmed, e.no_comment, e.for_host, text_eq_refl) refl

  scan_empty_line : scan pattern line ([] ∷ []) ≡ unknown
  unfolding scan is_comment text_eq trim_space trim_left_func trim_right_func
  scan_empty_line = refl

  -- The file is empty, or its last line ends.
  abbrev pub EndsInLine : Text → Type 0
  EndsInLine existing = (existing ≡ []) ⊎ ((before : Text) × (existing ≡ before ++ 10 ∷ []))

  scan_before :
      (before : Text)
      → scan pattern line (split (before ++ 10 ∷ []) 10) ≡ scan pattern line (split before 10)
  unfolding split
  scan_before before =
      ap (scan pattern line) (split_at 10 before [])
      ∙ scan-append (split before 10) ([] ∷ [])
      ∙ ends (scan pattern line (split before 10)) (scan pattern line ([] ∷ [])) scan_empty_line
    where
      ends :
          (v w : Verdict)
          → w ≡ unknown
          → (elim v [ unknown ↦ w | trusted ↦ trusted | conflict ↦ conflict ]) ≡ v
      ends unknown w h = h
      ends trusted w h = refl
      ends conflict w h = refl

  split_entry : IsEntry pattern line → split (line ++ 10 ∷ []) 10 ≡ line ∷ [] ∷ []
  unfolding split
  split_entry e = split-append 10 line [] e.one_line

  scan_added :
      (existing : Text)
      → IsEntry pattern line
      → EndsInLine existing
      → scan pattern line (split existing 10) ≡ unknown
      → scan pattern line (split (existing ++ (line ++ 10 ∷ [])) 10) ≡ trusted
  scan_added existing e (inl empty) fresh = rw (empty, split_entry e) (scan_entry e)
  scan_added existing e (inr (before, ends)) fresh =
      let quiet : (scan pattern line (split before 10) ≡ unknown) =
        sym (scan_before before) ∙ ap (λ x. scan pattern line (split x 10)) (sym ends) ∙ fresh in
      rw
        (
          ends,
          append_assoc before (10 ∷ []) (line ++ 10 ∷ []),
          split_at 10 before (line ++ 10 ∷ []),
          scan-append (split before 10) (split (line ++ 10 ∷ []) 10),
          quiet,
          split_entry e,
        )
        (scan_entry e)

  -- A host that `Trust` has added is trusted when it is enrolled again with the same key: no line is
  -- added a second time. The file of known hosts must be empty or end in a line feed.
  pub trust_idem :
      (existing after : Text)
      → IsEntry pattern line
      → EndsInLine existing
      → trust pattern line existing ≡ enrolled true after
      → trust pattern line after ≡ enrolled false after
  unfolding trust txt
  trust_idem existing after e ends added =
      elim (Verdict-cases (scan pattern line (split existing 10))) [
        | inl fresh ↦
            let same : (existing ++ (line ++ 10 ∷ []) ≡ after) =
              enrolled-injective _ after (rw (trust, fresh) at added) in
            subst (λ a. trust pattern line a ≡ enrolled false a) same
              (rw (trust, scan_added existing e ends fresh) refl)
        | inr (inl known) ↦ cc (added, known)
        | inr (inr other) ↦ cc (added, other)
      ]

  -- `Trust` keeps every line of the file: it appends one at most.
  pub trust-keeps :
      (existing after : Text) (added : Bool)
      → trust pattern line existing ≡ enrolled added after
      → after ≡ existing ++ (if added then line ++ 10 ∷ [] else [])
  unfolding trust txt
  trust-keeps existing after added e =
      elim (Verdict-cases (scan pattern line (split existing 10))) [
        | inl fresh ↦ ground (arith, e, fresh)
        | inr (inl known) ↦ ground (arith, e, known, append-nil existing)
        | inr (inr other) ↦ ground (arith, e, other)
      ]
