-- ===== src/Common/Trims.antt =====
-- What trimming keeps of a text, and what it takes away.
use Prim.Native.Nat.{ℕ, ◌≤◌}
use mathlib.Core.Path.{◌≡◌, refl, sym, ap, ◌∙◌, subst}
use mathlib.Core.Bool.{Bool, true, false}
use mathlib.Core.List.{[], ◌∷◌, ◌++◌, reverse, reverse-append, reverse-reverse}
use mathlib.Core.Logic.{◌≢◌, inl, inr}
use native.Mathlib.Omega.{arith}
use mksrv.Common.Tests.{◌==◌, Bool-cases}
use mksrv.Common.Lists.{length, All, All-append, All-reverse, length-append}
use mksrv.Common.Texts.{Text}
use mksrv.Common.Strings.{trim_left_func, trim_right_func, trim}

pub length-reverse : (s : Text) → length (reverse s) ≡ length s
length-reverse [] = refl
length-reverse (c ∷ s) =
    ap length (reverse-append (c ∷ []) s)
    ∙ length-append (reverse s) (c ∷ [])
    ∙ omega (arith, length-reverse s)

-- The first byte, if there is one, is none of those that are trimmed.
abbrev pub StartsClear : (ℕ → Bool) → Text → Type 0
StartsClear p [] = Unit
StartsClear p (c ∷ s) = p c ≡ false

StartsClear-append : (p : ℕ → Bool) (s r : Text) → StartsClear p (s ++ r) → StartsClear p s
StartsClear-append p [] r h = tt
StartsClear-append p (c ∷ s) r h = h

module _ (p : ℕ → Bool) where
  trim_left_func-StartsClear : (s : Text) → StartsClear p (trim_left_func p s)
  unfolding trim_left_func
  trim_left_func-StartsClear [] = tt
  trim_left_func-StartsClear (c ∷ s) = elim (Bool-cases (p c)) [
    | inl e ↦ rw (e, trim_left_func) (trim_left_func-StartsClear s)
    | inr e ↦ rw (e, trim_left_func) e
  ]

  -- The bytes that are trimmed are all of those that are to be trimmed.
  abbrev AreTrimmed : Text → Type 0
  AreTrimmed = All (λ c. p c ≡ true)

  trim_left_func_split :
      (s : Text) → (gone : Text) × (s ≡ gone ++ trim_left_func p s) × AreTrimmed gone
  unfolding trim_left_func
  trim_left_func_split [] = ([], refl, tt)
  trim_left_func_split (c ∷ s) = elim (Bool-cases (p c)) [
    | inl e ↦
        let (gone, h, all) = trim_left_func_split s in
        rw (e, trim_left_func) (c ∷ gone, ap (λ t. c ∷ t) h, (e, all))
    | inr e ↦ rw (e, trim_left_func) ([], refl, tt)
  ]

  trim_right_func_split :
      (s : Text) → (gone : Text) × (s ≡ trim_right_func p s ++ gone) × AreTrimmed gone
  unfolding trim_right_func
  trim_right_func_split s =
      let (gone, h, all) = trim_left_func_split (reverse s) in
      (
        reverse gone,
        sym (reverse-reverse s) ∙ ap reverse h ∙ reverse-append gone (trim_left_func p (reverse s)),
        All-reverse (λ c. p c ≡ true) gone all,
      )

  -- A text is what is trimmed on its left, what is left of it, and what is trimmed on its right.
  pub trim_func_split :
      (s : Text)
      → (before after : Text) × (s ≡ before ++ (trim_right_func p (trim_left_func p s) ++ after))
        × AreTrimmed before
        × AreTrimmed after
  trim_func_split s =
      let (before, h, left) = trim_left_func_split s in
      let (after, k, right) = trim_right_func_split (trim_left_func p s) in
      (before, after, h ∙ ap (λ t. before ++ t) k, left, right)

  -- A text that does not start with a byte to be trimmed leaves something.
  pub trim_func-ne-nil :
      (c : ℕ) (s : Text) → p c ≡ false → trim_right_func p (trim_left_func p (c ∷ s)) ≢ []
  trim_func-ne-nil c s clear e =
      let (before, after, h, left, right) = trim_func_split (c ∷ s) in
      let whole : (c ∷ s ≡ before ++ after) = h ∙ ap (λ t. before ++ (t ++ after)) e in
      let all =
        subst AreTrimmed (sym whole) (All-append (λ c. p c ≡ true) before after left right) in
      cc (clear, all.0)

  pub trim_func-StartsClear : (s : Text) → StartsClear p (trim_right_func p (trim_left_func p s))
  trim_func-StartsClear s =
      let (gone, k, _) = trim_right_func_split (trim_left_func p s) in
      StartsClear-append p _ gone (subst (StartsClear p) k (trim_left_func-StartsClear s))

  pub trim_func-EndsClear :
      (s : Text) → StartsClear p (reverse (trim_right_func p (trim_left_func p s)))
  unfolding trim_right_func
  trim_func-EndsClear s =
      rw (reverse-reverse (trim_left_func p (reverse (trim_left_func p s))))
        (trim_left_func-StartsClear (reverse (trim_left_func p s)))

module _ {κ} (P : ℕ → Type κ) where
  All-right : (s r : Text) → All P (s ++ r) → All P r
  All-right [] r h = h
  All-right (c ∷ s) r (_, h) = All-right s r h

  All-left : (s r : Text) → All P (s ++ r) → All P s
  All-left [] r h = tt
  All-left (c ∷ s) r (pc, h) = (pc, All-left s r h)

  -- A property of every byte survives trimming.
  pub All-trim : (s : Text) (c : ℕ) → All P s → All P (trim s c)
  unfolding trim
  All-trim s c h =
      let (before, after, e, _, _) = trim_func_split (λ d. d == c) s in
      All-left _ after (All-right before _ (subst (All P) e h))

-- Trimming makes no text longer.
pub length-trim_le : (s : Text) (c : ℕ) → length (trim s c) ≤ length s
unfolding trim
length-trim_le s c =
    let (before, after, e, _, _) = trim_func_split (λ d. d == c) s in
    let t = trim_right_func (λ d. d == c) (trim_left_func (λ d. d == c) s) in
    omega (arith, ap length e, length-append before (t ++ after), length-append t after)

pub trim-StartsClear : (s : Text) (c : ℕ) → StartsClear (λ d. d == c) (trim s c)
unfolding trim
trim-StartsClear s c = trim_func-StartsClear (λ d. d == c) s

pub trim-EndsClear : (s : Text) (c : ℕ) → StartsClear (λ d. d == c) (reverse (trim s c))
unfolding trim
trim-EndsClear s c = trim_func-EndsClear (λ d. d == c) s

pub trim-ne-nil : (d : ℕ) (s : Text) (c : ℕ) → (d == c) ≡ false → trim (d ∷ s) c ≢ []
unfolding trim
trim-ne-nil d s c = trim_func-ne-nil (λ e. e == c) d s
