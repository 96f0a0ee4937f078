-- ===== src/Common/Strings.antt =====
-- The functions of Go's package `strings` that the program calls, on bytes. Case and white space are
-- those of ASCII.
use Prim.Native.Nat.{ℕ, ◌+◌}
use mathlib.Core.Path.{◌≡◌, refl, sym, ap, ◌∙◌}
use mathlib.Core.Logic.{◌≢◌, ◌↔◌}
use mathlib.Core.Bool.{Bool, true, false, ◌&&◌, ◌||◌}
use mathlib.Core.Option.{Option, none, some}
use mathlib.Core.List.{List, [], ◌∷◌, ◌++◌, map, reverse, reverse-reverse, reverse-append}
use native.Mathlib.Omega.{arith}
use mksrv.Common.Tests.{leb, ◌==◌, if◌then◌else◌, ◌>>=◌}
use mksrv.Common.Lists.{All, All-reverse}
use mksrv.Common.Texts.{Text, text_eq}

-- strings.HasPrefix
unfoldable pub has_prefix : Text → Text → Bool
has_prefix s [] = true
has_prefix [] (p ∷ ps) = false
has_prefix (c ∷ s) (p ∷ ps) = c == p && has_prefix s ps

-- strings.HasSuffix
unfoldable pub has_suffix : Text → Text → Bool
unfolding has_prefix
has_suffix s t = has_prefix (reverse s) (reverse t)

-- strings.Contains
unfoldable pub contains_text : Text → Text → Bool
unfolding has_prefix
contains_text [] t = has_prefix [] t
contains_text (c ∷ s) t = has_prefix (c ∷ s) t || contains_text s t

-- The white space of ASCII, as strings.TrimSpace sees it.
unfoldable pub is_space : ℕ → Bool
is_space c = c == 32 || leb 9 c && leb c 13

unfoldable pub trim_left_func : (ℕ → Bool) → Text → Text
trim_left_func p [] = []
trim_left_func p (c ∷ s) = if p c then trim_left_func p s else c ∷ s

unfoldable pub trim_right_func : (ℕ → Bool) → Text → Text
unfolding trim_left_func
trim_right_func p s = reverse (trim_left_func p (reverse s))

-- strings.TrimSpace
unfoldable pub trim_space : Text → Text
unfolding trim_left_func trim_right_func is_space
trim_space s = trim_right_func is_space (trim_left_func is_space s)

-- strings.TrimRight(s, "c") and strings.Trim(s, "c") for a set of one byte.
unfoldable pub trim_right : Text → ℕ → Text
unfolding trim_right_func
trim_right s c = trim_right_func (λ d. d == c) s

unfoldable pub trim : Text → ℕ → Text
unfolding trim_right_func
trim s c = trim_right_func (λ d. d == c) (trim_left_func (λ d. d == c) s)

-- strings.ToLower, of ASCII.
unfoldable pub lower : ℕ → ℕ
lower c = if leb b'A' c && leb c b'Z' then c + 32 else c

unfoldable pub to_lower : Text → Text
unfolding lower
to_lower s = map lower s

unfoldable pub drop_text : Text → Text → Text
drop_text s [] = s
drop_text [] (p ∷ ps) = []
drop_text (c ∷ s) (p ∷ ps) = drop_text s ps

-- strings.TrimPrefix and strings.TrimSuffix
unfoldable pub trim_prefix : Text → Text → Text
unfolding has_prefix drop_text
trim_prefix s p = if has_prefix s p then drop_text s p else s

unfoldable pub trim_suffix : Text → Text → Text
unfolding has_suffix drop_text
trim_suffix s t = if has_suffix s t then reverse (drop_text (reverse s) (reverse t)) else s

-- strings.Cut at one byte: what stands before it and after it.
unfoldable pub cut : Text → ℕ → Option (Text × Text)
cut [] sep = none
cut (c ∷ s) sep =
    if c == sep then some ([], s) else (do (before, after) ← cut s sep; some (c ∷ before, after))

-- strings.SplitN(s, sep, 2)[0] for a separator of one byte: the text before the first one.
unfoldable pub before_first : Text → ℕ → Text
before_first [] sep = []
before_first (c ∷ s) sep = if c == sep then [] else c ∷ before_first s sep

-- strings.Split at one byte.
cons_to : ℕ → List Text → List Text
cons_to c [] = (c ∷ []) ∷ []
cons_to c (p ∷ ps) = (c ∷ p) ∷ ps

unfoldable pub split : Text → ℕ → List Text
unfolding cons_to
split [] sep = [] ∷ []
split (c ∷ s) sep = let rest = split s sep in if c == sep then [] ∷ rest else cons_to c rest

-- strings.Join
unfoldable pub join : List Text → Text → Text
join [] sep = []
join (p ∷ []) sep = p
join (p ∷ q ∷ ps) sep = p ++ (sep ++ join (q ∷ ps) sep)

-- strings.LastIndexByte: the last position of a byte.
unfoldable pub last_index : Text → ℕ → Option ℕ
last_index [] c = none
last_index (d ∷ s) c = elim (last_index s c) [
  | some i ↦ some (i + 1)
  | none ↦ if d == c then some 0 else none
]

-- Membership in a set of texts, as a Go `map[string]bool` or a slice that is searched.
unfoldable pub contains : List Text → Text → Bool
contains [] expected = false
contains (value ∷ values) expected = text_eq value expected || contains values expected

-- A text in which nothing is to be trimmed stays as it is.
trim_left_func_none : (p : ℕ → Bool) (s : Text) → All (λ c. p c ≡ false) s → trim_left_func p s ≡ s
unfolding trim_left_func
trim_left_func_none p [] h = refl
trim_left_func_none p (c ∷ s) (e, h) = rw e refl

pub trim_right_func_none :
    (p : ℕ → Bool) (s : Text) → All (λ c. p c ≡ false) s → trim_right_func p s ≡ s
unfolding trim_right_func
trim_right_func_none p s h =
    rw (trim_left_func_none p (reverse s) (All-reverse (λ c. p c ≡ false) s h)) (reverse-reverse s)

pub trim_space_none : (s : Text) → All (λ c. is_space c ≡ false) s → trim_space s ≡ s
unfolding trim_space
trim_space_none s h = rw (trim_left_func_none is_space s h) (trim_right_func_none is_space s h)

module _ (sep : ℕ) where
  pub before_first-append :
      (s r : Text) → All (λ c. c ≢ sep) s → before_first (s ++ sep ∷ r) sep ≡ s
  unfolding before_first
  before_first-append [] r h = ground arith
  before_first-append (c ∷ s) r (e, h) = ground (arith, before_first-append s r h)

  pub before_first_pass :
      (s r : Text) → All (λ c. c ≢ sep) s → before_first (s ++ r) sep ≡ s ++ before_first r sep
  unfolding before_first
  before_first_pass [] r h = refl
  before_first_pass (c ∷ s) r (e, h) = ground (arith, before_first_pass s r h)

  pub before_first_none : (s : Text) → All (λ c. c ≢ sep) s → before_first s sep ≡ s
  unfolding before_first
  before_first_none [] h = refl
  before_first_none (c ∷ s) (e, h) = ground (arith, before_first_none s h)

  pub split_none : (s : Text) → All (λ c. c ≢ sep) s → split s sep ≡ s ∷ []
  unfolding split
  split_none [] h = refl
  split_none (c ∷ s) (e, h) = ground (arith, split_none s h)

  pub split-append :
      (s r : Text) → All (λ c. c ≢ sep) s → split (s ++ sep ∷ r) sep ≡ s ∷ split r sep
  unfolding split
  split-append [] r h = ground arith
  split-append (c ∷ s) r (e, h) = ground (arith, split-append s r h)

pub has_prefix-append : (p r : Text) → has_prefix (p ++ r) p ≡ true
unfolding has_prefix
has_prefix-append [] [] = refl
has_prefix-append [] (c ∷ r) = refl
has_prefix-append (c ∷ p) r = ground (arith, has_prefix-append p r)

pub prefix_rest : (s p : Text) → has_prefix s p ≡ true → (r : Text) × (s ≡ p ++ r)
unfolding has_prefix
prefix_rest s [] h = (s, refl)
prefix_rest [] (d ∷ p) h = cc
prefix_rest (c ∷ s) (d ∷ p) h =
    let (r, e) = prefix_rest s p (ground arith) in (r, ground (arith, e))

-- A suffix is what stands behind some text.
pub has_suffix_iff : (s t : Text) → (has_suffix s t ≡ true) ↔ ((p : Text) × (s ≡ p ++ t))
unfolding has_suffix
has_suffix_iff s t = (
  λ h.
      let (r, e) = prefix_rest (reverse s) (reverse t) h in
      (
        reverse r,
        sym (reverse-reverse s)
            ∙ ap reverse e
            ∙ reverse-append (reverse t) r
            ∙ ap (λ x. reverse r ++ x) (reverse-reverse t),
      ),
  λ (p, e). rw (e, reverse-append p t) (has_prefix-append (reverse t) (reverse p)),
)
