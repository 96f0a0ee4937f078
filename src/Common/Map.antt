-- ===== src/Common/Map.antt =====
-- Go maps with string keys, as association lists. A range over a map visits the list; where the
-- program depends on no order, the theorems hold for every list.
use mathlib.Core.Path.{◌≡◌, refl, subst}
use mathlib.Core.Bool.{Bool, true, ◌&&◌}
use mathlib.Core.Option.{Option, none, some}
use mathlib.Core.List.{List, [], ◌∷◌}
use native.Mathlib.Omega.{arith}
use mksrv.Common.Tests.{if◌then◌else◌, is_some, ltb, Bool-cases}
use mksrv.Common.Lists.{All}
use mksrv.Common.Sort.{count_if, keep, slice_stable, count_if-slice_stable}
use mathlib.Core.Logic.{◌↔◌, inl, inr}
use mksrv.Common.Texts.{Text, text_eq, text_eq_iff, text_eq_refl, text_eq_sound}
use mksrv.Common.Strings.{contains}

module _ {ℓ} {V : Type ℓ} where
  unfoldable pub lookup : List (Text × V) → Text → Option V
  lookup [] k = none
  lookup ((j, v) ∷ m) k = if text_eq j k then some v else lookup m k

  unfoldable pub insert : List (Text × V) → Text → V → List (Text × V)
  insert [] k v = (k, v) ∷ []
  insert ((j, w) ∷ m) k v = if text_eq j k then (k, v) ∷ m else (j, w) ∷ insert m k v

  unfoldable pub keys : List (Text × V) → List Text
  keys [] = []
  keys ((k, v) ∷ m) = k ∷ keys m

  pub lookup-insert :
      (m : List (Text × V)) (k : Text) (v : V) (j : Text)
      → lookup (insert m k v) j ≡ (if text_eq k j then some v else lookup m j)
  unfolding lookup insert
  lookup-insert [] k v j = refl
  lookup-insert ((i, w) ∷ m) k v j =
      ground (arith, text_eq_iff k j, text_eq_iff i k, text_eq_iff i j, lookup-insert m k v j)

  -- A key is listed exactly when it has a value.
  pub contains-keys : (m : List (Text × V)) (k : Text) → contains (keys m) k ≡ is_some (lookup m k)
  unfolding contains keys lookup
  contains-keys [] k = refl
  contains-keys ((j, v) ∷ m) k = ground (arith, contains-keys m k)

module _ {κ} (P : Text → Type κ) where
  All-member : (texts : List Text) → All P texts → (k : Text) → contains texts k ≡ true → P k
  unfolding contains
  All-member [] h k e = cc
  All-member (t ∷ texts) (pt, h) k e = elim (Bool-cases (text_eq t k)) [
    | inl same ↦ subst P (text_eq_sound t k same) pt
    | inr other ↦ All-member texts h k (rw other at e)
  ]

  All_of_member : (texts : List Text) → ((k : Text) → contains texts k ≡ true → P k) → All P texts
  unfolding contains
  All_of_member [] h = tt
  All_of_member (t ∷ texts) h =
      (h t (rw text_eq_refl refl), All_of_member texts (λ k e. h k (ground arith)))

  -- A property of every listed text is one of every member.
  pub All-contains :
      (texts : List Text) → All P texts ↔ ((k : Text) → contains texts k ≡ true → P k)
  All-contains texts = (All-member texts, All_of_member texts)

pub contains-count_if :
    (texts : List Text) (k : Text) → contains texts k ≡ ltb 0 (count_if (λ t. text_eq t k) texts)
unfolding contains count_if
contains-count_if [] k = refl
contains-count_if (t ∷ texts) k = ground (arith, contains-count_if texts k)

pub contains-slice_stable :
    (less : Text → Text → Bool) (texts : List Text) (k : Text)
    → contains (slice_stable less texts) k ≡ contains texts k
contains-slice_stable less texts k = ground (
  arith,
  contains-count_if texts k,
  contains-count_if (slice_stable less texts) k,
  count_if-slice_stable less (λ t. text_eq t k) texts,
)

pub contains-keep :
    (p : Text → Bool) (texts : List Text) (k : Text)
    → contains (keep p texts) k ≡ (p k && contains texts k)
unfolding contains keep
contains-keep p [] k = ground arith
contains-keep p (t ∷ texts) k = ground (arith, contains-keep p texts k, text_eq_iff t k)
