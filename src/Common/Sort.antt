-- ===== src/Common/Sort.antt =====
-- sort.SliceStable as a stable insertion sort, and what is known of its result when the comparison
-- is a strict weak order.
use mathlib.Core.List.{Perm}
use mathlib.Core.List.Perm
use mathlib.Core.Path.{◌≡◌, refl}
use mathlib.Core.Bool.{Bool, true, false}
use mathlib.Core.List.{List, [], ◌∷◌, ◌++◌}
use Prim.Native.Nat.{ℕ, suc, ◌+◌}
use native.Mathlib.Omega.{arith}
use mksrv.Common.Tests.{if◌then◌else◌, Bool-cases}
use mathlib.Core.Logic.{inl, inr}
use mksrv.Common.Lists.{All}

pub record IsWeakOrder {ℓ} {A : Type ℓ} (less : A → A → Bool) : Type ℓ where
  pub asym : (a b : A) → less a b ≡ true → less b a ≡ false
  pub neg_trans : (a b c : A) → less a b ≡ false → less b c ≡ false → less a c ≡ false

module _ {ℓ} {A : Type ℓ} where
  -- The number of the items that pass a test.
  unfoldable pub count_if : (A → Bool) → List A → ℕ
  count_if p [] = 0
  count_if p (x ∷ xs) = if p x then suc (count_if p xs) else count_if p xs

  unfoldable pub keep : (A → Bool) → List A → List A
  keep p [] = []
  keep p (x ∷ xs) = if p x then x ∷ keep p xs else keep p xs

module _ {ℓ} {A : Type ℓ} (less : A → A → Bool) where
  -- `x` stood before all of the list, and stays before the items that are not less.
  unfoldable pub insert_stable : A → List A → List A
  insert_stable x [] = x ∷ []
  insert_stable x (y ∷ ys) = if less y x then y ∷ insert_stable x ys else x ∷ y ∷ ys

  unfoldable pub slice_stable : List A → List A
  unfolding insert_stable
  slice_stable [] = []
  slice_stable (x ∷ xs) = insert_stable x (slice_stable xs)

  abbrev pub IsSorted : List A → Type 0
  IsSorted [] = Unit
  IsSorted (x ∷ xs) = All (λ y. less y x ≡ false) xs × IsSorted xs

  insert_stable-perm : (x : A) (ys : List A) → Perm (insert_stable x ys) (x ∷ ys)
  unfolding insert_stable
  insert_stable-perm x [] = Perm.refl _
  insert_stable-perm x (y ∷ ys) = elim (Bool-cases (less y x)) [
    | inl h ↦ rw h (Perm.trans (Perm.cons y (insert_stable-perm x ys)) (Perm.swap x y ys))
    | inr h ↦ rw h (Perm.refl _)
  ]

  pub slice_stable-perm : (xs : List A) → Perm (slice_stable xs) xs
  unfolding slice_stable
  slice_stable-perm [] = Perm.refl _
  slice_stable-perm (x ∷ xs) =
      Perm.trans (insert_stable-perm x (slice_stable xs)) (Perm.cons x (slice_stable-perm xs))

  module _ (order : IsWeakOrder less) where
    open order use {asym, neg_trans}

    All-insert_stable :
        (P : A → Type 0) (x : A) (ys : List A) → P x → All P ys → All P (insert_stable x ys)
    unfolding insert_stable
    All-insert_stable P x [] px h = (px, tt)
    All-insert_stable P x (y ∷ ys) px (py, h) = elim (Bool-cases (less y x)) [
      | inl e ↦ rw e (py, All-insert_stable P x ys px h)
      | inr e ↦ rw e (px, (py, h))
    ]

    -- What no item of `ys` precedes, if `y` is not before `x` and nothing in `ys` is before `y`.
    All-not_less :
        (x y : A) (ys : List A)
        → less y x ≡ false
        → All (λ z. less z y ≡ false) ys
        → All (λ z. less z x ≡ false) ys
    All-not_less x y [] h all = tt
    All-not_less x y (z ∷ ys) h (hz, all) = (neg_trans z y x hz h, All-not_less x y ys h all)

    insert_stable-IsSorted : (x : A) (ys : List A) → IsSorted ys → IsSorted (insert_stable x ys)
    unfolding insert_stable
    insert_stable-IsSorted x [] h = (tt, tt)
    insert_stable-IsSorted x (y ∷ ys) (hy, h) = elim (Bool-cases (less y x)) [
      | inl e ↦ rw e (
        All-insert_stable (λ z. less z y ≡ false) x ys (asym y x e) hy,
        insert_stable-IsSorted x ys h,
      )
      | inr e ↦ rw e ((e, All-not_less x y ys e hy), (hy, h))
    ]

    -- The result is sorted: no item stands before a lesser one.
    pub slice_stable-IsSorted : (xs : List A) → IsSorted (slice_stable xs)
    unfolding slice_stable
    slice_stable-IsSorted [] = tt
    slice_stable-IsSorted (x ∷ xs) = insert_stable-IsSorted x _ (slice_stable-IsSorted xs)

  module _ (p : A → Bool) where
    count_if-insert_stable :
        (x : A) (ys : List A)
        → count_if p (insert_stable x ys) ≡ (if p x then suc (count_if p ys) else count_if p ys)
    unfolding count_if insert_stable
    count_if-insert_stable x [] = refl
    count_if-insert_stable x (y ∷ ys) = ground (arith, count_if-insert_stable x ys)

    pub count_if-slice_stable : (xs : List A) → count_if p (slice_stable xs) ≡ count_if p xs
    unfolding count_if slice_stable
    count_if-slice_stable [] = refl
    count_if-slice_stable (x ∷ xs) =
        ground (arith, count_if-insert_stable x (slice_stable xs), count_if-slice_stable xs)

    -- Items that are not less than one another keep their order.
    module _ (alike : (x y : A) → p x ≡ true → p y ≡ true → less y x ≡ false) where
      keep-insert_stable :
          (x : A) (ys : List A)
          → keep p (insert_stable x ys) ≡ (if p x then x ∷ keep p ys else keep p ys)
      unfolding keep insert_stable
      keep-insert_stable x [] = refl
      keep-insert_stable x (y ∷ ys) = ground (arith, keep-insert_stable x ys, alike x y)

      pub keep-slice_stable : (xs : List A) → keep p (slice_stable xs) ≡ keep p xs
      unfolding keep slice_stable
      keep-slice_stable [] = refl
      keep-slice_stable (x ∷ xs) =
          ground (arith, keep-insert_stable x (slice_stable xs), keep-slice_stable xs)

module _ {ℓ} {A : Type ℓ} where
  pub count_if-append :
      (p : A → Bool) (xs ys : List A) → count_if p (xs ++ ys) ≡ count_if p xs + count_if p ys
  unfolding count_if
  count_if-append p [] ys = omega arith
  count_if-append p (x ∷ xs) ys = ground (arith, count_if-append p xs ys)
