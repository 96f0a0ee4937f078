-- ===== src/Workspace/Seen.antt =====
-- The maps `seen` with which the checks find duplicates, keyed by the text that must be unique.
use mksrv.Common.{
  ◌≡◌, refl, ◌↔◌, Bool, true, false, none, some, List, [], ◌∷◌, arith, if◌then◌else◌, is_some, All,
  Text, text_eq, text_eq_iff, contains, lookup, insert, keys, lookup-insert,
}

module _ {ℓ} {V : Type ℓ} where
  -- `if _, dup := seen[key]; dup { ... } else { seen[key] = value }`
  unfoldable pub is_dup : List (Text × V) → Text → Bool
  is_dup seen key = is_some (lookup seen key)

  unfoldable pub note : List (Text × V) → Text → V → List (Text × V)
  note seen key value = elim (lookup seen key) [ none ↦ insert seen key value | some first ↦ seen ]

-- No text of the list occurs twice.
abbrev pub Distinct : List Text → Type 0
Distinct [] = Unit
Distinct (k ∷ ks) = (contains ks k ≡ false) × Distinct ks

module _ {ℓ} {V : Type ℓ} where
  -- The keys are distinct, and none of them was seen.
  abbrev pub IsFresh : List (Text × V) → List Text → Type 0
  IsFresh seen keys = All (λ k. is_dup seen k ≡ false) keys × Distinct keys

  note_unseen :
      (seen : List (Text × V)) (k : Text) (v : V) (j : Text)
      → is_dup seen k ≡ false
      → is_dup (note seen k v) j ≡ (if text_eq k j then true else is_dup seen j)
  unfolding is_dup note
  note_unseen seen k v j h = ground (arith, lookup-insert seen k v j)

  pub IsFresh-nil : (seen : List (Text × V)) → Unit {0} ↔ IsFresh seen []
  IsFresh-nil seen = (λ h. (tt, tt), λ h. tt)

  fresh_forward :
      (seen : List (Text × V)) (k : Text) (v : V) (ks : List Text)
      → is_dup seen k ≡ false
      → All (λ j. is_dup (note seen k v) j ≡ false) ks
      → All (λ j. is_dup seen j ≡ false) ks × (contains ks k ≡ false)
  unfolding contains
  fresh_forward seen k v [] h all = (tt, refl)
  fresh_forward seen k v (j ∷ ks) h (hj, all) =
      let (rest, absent) = fresh_forward seen k v ks h all in
      let step = note_unseen seen k v j h in
      ((ground arith, rest), ground (arith, text_eq_iff k j, text_eq_iff j k))

  fresh_backward :
      (seen : List (Text × V)) (k : Text) (v : V) (ks : List Text)
      → is_dup seen k ≡ false
      → All (λ j. is_dup seen j ≡ false) ks
      → contains ks k ≡ false
      → All (λ j. is_dup (note seen k v) j ≡ false) ks
  unfolding contains
  fresh_backward seen k v [] h all absent = tt
  fresh_backward seen k v (j ∷ ks) h (hj, all) absent =
      let step = note_unseen seen k v j h in
      (
        ground (arith, text_eq_iff k j, text_eq_iff j k),
        fresh_backward seen k v ks h all (ground arith),
      )

  -- One round: the key was not seen, and the rest is fresh once it is noted.
  pub IsFresh-cons :
      (seen : List (Text × V)) (k : Text) (v : V) (ks : List Text)
      → ((is_dup seen k ≡ false) × IsFresh (note seen k v) ks) ↔ IsFresh seen (k ∷ ks)
  IsFresh-cons seen k v ks = (
    λ h. let (rest, absent) = fresh_forward seen k v ks h.0 h.1.0 in ((h.0, rest), (absent, h.1.1)),
    λ h. (h.0.0, (fresh_backward seen k v ks h.0.0 h.0.1 h.1.0, h.1.1)),
  )

module _ {ℓ} (V : Type ℓ) where
  unseen : (ks : List Text) → All (λ k. is_dup {V = V} [] k ≡ false) ks
  unfolding is_dup lookup
  unseen [] = tt
  unseen (k ∷ ks) = (refl, unseen ks)

  -- With an empty map, freshness is distinctness.
  pub IsFresh-start : (ks : List Text) → IsFresh {V = V} [] ks ↔ Distinct ks
  IsFresh-start ks = (λ h. h.1, λ h. (unseen ks, h))
