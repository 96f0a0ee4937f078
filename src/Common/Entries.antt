-- ===== src/Common/Entries.antt =====
-- What holds of every entry of a map.
use mathlib.Core.Path.{◌≡◌, subst}
use mathlib.Core.Logic.{inl, inr}
use mathlib.Core.Bool.{true}
use mathlib.Core.Option.{some, some-injective}
use mathlib.Core.List.{List, [], ◌∷◌}
use mksrv.Common.Tests.{Bool-cases}
use mksrv.Common.Lists.{All}
use mksrv.Common.Texts.{Text, text_eq, text_eq_sound}
use mksrv.Common.Strings.{contains}
use mksrv.Common.Map.{lookup, insert, keys}

module _ {V : Type 0} (P : Text → V → Type 0) where
  abbrev pub Entries : List (Text × V) → Type 0
  Entries m = All (λ entry. P entry.0 entry.1) m

  pub Entries-insert :
      (m : List (Text × V)) (k : Text) (v : V) → Entries m → P k v → Entries (insert m k v)
  unfolding insert
  Entries-insert [] k v h p = (p, tt)
  Entries-insert ((j, w) ∷ m) k v h p = elim (Bool-cases (text_eq j k)) [
    | inl same ↦ rw same (p, h.1)
    | inr other ↦ rw other (h.0, Entries-insert m k v h.1 p)
  ]

  pub Entries-lookup :
      (m : List (Text × V)) (k : Text) (v : V) → Entries m → lookup m k ≡ some v → P k v
  unfolding lookup
  Entries-lookup [] k v h e = cc
  Entries-lookup ((j, w) ∷ m) k v h e = elim (Bool-cases (text_eq j k)) [
    | inl same ↦
        subst (λ u. P k u) (some-injective w v (rw same at e))
          (subst (λ i. P i w) (text_eq_sound j k same) h.0)
    | inr other ↦ Entries-lookup m k v h.1 (rw other at e)
  ]

-- What holds of the keys alone.
module _ {V : Type 0} (P : Text → Type 0) where
  pub Entries-keys :
      (m : List (Text × V)) (k : Text) → Entries (λ j v. P j) m → contains (keys m) k ≡ true → P k
  unfolding keys contains
  Entries-keys [] k h e = cc
  Entries-keys ((j, w) ∷ m) k h e = elim (Bool-cases (text_eq j k)) [
    | inl same ↦ subst P (text_eq_sound j k same) h.0
    | inr other ↦ Entries-keys m k h.1 (rw other at e)
  ]
