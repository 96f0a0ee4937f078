-- ===== src/Cli/Order/Hosts.antt =====
-- `baseFirst` is a stable sort of the hosts.
use mksrv.Common.{
  ◌≡◌, refl, inl, inr, Bool, true, false, ◌&&◌, not, List, [], ◌∷◌, ◌++◌, arith, Bool-cases, Text,
  slice_stable, keep,
}
use mksrv.Common.Sort.{insert_stable}
use mksrv.Model.Types.{Host}
use mksrv.Cli.Order.{is_base, base_first}

-- The base host stands before every other one.
pub before : Text × Host → Text × Host → Bool
before a b = is_base a && not (is_base b)

insert_stable_base :
    (h : Text × Host) (hosts : List (Text × Host))
    → is_base h ≡ true
    → insert_stable before h hosts ≡ h ∷ hosts
unfolding insert_stable before
insert_stable_base h [] base = refl
insert_stable_base h (g ∷ hosts) base = ground arith

insert_stable_other :
    (h : Text × Host) (bases others : List (Text × Host))
    → is_base h ≡ false
    → insert_stable before h (keep is_base bases ++ keep (λ g. not (is_base g)) others)
      ≡ keep is_base bases ++ h ∷ keep (λ g. not (is_base g)) others
unfolding insert_stable before keep
insert_stable_other h [] [] other = refl
insert_stable_other h [] (g ∷ others) other = ground (arith, insert_stable_other h [] others other)
insert_stable_other h (g ∷ bases) others other =
    ground (arith, insert_stable_other h bases others other)

-- `baseFirst` is the stable sort by whether a host carries the base stack: it moves those that do to
-- the front, and keeps the order within each group.
pub base_first_eq : (hosts : List (Text × Host)) → base_first hosts ≡ slice_stable before hosts
unfolding base_first slice_stable keep
base_first_eq [] = refl
base_first_eq (h ∷ hosts) = elim (Bool-cases (is_base h)) [
  | inl base ↦
      rw (← base_first_eq hosts, insert_stable_base h (base_first hosts) base)
        (rw (base_first, base) refl)
  | inr other ↦
      rw (← base_first_eq hosts)
        (rw (base_first, insert_stable_other h hosts hosts other, other) refl)
]
