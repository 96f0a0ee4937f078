-- ===== src/Model/Capacity/Bounds.antt =====
-- The swap file of a host, against the memory that it lacks.
use mksrv.Common.{
  ℕ, ◌+◌, ◌%◌, ◌≤◌, ◌<◌, ◌≡◌, ◌⊎◌, inl, inr, some, List, [], ◌∷◌, ◌++◌, arith, Option-cases, take,
  All, Text, txt, cut, lookup,
}
use mksrv.Model.Types.{Stack}
use mksrv.Model.Capacity.{
  ram_of_family, burstable_ram_mb, family_ram_mb, min_ram_of, instance_ram_mb, add_min_ram,
  swap_for_deficit, swap_for_stacks,
}

-- What a swap file has to be for a host with `have` MiB that wants `want`.
pub record IsAdequate (want have swap : ℕ) : Type 0 where
  pub capped : swap ≤ 4096
  pub within_ram : swap ≤ have
  pub none_needed : want ≤ have → swap ≡ 0
  pub positive : have < want → 0 < have → 0 < swap
  pub tight : have < want → have + swap < want + 512
  pub enough : (swap ≡ 4096) ⊎ (swap ≡ have) ⊎ (want ≤ have + swap)

swap_for_deficit-IsAdequate : (want have : ℕ) → IsAdequate want have (swap_for_deficit want have)
unfolding swap_for_deficit
swap_for_deficit-IsAdequate want have = ground arith

-- The sum of the stacks' hints.
pub total_min_ram : List (Text × Stack) → List Text → ℕ
total_min_ram catalog [] = 0
total_min_ram catalog (s ∷ stacks) = min_ram_of catalog s + total_min_ram catalog stacks

pub add_min_ram-eq-total :
    (catalog : List (Text × Stack)) (stacks : List Text) (want : ℕ)
    → add_min_ram catalog stacks want ≡ want + total_min_ram catalog stacks
unfolding add_min_ram total_min_ram
add_min_ram-eq-total catalog [] want = omega arith
add_min_ram-eq-total catalog (s ∷ stacks) want =
    omega (arith, add_min_ram-eq-total catalog stacks (want + min_ram_of catalog s))

-- For a known instance type, the swap file is at most 4096 MiB and at most the memory; it is 0 when
-- the stacks and the headroom fit in memory, and positive when they do not and there is memory; with
-- it a host that lacks memory has less than a block of 512 MiB more than is wanted; and it makes up
-- the deficit unless one of the two caps is reached.
pub swap_for_stacks-IsAdequate :
    (stacks : List Text) (catalog : List (Text × Stack)) (instance_type : Text) (have : ℕ)
    → instance_ram_mb instance_type ≡ some have
    → IsAdequate
        (512 + total_min_ram catalog stacks)
        have
        (swap_for_stacks stacks catalog instance_type)
unfolding swap_for_stacks
swap_for_stacks-IsAdequate stacks catalog instance_type have known =
    rw (known, swap_for_stacks, add_min_ram-eq-total catalog stacks 512)
      (swap_for_deficit-IsAdequate (512 + total_min_ram catalog stacks) have)

-- Every size of a table is a number of 512 MiB blocks.
abbrev InBlocks : List (Text × ℕ) → Type 0
InBlocks = All (λ (entry : Text × ℕ). entry.1 % 512 ≡ 0)

lookup-InBlocks :
    (table : List (Text × ℕ)) (k : Text) (mb : ℕ)
    → InBlocks table
    → lookup table k ≡ some mb
    → mb % 512 ≡ 0
unfolding lookup
lookup-InBlocks [] k mb h e = cc
lookup-InBlocks ((j, v) ∷ table) k mb (hv, h) e = ground (arith, lookup-InBlocks table k mb h)

burstable-InBlocks : InBlocks burstable_ram_mb
unfolding burstable_ram_mb
burstable-InBlocks = omega arith

family-InBlocks : InBlocks family_ram_mb
unfolding family_ram_mb
family-InBlocks = omega arith

ram_of_family-InBlocks :
    (family size : Text) (mb : ℕ) → ram_of_family family size ≡ some mb → mb % 512 ≡ 0
unfolding ram_of_family
ram_of_family-InBlocks family size mb e = ground (
  arith,
  lookup-InBlocks burstable_ram_mb size mb burstable-InBlocks,
  lookup-InBlocks family_ram_mb (txt "m." ++ size) mb family-InBlocks,
  lookup-InBlocks family_ram_mb (take 1 family ++ (txt "." ++ size)) mb family-InBlocks,
)

instance_ram_mb-InBlocks :
    (instance_type : Text) (mb : ℕ) → instance_ram_mb instance_type ≡ some mb → mb % 512 ≡ 0
unfolding instance_ram_mb
instance_ram_mb-InBlocks instance_type mb e = elim (Option-cases (cut instance_type b'.')) [
  | inl absent ↦ cc
  | inr ((family, size), found) ↦
      ram_of_family-InBlocks family size mb (rw (found, instance_ram_mb) at e)
]

swap_for_deficit-InBlocks : (want have : ℕ) → have % 512 ≡ 0 → swap_for_deficit want have % 512 ≡ 0
unfolding swap_for_deficit
swap_for_deficit-InBlocks want have h = ground arith

-- The swap file is a multiple of 512 MiB, for every instance type, known or not, and every cap.
pub swap_for_stacks-InBlocks :
    (stacks : List Text) (catalog : List (Text × Stack)) (instance_type : Text)
    → swap_for_stacks stacks catalog instance_type % 512 ≡ 0
unfolding swap_for_stacks
swap_for_stacks-InBlocks stacks catalog instance_type =
    elim (Option-cases (instance_ram_mb instance_type)) [
      | inl unknown ↦ rw (unknown, swap_for_stacks) (ground arith)
      | inr (have, known) ↦
          rw (known, swap_for_stacks)
            (swap_for_deficit-InBlocks _ have (instance_ram_mb-InBlocks instance_type have known))
    ]
