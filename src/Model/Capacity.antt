-- ===== src/Model/Capacity.antt =====
-- internal/model/capacity.go: the memory of an EC2 instance type, and the swap file of a host.
pub mod Bounds
pub mod Examples
use mksrv.Common.{
  ℕ, ◌+◌, ◌-◌, ◌*◌, ◌/◌, Text, txt, List, [], ◌∷◌, ◌++◌, Option, none, some, leb, ltb, text_eq,
  lookup, cut, has_prefix, take, contains, if◌then◌else◌,
}
use mksrv.Model.Types.{Stack}

pub burstable_ram_mb : List (Text × ℕ)
burstable_ram_mb =
    (txt "nano", 512) ∷ (txt "micro", 1024) ∷ (txt "small", 2048) ∷ (txt "medium", 4096) ∷ []

pub family_ram_mb : List (Text × ℕ)
family_ram_mb =
    (txt "m.medium", 4096)
    ∷ (txt "m.large", 8192)
    ∷ (txt "m.xlarge", 16384)
    ∷ (txt "m.2xlarge", 32768)
    ∷ (txt "m.4xlarge", 65536)
    ∷ (txt "m.8xlarge", 131072)
    ∷ (txt "c.large", 4096)
    ∷ (txt "c.xlarge", 8192)
    ∷ (txt "c.2xlarge", 16384)
    ∷ (txt "c.4xlarge", 32768)
    ∷ (txt "c.8xlarge", 65536)
    ∷ (txt "r.large", 16384)
    ∷ (txt "r.xlarge", 32768)
    ∷ (txt "r.2xlarge", 65536)
    ∷ (txt "r.4xlarge", 131072)
    ∷ []

-- What `InstanceRAMMB` does with the two parts of the type's name.
pub ram_of_family : Text → Text → Option ℕ
ram_of_family family size =
    if text_eq family []
    then none
    else if has_prefix family (txt "t")
    then elim (lookup burstable_ram_mb size) [
      | some mb ↦ some mb
      | none ↦ lookup family_ram_mb (txt "m." ++ size)
    ]
    else lookup family_ram_mb (take 1 family ++ (txt "." ++ size))

-- `InstanceRAMMB`: `none` is the result `(0, false)`.
pub instance_ram_mb : Text → Option ℕ
instance_ram_mb instance_type = elim (cut instance_type b'.') [
  | none ↦ none
  | some (family, size) ↦ ram_of_family family size
]

abbrev pub swap_os_headroom_mb : ℕ
swap_os_headroom_mb = 512

-- `catalog[s].Resources.MinRAMMB`, 0 for a stack that the catalog lacks.
pub min_ram_of : List (Text × Stack) → Text → ℕ
min_ram_of catalog s = elim (lookup catalog s) [ none ↦ 0 | some stack ↦ stack.min_ram_mb ]

-- The loop that adds up the stacks' hints.
pub add_min_ram : List (Text × Stack) → List Text → ℕ → ℕ
add_min_ram catalog [] want = want
add_min_ram catalog (s ∷ stacks) want = add_min_ram catalog stacks (want + min_ram_of catalog s)

-- The swap file for a host that wants `want` MiB and has `have`.
pub swap_for_deficit : ℕ → ℕ → ℕ
swap_for_deficit want have =
    if leb want have
    then 0
    else let swap = (want - have + 511) / 512 * 512 in
      let max_swap = if ltb 4096 have then 4096 else have in
      if ltb max_swap swap then max_swap else swap

-- `SwapForStacks`
pub swap_for_stacks : List Text → List (Text × Stack) → Text → ℕ
swap_for_stacks stacks catalog instance_type = elim (instance_ram_mb instance_type) [
  | none ↦ if contains stacks (txt "identity") then 2048 else 0
  | some have ↦ swap_for_deficit (add_min_ram catalog stacks swap_os_headroom_mb) have
]
