-- ===== src/Model/Capacity/Examples.antt =====
-- The swap file of a concrete host.
use mksrv.Common.{◌+◌, refl, false, List, [], ◌∷◌, Text, txt, text_eq, has_prefix, cut, lookup}
use mksrv.Model.Types.{Stack}
use mksrv.Model.Capacity.{
  burstable_ram_mb, family_ram_mb, ram_of_family, instance_ram_mb, swap_for_stacks,
}
use mksrv.Model.Capacity.Bounds.{IsAdequate, total_min_ram, swap_for_stacks-IsAdequate}

abbrev catalog : List (Text × Stack)
catalog =
    (
      txt "identity",
      record {
        name = txt "identity";
        targets = txt "cloud" ∷ [];
        kind = txt "single";
        per_tenant = false;
        depends_on = [];
        apps = [];
        min_ram_mb = 1700;
        storage = [];
        templates = [];
        health = [];
      },
    )
    ∷ []

abbrev stacks : List Text
stacks = txt "identity" ∷ []

swap_for_stacks-IsAdequate_example :
    IsAdequate
      (512 + total_min_ram catalog stacks)
      2048
      (swap_for_stacks stacks catalog (txt "t4g.small"))
unfolding instance_ram_mb ram_of_family burstable_ram_mb family_ram_mb lookup cut text_eq has_prefix
    txt
swap_for_stacks-IsAdequate_example =
    swap_for_stacks-IsAdequate stacks catalog (txt "t4g.small") 2048 refl
