-- ===== src/Engine/Catalog/Examples.antt =====
-- A catalog of one stack.
use mksrv.Common.{
  insert_stable, ◌≡◌, refl, true, some, List, [], ◌∷◌, Text, txt, text_eq, trim_left_func,
  trim_right_func, trim_right, last_index, contains, lookup, insert, slice_stable,
}
use mksrv.Model.Types.{Stack}
use mksrv.Workspace.Seen.{is_dup, note}
use mksrv.Workspace.Tenants.{base_name, after_slash}
use mksrv.Engine.Descriptor.{
  check_rest, collect_apps, check_health, check_templates, validate_descriptor,
}
use mksrv.Engine.Catalog.{
  DescriptorFile, decoded, directory_name, folder_of, add_stack, load_descriptor, load_descriptors,
  catalog_of,
}
use mksrv.Engine.Catalog.Sound.{CatalogIsValid, IsListed, catalog_of_lem}

abbrev cache_stack : Stack
cache_stack = record {
  name = txt "cache";
  targets = txt "cloud" ∷ [];
  kind = txt "single";
  per_tenant = true;
  depends_on = [];
  apps = record { name = txt "redis"; image = txt "redis:7" } ∷ [];
  min_ram_mb = 128;
  storage = [];
  templates = record { src = txt "acl"; dst = txt "/acl"; scope = txt "per_tenant" } ∷ [];
  health = record { app = txt "redis"; type = txt "tcp"; path = []; port = 6379 } ∷ [];
}

abbrev read : Text → DescriptorFile
read path = decoded cache_stack

abbrev one_path : List Text
one_path = txt "stacks/cache/stack.yaml" ∷ []

loaded : catalog_of read one_path ≡ some ((txt "cache", cache_stack) ∷ [])
unfolding catalog_of load_descriptors load_descriptor add_stack directory_name folder_of base_name
    after_slash validate_descriptor check_rest collect_apps check_health check_templates is_dup note
    slice_stable insert_stable lookup insert last_index trim_right trim_right_func trim_left_func
    text_eq txt
loaded = refl

catalog_of_example :
    CatalogIsValid ((txt "cache", cache_stack) ∷ [])
    × ((path : Text)
        → contains one_path path ≡ true
        → IsListed read ((txt "cache", cache_stack) ∷ []) path)
catalog_of_example = catalog_of_lem read one_path ((txt "cache", cache_stack) ∷ []) loaded
