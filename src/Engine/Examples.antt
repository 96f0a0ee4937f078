-- ===== src/Engine/Examples.antt =====
-- A concrete descriptor.
use mksrv.Common.{◌≡◌, ◌↔◌, true, none, [], ◌∷◌, txt}
use mksrv.Model.Types.{Stack}
use mksrv.Engine.Descriptor.{DescriptorIsValid, validate_descriptor, validate_descriptor_iff}

abbrev cache_stack : Stack
cache_stack = record {
  name = txt "cache";
  targets = txt "cloud" ∷ [];
  kind = txt "single";
  per_tenant = true;
  depends_on = [];
  apps = record { name = txt "redis"; image = txt "redis:7" } ∷ [];
  min_ram_mb = 128;
  storage = [];
  templates = record { src = txt "acl"; dst = txt "/acl"; scope = txt "per_tenant" } ∷ [];
  health = record { app = txt "redis"; type = txt "tcp"; path = []; port = 6379 } ∷ [];
}

validate_descriptor_example :
    (validate_descriptor cache_stack ≡ none) ↔ DescriptorIsValid cache_stack
validate_descriptor_example = validate_descriptor_iff cache_stack
