-- ===== src/Cli/Tenants/Examples.antt =====
-- Two tenants and their policy.
use mathlib.Core.List.{Memᴰ}
use mksrv.Common.{
  ◌≡◌, refl, ◌↔◌, false, none, some, List, [], ◌∷◌, Text, txt, slice_stable, keys, is_host_port,
  last_index, has_prefix, insert, text_eq, text_lt,
}
use mksrv.Model.Types.{TenantWebEndpoint, Tenant}
use mksrv.Headscale.Policy.{nodes, fleet_user, policy_rules}
use mksrv.Cli.Tenants.{
  port_set, port_of, sorted_tenant_ids, web_origin_ports, policy_tenants, selected_tenants,
}
use mksrv.Cli.Tenants.Isolated.{IsAllowed, policy_tenants_iff}

abbrev endpoint : Text → TenantWebEndpoint
endpoint target = record {
  hostname = txt "www.acme.org";
  target = target;
  provider = [];
  cdn = false;
  sso = false;
  sso_groups = none;
  sso_bypass_paths = none;
}

abbrev tenant : Text → List Text → List TenantWebEndpoint → Tenant
tenant id mesh_routes web = record {
  id = id;
  display_name = id;
  base_domain = txt "acme.org";
  dns_override = none;
  realm = [];
  mail = none;
  database = none;
  stacks = [];
  forwards = [];
  dns = [];
  mesh_routes = mesh_routes;
  web = web;
}

abbrev tenants : List (Text × Tenant)
tenants =
    (txt "beta", tenant (txt "beta") [] [])
    ∷ (
      txt "acme",
      tenant (txt "acme") (txt "10.1.0.0/16" ∷ [])
          (endpoint (txt "web:8080") ∷ endpoint (txt "api:443") ∷ endpoint (txt "web:8080") ∷ []),
    )
    ∷ []

web_origin_ports_test :
    web_origin_ports
      (endpoint (txt "web:8080") ∷ endpoint (txt "api:443") ∷ endpoint (txt "web:8080") ∷ [])
    ≡ txt "443" ∷ txt "8080" ∷ []
unfolding web_origin_ports slice_stable keys port_set is_host_port last_index txt has_prefix port_of
    insert text_eq text_lt
web_origin_ports_test = refl

selected_tenants_test : selected_tenants tenants [] ≡ some (txt "acme" ∷ txt "beta" ∷ [])
unfolding selected_tenants sorted_tenant_ids slice_stable keys text_lt txt
selected_tenants_test = refl

policy_tenants_iff_example :
    Memᴰ
      (record { src = fleet_user; dst = nodes (txt "acme") (txt "443,8080") })
      (policy_rules (policy_tenants tenants))
    ↔ IsAllowed tenants (record { src = fleet_user; dst = nodes (txt "acme") (txt "443,8080") })
policy_tenants_iff_example =
    policy_tenants_iff tenants
      (record { src = fleet_user; dst = nodes (txt "acme") (txt "443,8080") })
