-- ===== src/Cli/Tenants.antt =====
-- internal/cli/tenant.go: what the policy of the mesh is made from, `sortedTenantIDs`,
-- `webOriginPorts` and `policyTenants`, and `selectedTenants`.
pub mod Origins
pub mod Isolated
pub mod Examples
use mksrv.Common.{
  ◌+◌, Bool, true, ◌&&◌, Option, none, some, is_some, List, [], ◌∷◌, not, if◌then◌else◌, is_empty,
  drop, last_index, Text, text_lt, lookup, insert, keys, slice_stable, is_host_port,
}
use mksrv.Model.Types.{TenantWebEndpoint, Tenant}
use mksrv.Headscale.Policy.{PolicyTenant}

-- The port of `net.SplitHostPort`, of a text that it splits.
unfoldable pub port_of : Text → Text
port_of target = elim (last_index target b':') [ none ↦ [] | some i ↦ drop (i + 1) target ]

-- The loop of `webOriginPorts` over the set.
unfoldable pub port_set : List TenantWebEndpoint → List (Text × Bool) → List (Text × Bool)
port_set [] set = set
port_set (w ∷ web) set = port_set web (
    if is_host_port w.target && not (is_empty (port_of w.target))
    then insert set (port_of w.target) true
    else set)

unfoldable pub web_origin_ports : List TenantWebEndpoint → List Text
web_origin_ports web = slice_stable text_lt (keys (port_set web []))

unfoldable pub sorted_tenant_ids : List (Text × Tenant) → List Text
sorted_tenant_ids tenants = slice_stable text_lt (keys tenants)

unfoldable pub policy_tenant : Text → Tenant → PolicyTenant
policy_tenant id t = record { id = id; routes = t.mesh_routes; web_ports = web_origin_ports t.web }

module _ (tenants : List (Text × Tenant)) where
  -- The loop of `policyTenants`. Every id that it visits has a tenant.
  unfoldable pub policy_of : List Text → List PolicyTenant
  policy_of [] = []
  policy_of (id ∷ ids) = elim (lookup tenants id) [
    | none ↦ policy_of ids
    | some t ↦ policy_tenant id t ∷ policy_of ids
  ]

  unfoldable pub policy_tenants : List PolicyTenant
  policy_tenants = policy_of (sorted_tenant_ids tenants)

  unfoldable pub all_known : List Text → Bool
  all_known [] = true
  all_known (id ∷ args) = is_some (lookup tenants id) && all_known args

  -- `none` for an unknown tenant
  unfoldable pub selected_tenants : List Text → Option (List Text)
  selected_tenants args =
      if is_empty args
      then some (sorted_tenant_ids tenants)
      else if all_known args
      then some args
      else none
