-- ===== src/Headscale/Policy.antt =====
-- internal/headscale/headscale.go: `Policy`, whose rules are kept as values before they are written.
use mksrv.Common.{List, [], ◌∷◌, ◌++◌, if◌then◌else◌, is_empty, Text, txt, join}

pub record PolicyTenant : Type 0 where
  pub id : Text
  pub routes : List Text
  pub web_ports : List Text

-- What a rule lets its source reach: ports of the nodes of a user, or a network.
pub data Destination : Type 0 where
  nodes : Text → Text → Destination
  network : Text → Destination

-- An accepting rule, from the nodes of a user.
pub record Rule : Type 0 where
  pub src : Text
  pub dst : Destination

abbrev pub fleet_user : Text
fleet_user = txt "mksrv-fleet"

abbrev pub fleet_ports : Text
fleet_ports = txt "22,80,443,3000,3010-3019,5050,5432,6379,8090,8200,9090"

abbrev pub any_port : Text
any_port = txt "*"

-- The loop over a tenant's routes.
unfoldable pub route_rules : Text → List Text → List Rule
route_rules id [] = []
route_rules id (cidr ∷ routes) = record { src = id; dst = network cidr } ∷ route_rules id routes

unfoldable pub web_rules : PolicyTenant → List Rule
web_rules t =
    if is_empty t.web_ports
    then []
    else record { src = fleet_user; dst = nodes t.id (join t.web_ports (txt ",")) } ∷ []

unfoldable pub tenant_rules : PolicyTenant → List Rule
tenant_rules t =
    record { src = t.id; dst = nodes t.id any_port }
      ∷ record { src = t.id; dst = nodes fleet_user fleet_ports }
      ∷ route_rules t.id t.routes
    ++ web_rules t

-- The loop over the tenants.
unfoldable pub tenants_rules : List PolicyTenant → List Rule
tenants_rules [] = []
tenants_rules (t ∷ tenants) = tenant_rules t ++ tenants_rules tenants

unfoldable pub policy_rules : List PolicyTenant → List Rule
policy_rules tenants =
    record { src = fleet_user; dst = nodes fleet_user any_port } ∷ tenants_rules tenants

unfoldable pub render_destination : Destination → Text
render_destination (nodes user ports) = user ++ txt "@:" ++ ports
render_destination (network cidr) = cidr ++ txt ":*"

unfoldable pub render_rule : Rule → Text
render_rule r =
    txt "{ \"action\": \"accept\", \"src\": [\""
    ++ r.src
    ++ txt "@\"], \"dst\": [\""
    ++ render_destination r.dst
    ++ txt "\"] }"

unfoldable pub render_rules : List Rule → List Text
render_rules [] = []
render_rules (r ∷ rules) = render_rule r ∷ render_rules rules

unfoldable pub policy : List PolicyTenant → Text
policy tenants =
    txt "{\n  \"acls\": [\n    "
    ++ join (render_rules (policy_rules tenants)) (txt ",\n    ")
    ++ txt "\n  ]\n}\n"
