-- ===== src/Workspace/Examples.antt =====
-- Concrete workspaces: the theorems on internal/workspace applied to them.
use mksrv.Common.{
  ◌≡◌, refl, ◌↔◌, Bool, true, false, none, some, List, [], ◌∷◌, arith, is_some, Text, txt, text_eq,
  lookup, pos, negsuc, is_space,
}
use mksrv.Model.Types.{Host, Deployment, Stack, Tenant, UsersFile}
use mksrv.Workspace.Report.{Issue, Report}
use mksrv.Workspace.Report.Laws.{errors}
use mksrv.Workspace.Report.Outcome.{Reports}
use mksrv.Workspace.Cycles.{check_catalog_cycles}
use mksrv.Workspace.Cycles.Graph.{IsAcyclic}
use mksrv.Workspace.Cycles.Theorem.{check_catalog_cycles_iff}
use mksrv.Workspace.Checks.Mail.{MailIsValid, check_tenant_mail}
use mksrv.Workspace.Checks.Mail.Outcome.{check_tenant_mail_lem}
use mksrv.Workspace.Hosts.{normalize_implicit_stacks, check_host_capacity}
use mksrv.Workspace.Hosts.Implicit.{carries, Implied, carries-normalize_implicit_stacks}
use mksrv.Workspace.Hosts.CapacityLaws.{CapacityOutcome, check_host_capacity_lem}
use mksrv.Workspace.Engine.{ValidateOptions}
use mksrv.Workspace.Fleet.{check_hosts, start_fleet, check_fleet}
use mksrv.Workspace.Fleet.Carriers.{carriers}
use mksrv.Workspace.Fleet.Together.{IsWhole, check_fleet_lem}
use mksrv.Workspace.Semantic.{Data, semantic_checks}
use mksrv.Workspace.Semantic.Outcome.{WorkspaceIsValid, semantic_checks_lem}
use mksrv.Workspace.Semver.{Version, parse_semver, compare_semver}
use mksrv.Workspace.Semver.Order.{Older, compare_semver_iff}
use mksrv.Workspace.Semver.RoundTrip.{bare, prerelease, render, parse_semver-render}

-- The report of a validation that has found nothing yet.
abbrev clean : Report
clean = record {
  valid = false;
  workspace = txt "/ws";
  files_checked = 1;
  hosts = 0;
  tenants = 0;
  users = 0;
  catalog_stacks = 0;
  issues = [];
}

abbrev plain_stack : Text → List Text → Stack
plain_stack name depends_on = record {
  name = name;
  targets = txt "cloud" ∷ txt "local" ∷ [];
  kind = txt "single";
  per_tenant = true;
  depends_on = depends_on;
  apps = [];
  min_ram_mb = 256;
  storage = [];
  templates = [];
  health = [];
}

abbrev catalog : List (Text × Stack)
catalog =
    (txt "base", plain_stack (txt "base") [])
    ∷ (txt "identity", plain_stack (txt "identity") (txt "base" ∷ []))
    ∷ (txt "mail", plain_stack (txt "mail") (txt "identity" ∷ txt "base" ∷ []))
    ∷ []

abbrev edge : Host
edge = record {
  provider = txt "aws";
  instance_type = txt "t4g.small";
  root_gb = 20;
  data_gb = 0;
  address = [];
  ssh_user = txt "admin";
  ssh_port = 22;
  advertise_exitnode = false;
  stacks = txt "base" ∷ txt "identity" ∷ txt "monitor" ∷ [];
}

abbrev hosts : List (Text × Host)
hosts = (txt "edge", edge) ∷ []

abbrev deployment : Deployment
deployment = record {
  engine = txt "0.9.0";
  timezone = [];
  mgmt_cidr = txt "auto";
  aws = record { region = txt "eu-west-1"; profile = [] };
  backend = record {
    type = txt "s3";
    bucket = txt "b";
    key = [];
    dynamodb_table = [];
    region = [];
  };
  root_domain = txt "example.org";
  identity = record {
    keycloak_domain = txt "id.example.org";
    headscale_domain = txt "mesh.example.org";
    acme_email = [];
  };
  hosts = hosts;
}

abbrev tenant : Tenant
tenant = record {
  id = txt "acme";
  display_name = txt "Acme";
  base_domain = txt "acme.org";
  dns_override = some (record { provider = txt "route53"; zone_id = txt "Z1"; server = [] });
  realm = [];
  mail = some (record {
    domains = txt "acme.org" ∷ [];
    hosted = true;
    mailboxes = record { address = txt "ann@acme.org"; name = txt "Ann" } ∷ [];
  });
  database = some (record {
    postgrest = some true;
    schema = txt "api";
    extensions = txt "pgcrypto" ∷ [];
    connection_limit = 10;
    public_schema_create = false;
  });
  stacks = txt "mail" ∷ [];
  forwards =
      record {
        id = txt "shell";
        label = txt "Shell";
        type = txt "ssh";
        target = txt "10.0.0.1:22";
        open_action = [];
        path = [];
        ssh_alias = [];
      }
      ∷ [];
  dns = record { name = txt "www"; type = txt "A"; value = txt "10.0.0.1"; ttl = 60 } ∷ [];
  mesh_routes = txt "10.1.0.0/16" ∷ [];
  web =
      record {
        hostname = txt "app.acme.org";
        target = txt "10.0.0.1:80";
        provider = [];
        cdn = false;
        sso = false;
        sso_groups = none;
        sso_bypass_paths = none;
      }
      ∷ [];
}

abbrev users_file : UsersFile
users_file = record {
  tenant = txt "acme";
  users =
      record { email = txt "Ann@acme.org"; name = txt "Ann"; groups = []; enabled = none }
      ∷ record { email = txt "ann@acme.org "; name = txt "Ann"; groups = []; enabled = none }
      ∷ [];
}

abbrev loaded : Data
loaded = record {
  deployment = deployment;
  tenants = (txt "acme", tenant) ∷ [];
  tenant_files = (txt "acme", txt "tenants/acme.yaml") ∷ [];
  users = (txt "acme", users_file) ∷ [];
  users_files = (txt "acme", txt "tenants/acme.users.yaml") ∷ [];
  lock = none;
  catalog = catalog;
}

abbrev options : ValidateOptions
options = record { running_version = txt "0.8.0"; allow_downgrade = false }

abbrev is_location : Text → Bool
is_location name = text_eq name (txt "Etc/UTC")

semantic_checks_example :
    Reports clean
      (semantic_checks is_location loaded options clean)
      (WorkspaceIsValid is_location loaded options)
semantic_checks_example = semantic_checks_lem is_location loaded options clean

check_catalog_cycles_example :
    (errors (check_catalog_cycles catalog clean) ≡ errors clean) ↔ IsAcyclic catalog
check_catalog_cycles_example = check_catalog_cycles_iff catalog clean

check_fleet_example :
    Reports
      (check_hosts catalog hosts (txt "edge" ∷ []) (start_fleet clean)).report
      (check_fleet catalog (check_hosts catalog hosts (txt "edge" ∷ []) (start_fleet clean)))
      (IsWhole catalog (carriers catalog hosts (txt "edge" ∷ [])))
check_fleet_example = check_fleet_lem catalog hosts (txt "edge" ∷ []) clean

abbrev assigned : List (Text × List Text)
assigned = (txt "base", txt "edge" ∷ []) ∷ (txt "mail", txt "edge" ∷ []) ∷ []

abbrev finding : Issue
finding = record {
  severity = txt "error";
  file = txt "deployment.yaml";
  path = txt "$.hosts";
  code = txt "stack.base.count";
}

abbrev file : Text
file = txt "tenants/acme.yaml"

check_tenant_mail_example :
    Reports clean
      (check_tenant_mail file tenant true clean)
      (MailIsValid tenant.dns_override tenant.mail true)
check_tenant_mail_example = check_tenant_mail_lem file tenant true clean

carries-normalize_implicit_stacks_example :
    (is_some (lookup (normalize_implicit_stacks hosts) (txt "edge"))
      ≡ is_some (lookup hosts (txt "edge")))
    × ((carries (normalize_implicit_stacks hosts) (txt "edge") (txt "agent") ≡ true)
        ↔ Implied hosts (txt "edge") (txt "agent"))
carries-normalize_implicit_stacks_example =
    carries-normalize_implicit_stacks hosts (txt "edge") (txt "agent")

check_host_capacity_example :
    CapacityOutcome catalog edge clean (check_host_capacity catalog (txt "edge") edge clean)
check_host_capacity_example = check_host_capacity_lem catalog (txt "edge") edge clean

abbrev older : Version
older = record { major = 0; minor = 8; patch = 12 }

abbrev newer : Version
newer = record { major = 0; minor = 9; patch = 0 }

parse_semver-render_example : parse_semver (render true older (prerelease (txt "rc"))) ≡ some older
unfolding txt is_space
parse_semver-render_example =
    parse_semver-render true older (prerelease (txt "rc")) (omega arith) (omega arith) (omega arith)
      (refl, (refl, (refl, tt)))

-- The texts v0.8.12 and v0.9.0, as they are read back.
older_text : parse_semver (render true older bare) ≡ some older
older_text = parse_semver-render true older bare (omega arith) (omega arith) (omega arith) tt

newer_text : parse_semver (render true newer bare) ≡ some newer
newer_text = parse_semver-render true newer bare (omega arith) (omega arith) (omega arith) tt

compare_semver_example :
    ((compare_semver (render true older bare) (render true newer bare) ≡ some (negsuc 0))
      ↔ Older older newer)
    × ((compare_semver (render true older bare) (render true newer bare) ≡ some (pos 0))
        ↔ (older ≡ newer))
    × ((compare_semver (render true older bare) (render true newer bare) ≡ some (pos 1))
        ↔ Older newer older)
compare_semver_example =
    compare_semver_iff (render true older bare) (render true newer bare) older_text newer_text
