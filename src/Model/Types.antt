-- ===== src/Model/Types.antt =====
-- internal/model/model.go: the decoded workspace documents and the stack catalog entries.
-- A Go string is a `Text`, a pointer is an `Option`, a slice is a `List`; the slices whose nil value
-- is told from the empty one are options of lists. Integers are those that the schemas admit, none
-- of them negative.
use mksrv.Common.{ℕ, Text, List, [], Option, none, some, Bool}

-- The items of a slice, none of a nil one.
abbrev pub items {ℓ} : {A : Type ℓ} → Option (List A) → List A
items none = []
items (some xs) = xs

pub record Host : Type 0 where
  pub provider : Text
  pub instance_type : Text
  pub root_gb : ℕ
  pub data_gb : ℕ
  pub address : Text
  pub ssh_user : Text
  pub ssh_port : ℕ
  pub advertise_exitnode : Bool
  pub stacks : List Text

pub record AwsConfig : Type 0 where
  pub region : Text
  pub profile : Text

pub record BackendConfig : Type 0 where
  pub type : Text
  pub bucket : Text
  pub key : Text
  pub dynamodb_table : Text
  pub region : Text

pub record IdentityConfig : Type 0 where
  pub keycloak_domain : Text
  pub headscale_domain : Text
  pub acme_email : Text

-- The fields of `Deployment` that the modelled code reads.
pub record Deployment : Type 0 where
  pub engine : Text
  pub timezone : Text
  pub mgmt_cidr : Text
  pub aws : AwsConfig
  pub backend : BackendConfig
  pub root_domain : Text
  pub identity : IdentityConfig
  pub hosts : List (Text × Host)

pub record StackVolume : Type 0 where
  pub name : Text
  pub gb : ℕ

pub record StackApp : Type 0 where
  pub name : Text
  pub image : Text

pub record StackTemplate : Type 0 where
  pub src : Text
  pub dst : Text
  pub scope : Text

pub record StackHealth : Type 0 where
  pub app : Text
  pub type : Text
  pub path : Text
  pub port : ℕ

pub record Stack : Type 0 where
  pub name : Text
  pub targets : List Text
  pub kind : Text
  pub per_tenant : Bool
  pub depends_on : List Text
  pub apps : List StackApp
  pub min_ram_mb : ℕ
  pub storage : List StackVolume
  pub templates : List StackTemplate
  pub health : List StackHealth

pub record TenantForward : Type 0 where
  pub id : Text
  pub label : Text
  pub type : Text
  pub target : Text
  pub open_action : Text
  pub path : Text
  pub ssh_alias : Text

pub record TenantDnsRecord : Type 0 where
  pub name : Text
  pub type : Text
  pub value : Text
  pub ttl : ℕ

pub record TenantWebEndpoint : Type 0 where
  pub hostname : Text
  pub target : Text
  pub provider : Text
  pub cdn : Bool
  pub sso : Bool
  pub sso_groups : Option (List Text)
  pub sso_bypass_paths : Option (List Text)

pub record TenantDatabase : Type 0 where
  pub postgrest : Option Bool
  pub schema : Text
  pub extensions : List Text
  pub connection_limit : ℕ
  pub public_schema_create : Bool

pub record TenantMailbox : Type 0 where
  pub address : Text
  pub name : Text

pub record TenantMail : Type 0 where
  pub domains : List Text
  pub hosted : Bool
  pub mailboxes : List TenantMailbox

pub record DnsOverride : Type 0 where
  pub provider : Text
  pub zone_id : Text
  pub server : Text

pub record Tenant : Type 0 where
  pub id : Text
  pub display_name : Text
  pub base_domain : Text
  pub dns_override : Option DnsOverride
  pub realm : Text
  pub mail : Option TenantMail
  pub database : Option TenantDatabase
  pub stacks : List Text
  pub forwards : List TenantForward
  pub dns : List TenantDnsRecord
  pub mesh_routes : List Text
  pub web : List TenantWebEndpoint

pub record User : Type 0 where
  pub email : Text
  pub name : Text
  pub groups : List Text
  pub enabled : Option Bool

pub record UsersFile : Type 0 where
  pub tenant : Text
  pub users : List User

pub record Lock : Type 0 where
  pub engine : Text
