-- ===== src/Configd/Server.antt =====
-- internal/configd/server.go: the roster and the handler of GET /v1/clientconfig.
-- internal/configd/headscale.go: `PreAuthKey`.
-- internal/configd/clientconfig.go: the configuration that is signed.
pub mod Entitled
pub mod Examples
use mksrv.Common.{
  ℕ, Bool, true, false, Option, none, some, List, [], ◌∷◌, arith, if◌then◌else◌, ◌>>=◌, is_empty,
  Text, txt, text_eq, trim_space, trim_right, trim_prefix, lookup, insert, keys,
}
use mksrv.Configd.NodeName.{node_name}
use mksrv.Configd.Token.{Claims, vpn_entitled}

pub record Forward : Type 0 where
  pub id : Text
  pub label : Text
  pub type : Text
  pub listen_host : Text
  pub listen_port : ℕ
  pub port_strategy : Text
  pub target : Text
  pub max_conns : ℕ

pub record TenantEntry : Type 0 where
  pub issuer : Text
  pub tenant : Text
  pub display_name : Text
  pub primary : Text
  pub logo_data_uri : Text
  pub headscale_user : Text
  pub control_url : Text
  pub forwards : List Forward
  pub update_feed_url : Text
  pub min_version : Text

pub record ClientConfig : Type 0 where
  pub version : ℕ
  pub issued_at : ℕ
  pub tenant_id : Text
  pub display_name : Text
  pub primary : Text
  pub logo_data_uri : Text
  pub control_url : Text
  pub preauth_key : Text
  pub node_name : Text
  pub ephemeral : Bool
  pub forwards : List Forward
  pub backoff_sec : List ℕ
  pub idle_disconnect_min : ℕ
  pub kill_switch : Bool
  pub feed_url : Text
  pub min_version : Text
  pub telemetry : Bool

-- `byIssuer` of `NewServer`: the last entry of an issuer counts.
pub add_entries : List (Text × TenantEntry) → List TenantEntry → List (Text × TenantEntry)
add_entries by_issuer [] = by_issuer
add_entries by_issuer (t ∷ tenants) =
    add_entries (insert by_issuer (trim_right t.issuer 47) t) tenants

pub new_server : List TenantEntry → List (Text × TenantEntry)
new_server tenants = add_entries [] tenants

pub record HeadscaleUser : Type 0 where
  pub id : Text
  pub name : Text

pub user_id : List HeadscaleUser → Text → Option Text
user_id [] name = none
user_id (u ∷ users) name =
    let rest = user_id users name in if text_eq u.name name then some u.id else rest

-- `users` is the list that Headscale answers with, and `create` its answer to the request for a key;
-- `none` stands for a failed request.
pub pre_auth_key : Option (List HeadscaleUser) → (Text → Option Text) → Text → Option Text
pre_auth_key users create user = do
  listed ← users
  id ← user_id listed user
  key ← create id
  if is_empty key then none else some key

pub data Response : Type 0 where
  refused : ℕ → Response
  issued : Text → Response

pub record Request : Type 0 where
  pub authorization : Text
  pub device_name : Text

-- The token of a bearer authorization; the empty one where there is none.
pub bearer_token : Text → Text
bearer_token authorization =
    let token = trim_space (trim_prefix authorization (txt "Bearer ")) in
    if text_eq token authorization then [] else token

pub client_config_of : ℕ → TenantEntry → Text → Text → ClientConfig
client_config_of now tenant preauth device_name = record {
  version = 1;
  issued_at = now;
  tenant_id = tenant.tenant;
  display_name = tenant.display_name;
  primary = tenant.primary;
  logo_data_uri = tenant.logo_data_uri;
  control_url = tenant.control_url;
  preauth_key = preauth;
  node_name = node_name tenant.tenant device_name;
  ephemeral = false;
  forwards = tenant.forwards;
  backoff_sec = 1 ∷ 2 ∷ 5 ∷ 10 ∷ 30 ∷ 60 ∷ [];
  idle_disconnect_min = 0;
  kill_switch = false;
  feed_url = tenant.update_feed_url;
  min_version = tenant.min_version;
  telemetry = false;
}

-- `minted` says for which Headscale users this request asked for a key.
pub record Answer : Type 0 where
  pub response : Response
  pub minted : List Text

pub refuse : ℕ → Answer
refuse status = record { response = refused status; minted = [] }

-- `sign` is `Sign`, and `preauth` what `PreAuthKey` returns for a user of Headscale.
module _ (sign : ClientConfig → Option Text) (preauth : Text → Option Text) where
  -- From the call of `PreAuthKey` on.
  pub issue : ℕ → Text → TenantEntry → Answer
  issue now device_name tenant = elim (preauth tenant.headscale_user) [
    | none ↦ record { response = refused 502; minted = tenant.headscale_user ∷ [] }
    | some key ↦ elim (sign (client_config_of now tenant key device_name)) [
      | none ↦ record { response = refused 500; minted = tenant.headscale_user ∷ [] }
      | some compact ↦ record { response = issued compact; minted = tenant.headscale_user ∷ [] }
    ]
  ]

  -- What follows the verification of the token.
  pub answer_claims : ℕ → Text → List (Text × TenantEntry) → Option Claims → Answer
  answer_claims now device_name by_issuer none = refuse 401
  answer_claims now device_name by_issuer (some claims) =
      elim (lookup by_issuer (trim_right claims.issuer 47)) [
        | none ↦ refuse 403
        | some tenant ↦ elim (vpn_entitled claims) [
          | false ↦ refuse 403
          | true ↦ issue now device_name tenant
        ]
      ]

  -- `clientConfig`; `verify` is `Verify` on a token, the issuers that are known and the cache of keys,
  -- which it hands on.
  module _ {Cache : Type 0} (verify : Text → List Text → Cache → Option Claims × Cache) where
    pub client_config : ℕ → List (Text × TenantEntry) → Request → Cache → Answer × Cache
    client_config now by_issuer request cache =
        let token = bearer_token request.authorization in
        if is_empty token
        then (refuse 401, cache)
        else let (claims, next) = verify token (keys by_issuer) cache in
          (answer_claims now request.device_name by_issuer claims, next)
