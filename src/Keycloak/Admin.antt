-- ===== src/Keycloak/Admin.antt =====
-- internal/keycloak/reconcile.go: the desired realm and its clients, the requests of the admin API
-- that `EnsureRealm` and `EnsureClient` send, and what they compute with no request.
use mksrv.Common.{
  Bool, not, ◌&&◌, Option, none, some, List, [], ◌∷◌, ◌++◌, if◌then◌else◌, ℕ, is_empty, Text, txt,
  lookup, insert, contains, itoa,
}
use mksrv.Keycloak.Users.{Group}

pub record SmtpSpec : Type 0 where
  pub host : Text
  pub port : ℕ
  pub from : Text
  pub from_display : Text
  pub user : Text
  pub password : Text

pub record ClientSpec : Type 0 where
  pub client_id : Text
  pub public : Bool
  pub redirect_uris : List Text
  -- `none` is nil
  pub web_origins : Option (List Text)
  pub hardcoded_claims : List (Text × Text)
  pub groups_claim : Bool

pub record RealmSpec : Type 0 where
  pub realm : Text
  pub display_name : Text
  pub groups : List Text
  pub clients : List ClientSpec
  pub admin_group : Text
  pub login_theme : Text
  pub smtp : Option SmtpSpec

pub record RealmResult : Type 0 where
  pub realm : Text
  pub realm_created : Bool
  pub groups_created : List Text
  pub clients_created : List Text
  pub login_theme_updated : Bool
  pub smtp_updated : Bool

-- The body of a new realm; the fields that are the same for every realm are left out.
pub record RealmBody : Type 0 where
  pub realm : Text
  pub display_name : Text
  pub login_theme : Option Text

-- The settings of mail: the port is a text, and the fixed fields are left out.
pub record SmtpBody : Type 0 where
  pub host : Text
  pub port : Text
  pub from : Text
  pub from_display_name : Text
  pub user : Text
  pub password : Text

pub record ClientBody : Type 0 where
  pub client_id : Text
  pub public_client : Bool
  -- `EnsureClient` leaves the field out
  pub service_accounts_enabled : Option Bool
  pub redirect_uris : List Text
  pub web_origins : List Text

pub data Mapper : Type 0 where
  hardcoded : Text → Text → Mapper
  group_membership : Mapper
  audience : Text → Mapper

abbrev pub groups_mapper : Text
groups_mapper = txt "mksrv-groups"

abbrev pub audience_mapper : Text
audience_mapper = txt "mksrv-audience"

-- The name under which a mapper is created.
unfoldable pub mapper_name : Mapper → Text
mapper_name (hardcoded claim value) = txt "mksrv-" ++ claim
mapper_name group_membership = groups_mapper
mapper_name (audience client_id) = audience_mapper

-- A client or a role in an answer, by its id and its name.
pub record Named : Type 0 where
  pub id : Text
  pub name : Text

-- The requests that write.
pub data Request : Type 0 where
  create_realm : RealmBody → Request
  set_theme : Text → Request
  set_smtp : SmtpBody → Request
  create_group : Text → Request
  create_client : ClientBody → Request
  update_client : Text → ClientBody → Request
  create_mapper : Text → Mapper → Request
  assign_roles : Text → Text → List Named → Request

-- The admin API for one realm. A read is `none` when it fails.
pub record Admin (World : Type 0) : Type 0 where
  -- GET of the realm: the status, and the login theme of the answer.
  pub realm : World → ℕ × Text
  pub groups : World → Option (List Group)
  -- The clients with their ids and client ids.
  pub clients : World → Option (List Named)
  -- The names of a client's mappers.
  pub mappers : Text → World → Option (List Text)
  pub roles : Text → World → Option (List Named)
  -- The names of the roles of a client that a group has.
  pub assigned : Text → Text → World → Option (List Text)
  pub secret : Text → World → Option Text
  pub write : Request → World → Bool × World

-- The loops of `clientUUIDs` and of the roles in `grantTeamManagement`.
unfoldable pub add_named : List Named → List (Text × Text) → List (Text × Text)
add_named [] out = out
add_named (c ∷ named) out = add_named named (insert out c.name c.id)

abbrev pub admin_group_roles : List Text
admin_group_roles =
    txt "manage-users" ∷ txt "query-users" ∷ txt "query-groups" ∷ txt "view-users" ∷ []

-- The roles to grant: those of `names` that the client has and the group has not.
unfoldable pub missing_roles : List Text → List (Text × Text) → List Text → List Named
missing_roles [] by_name has = []
missing_roles (name ∷ names) by_name has =
    let rest = missing_roles names by_name has in
    elim (lookup by_name name) [
      | none ↦ rest
      | some id ↦ if contains has name then rest else record { id = id; name = name } ∷ rest
    ]

unfoldable pub origins_of : ClientSpec → List Text
origins_of spec = elim spec.web_origins [ none ↦ txt "+" ∷ [] | some origins ↦ origins ]

unfoldable pub client_body : ClientSpec → Option Bool → ClientBody
client_body spec accounts = record {
  client_id = spec.client_id;
  public_client = spec.public;
  service_accounts_enabled = accounts;
  redirect_uris = spec.redirect_uris;
  web_origins = origins_of spec;
}

unfoldable pub claim_mappers : List (Text × Text) → List Mapper
claim_mappers [] = []
claim_mappers ((claim, value) ∷ claims) = hardcoded claim value ∷ claim_mappers claims

unfoldable pub wanted_mappers : ClientSpec → List Mapper
wanted_mappers spec =
    claim_mappers spec.hardcoded_claims ++ (if spec.groups_claim then group_membership ∷ [] else [])

unfoldable pub needs_no_mapper : ClientSpec → Bool
needs_no_mapper spec = is_empty spec.hardcoded_claims && not spec.groups_claim

unfoldable pub realm_body : RealmSpec → RealmBody
realm_body spec = record {
  realm = spec.realm;
  display_name = spec.display_name;
  login_theme = if is_empty spec.login_theme then none else some spec.login_theme;
}

unfoldable pub smtp_body : SmtpSpec → SmtpBody
smtp_body smtp = record {
  host = smtp.host;
  port = itoa smtp.port;
  from = smtp.from;
  from_display_name = smtp.from_display;
  user = smtp.user;
  password = smtp.password;
}
