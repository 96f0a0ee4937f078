-- ===== src/Keycloak/Realm/Examples.antt =====
-- A realm that is created in an empty server, and what is left of it.
use mksrv.Common.{
  ◌≡◌, refl, true, none, some, [], ◌∷◌, txt, text_eq, lookup, insert, contains, keys,
}
use mksrv.Keycloak.Users.{add_groups}
use mksrv.Keycloak.Admin.{
  ClientSpec, RealmSpec, mapper_name, add_named, missing_roles, client_body, origins_of,
  claim_mappers, wanted_mappers, needs_no_mapper, realm_body,
}
use mksrv.Keycloak.Clients.{
  group_ids, client_uuids, send, assign_missing, grant_team_management, grant_admin, make_mapper,
  make_mappers, known_uuids, add_mappers, apply_mappers, apply_all_mappers, apply_claim_mappers,
}
use mksrv.Keycloak.Realm.{
  on_world, note, make_realm, open_realm, set_mail, make_group, make_groups, upsert_client,
  upsert_clients, reconcile_clients, reconcile, ensure_realm,
}
use mksrv.Keycloak.Sample.{shop, empty_shop}

abbrev web_client : ClientSpec
web_client = record {
  client_id = txt "web";
  public = true;
  redirect_uris = txt "https://a/*" ∷ [];
  web_origins = none;
  hardcoded_claims = (txt "role", txt "db") ∷ [];
  groups_claim = true;
}

abbrev spec : RealmSpec
spec = record {
  realm = txt "acme";
  display_name = txt "Acme";
  groups = txt "ops" ∷ txt "vpn" ∷ [];
  clients = web_client ∷ [];
  admin_group = txt "ops";
  login_theme = txt "acme";
  smtp = some (record {
    host = txt "mail";
    port = 587;
    from = txt "a@b";
    from_display = txt "A";
    user = txt "u";
    password = txt "p";
  });
}

groups_test :
    (ensure_realm shop spec empty_shop).1.result.groups_created ≡ txt "ops" ∷ txt "vpn" ∷ []
unfolding txt text_eq lookup insert contains keys add_groups mapper_name add_named missing_roles
    client_body origins_of claim_mappers wanted_mappers needs_no_mapper realm_body group_ids
    client_uuids send assign_missing grant_team_management grant_admin make_mapper make_mappers
    known_uuids add_mappers apply_mappers apply_all_mappers apply_claim_mappers on_world note
    make_realm open_realm set_mail make_group make_groups upsert_client upsert_clients
    reconcile_clients reconcile ensure_realm
groups_test = refl
