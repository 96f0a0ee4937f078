-- ===== src/Keycloak/Clients/Examples.antt =====
-- A client with a secret, and the roles of an admin group.
use mksrv.Common.{refl, false, none, [], txt, text_eq, lookup, insert, contains}
use mksrv.Keycloak.Admin.{ClientSpec, mapper_name, add_named, client_body, origins_of}
use mksrv.Keycloak.Clients.{
  client_uuids, send, make_mapper, find_client, put_client, ensure_audience_mapper, finish_client,
  ensure_client,
}
use mksrv.Keycloak.Clients.Ensured.{IsReady, ensure_client-IsReady}
use mksrv.Keycloak.Sample.{Has, shop, shop-IsDocumented, empty_shop}

abbrev proxy : ClientSpec
proxy = record {
  client_id = txt "proxy";
  public = false;
  redirect_uris = [];
  web_origins = none;
  hardcoded_claims = [];
  groups_claim = false;
}

ensure_client-IsReady_example :
    IsReady shop Has proxy empty_shop (txt "s3cret") (ensure_client shop proxy empty_shop).1
unfolding txt text_eq lookup insert contains mapper_name add_named client_body origins_of
    client_uuids send make_mapper find_client put_client ensure_audience_mapper finish_client
    ensure_client
ensure_client-IsReady_example =
    ensure_client-IsReady shop-IsDocumented proxy empty_shop (txt "s3cret") refl
