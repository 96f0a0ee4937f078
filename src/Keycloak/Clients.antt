-- ===== src/Keycloak/Clients.antt =====
-- internal/keycloak/reconcile.go: `grantTeamManagement`, `applyClaimMappers` and `EnsureClient`, which
-- change the server only.
pub mod Mappers
pub mod Grants
pub mod Ensured
pub mod Examples
use mksrv.Common.{
  true, false, Option, none, some, List, [], ◌∷◌, if◌then◌else◌, Text, txt, lookup, contains,
}
use mksrv.Common.Effect.{Act, pure, require, read, ◌>>=◌, ◌>>◌, attempt}
use mksrv.Keycloak.Users.{add_groups}
use mksrv.Keycloak.Admin.{
  ClientSpec, Mapper, audience, mapper_name, Named, Request, create_client, update_client,
  create_mapper, assign_roles, Admin, add_named, admin_group_roles, missing_roles, client_body,
  wanted_mappers, needs_no_mapper,
}

module _ {World : Type 0} (admin : Admin World) where
  unfoldable pub group_ids : World → Option (List (Text × Text))
  group_ids w = elim (admin.groups w) [ none ↦ none | some groups ↦ some (add_groups groups []) ]

  unfoldable pub client_uuids : World → Option (List (Text × Text))
  client_uuids w = elim (admin.clients w) [
    | none ↦ none
    | some clients ↦ some (add_named clients [])
  ]

  -- A request that writes.
  unfoldable pub send : Request → Act World (Unit {0})
  send r = attempt (admin.write r)

  unfoldable pub assign_missing : Text → Text → List Named → Act World (Unit {0})
  assign_missing gid rm_uuid [] = pure tt
  assign_missing gid rm_uuid (role ∷ want) = send (assign_roles gid rm_uuid (role ∷ want))

  unfoldable pub grant_team_management : Text → Act World (Unit {0})
  grant_team_management group = do
    groups ← read group_ids
    gid ← require (lookup groups group)
    clients ← read client_uuids
    rm_uuid ← require (lookup clients (txt "realm-management"))
    roles ← read (admin.roles rm_uuid)
    assigned ← read (admin.assigned gid rm_uuid)
    assign_missing gid rm_uuid (missing_roles admin_group_roles (add_named roles []) assigned)

  unfoldable pub grant_admin : Text → Act World (Unit {0})
  grant_admin [] = pure tt
  grant_admin (c ∷ group) = grant_team_management (c ∷ group)

  unfoldable pub make_mapper : Text → List Text → Mapper → Act World (Unit {0})
  make_mapper uuid have mapper = elim (contains have (mapper_name mapper)) [
    | true ↦ pure tt
    | false ↦ send (create_mapper uuid mapper)
  ]

  -- The loop over the mappers of a client.
  unfoldable pub make_mappers : Text → List Text → List Mapper → Act World (Unit {0})
  make_mappers uuid have [] = pure tt
  make_mappers uuid have (mapper ∷ mappers) = do
    make_mapper uuid have mapper
    make_mappers uuid have mappers

  -- The ids of the clients, which are asked for once.
  unfoldable pub known_uuids : Option (List (Text × Text)) → Act World (List (Text × Text))
  known_uuids none = read client_uuids
  known_uuids (some uuids) = pure uuids

  -- The mappers of a client that wants some.
  unfoldable pub add_mappers :
      Option (List (Text × Text)) → ClientSpec → Act World (Option (List (Text × Text)))
  add_mappers known spec = do
    uuids ← known_uuids known
    uuid ← require (lookup uuids spec.client_id)
    have ← read (admin.mappers uuid)
    make_mappers uuid have (wanted_mappers spec)
    pure (some uuids)

  -- The mappers of one client, with the ids of the clients that are known then.
  unfoldable pub apply_mappers :
      Option (List (Text × Text)) → ClientSpec → Act World (Option (List (Text × Text)))
  apply_mappers known spec = elim (needs_no_mapper spec) [
    | true ↦ pure known
    | false ↦ add_mappers known spec
  ]

  -- The loop of `applyClaimMappers`.
  unfoldable pub apply_all_mappers :
      List ClientSpec → Option (List (Text × Text)) → Act World (Unit {0})
  apply_all_mappers [] known = pure tt
  apply_all_mappers (spec ∷ specs) known = do
    known' ← apply_mappers known spec
    apply_all_mappers specs known'

  unfoldable pub apply_claim_mappers : List ClientSpec → Act World (Unit {0})
  apply_claim_mappers specs = apply_all_mappers specs none

  -- `EnsureClient` behind the creation of a client: its id, if it is listed then.
  unfoldable pub find_client : Text → Act World Text
  find_client client_id = do
    uuids ← read client_uuids
    pure (elim (lookup uuids client_id) [ none ↦ [] | some uuid ↦ uuid ])

  unfoldable pub put_client : ClientSpec → Option Text → Act World Text
  put_client spec (some uuid) = do send (update_client uuid (client_body spec none)); pure uuid
  put_client spec none = do send (create_client (client_body spec none)); find_client spec.client_id

  unfoldable pub ensure_audience_mapper : Text → Text → Act World (Unit {0})
  ensure_audience_mapper uuid client_id = do
    existing ← read (admin.mappers uuid)
    make_mapper uuid existing (audience client_id)

  -- `EnsureClient` with the id of the client.
  unfoldable pub finish_client : ClientSpec → Text → Act World Text
  finish_client spec [] = pure []
  finish_client spec (c ∷ uuid) = do
    ensure_audience_mapper (c ∷ uuid) spec.client_id
    if spec.public then pure [] else read (admin.secret (c ∷ uuid))

  unfoldable pub ensure_client : ClientSpec → Act World Text
  ensure_client spec = do
    existing ← read client_uuids
    uuid ← put_client spec (lookup existing spec.client_id)
    finish_client spec uuid
