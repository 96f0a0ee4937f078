-- ===== src/Keycloak/Realm.antt =====
-- internal/keycloak/reconcile.go: `EnsureRealm`.
pub mod Laws
pub mod Ensured
pub mod Examples
use mksrv.Common.{
  true, false, not, ◌&&◌, Option, none, some, List, [], ◌∷◌, ◌++◌, if◌then◌else◌, ◌==◌, is_empty,
  Text, text_eq, lookup, contains, keys,
}
use mksrv.Common.Effect.{Act, pure, fail, read, ◌>>=◌, ◌>>◌, update}
use mksrv.Keycloak.Admin.{
  SmtpSpec, ClientSpec, RealmSpec, RealmResult, create_realm, set_theme, set_smtp, create_group,
  create_client, update_client, Admin, client_body, realm_body, smtp_body,
}
use mksrv.Keycloak.Clients.{group_ids, client_uuids, send, grant_admin, apply_claim_mappers}

-- What `EnsureRealm` has done when it stands at some point: the server, and the result so far.
pub record Progress (World : Type 0) : Type 0 where
  pub world : World
  pub result : RealmResult

module _ {World : Type 0} where
  -- An action on the server, with the result left alone.
  unfoldable pub on_world : {A : Type 0} → Act World A → Act (Progress World) A
  on_world m p = let (found, w) = m p.world in (found, record p { world = w })

  unfoldable pub note : (RealmResult → RealmResult) → Act (Progress World) (Unit {0})
  note f = update λ p. record p { result = f p.result }

module _ {World : Type 0} (admin : Admin World) where
  unfoldable pub make_realm : RealmSpec → Act (Progress World) (Unit {0})
  make_realm spec = do
    on_world (send admin (create_realm (realm_body spec)))
    note λ r. record r { realm_created = true }

  unfoldable pub change_theme : RealmSpec → Act (Progress World) (Unit {0})
  change_theme spec = do
    on_world (send admin (set_theme spec.login_theme))
    note λ r. record r { login_theme_updated = true }

  -- The realm itself: created when it is not found, with its theme seen to otherwise.
  unfoldable pub open_realm : RealmSpec → Act (Progress World) (Unit {0})
  open_realm spec p =
      let (status, theme) = admin.realm p.world in
      if status == 404
      then make_realm spec p
      else if not (status == 200)
      then fail p
      else if not (is_empty spec.login_theme) && not (text_eq theme spec.login_theme)
      then change_theme spec p
      else pure tt p

  unfoldable pub set_mail : Option SmtpSpec → Act (Progress World) (Unit {0})
  set_mail none = pure tt
  set_mail (some smtp) = do
    on_world (send admin (set_smtp (smtp_body smtp)))
    note λ r. record r { smtp_updated = true }

  unfoldable pub make_group : List (Text × Text) → Text → Act (Progress World) (Unit {0})
  make_group existing name = elim (contains (keys existing) name) [
    | true ↦ pure tt
    | false ↦ do
      on_world (send admin (create_group name))
      note λ r. record r { groups_created = r.groups_created ++ name ∷ [] }
  ]

  -- The loop over the groups.
  unfoldable pub make_groups : List (Text × Text) → List Text → Act (Progress World) (Unit {0})
  make_groups existing [] = pure tt
  make_groups existing (name ∷ names) = do make_group existing name; make_groups existing names

  unfoldable pub upsert_client : List (Text × Text) → ClientSpec → Act (Progress World) (Unit {0})
  upsert_client existing spec = elim (lookup existing spec.client_id) [
    | some uuid ↦
        on_world (send admin (update_client uuid (client_body spec (some (not spec.public)))))
    | none ↦ do
      on_world (send admin (create_client (client_body spec (some (not spec.public)))))
      note λ r. record r { clients_created = r.clients_created ++ spec.client_id ∷ [] }
  ]

  -- The loop over the clients.
  unfoldable pub upsert_clients :
      List (Text × Text) → List ClientSpec → Act (Progress World) (Unit {0})
  upsert_clients existing [] = pure tt
  upsert_clients existing (spec ∷ specs) = do
    upsert_client existing spec
    upsert_clients existing specs

  -- `EnsureRealm` behind its groups.
  unfoldable pub reconcile_clients : RealmSpec → Act (Progress World) (Unit {0})
  reconcile_clients spec = do
    on_world (grant_admin admin spec.admin_group)
    clients ← on_world (read (client_uuids admin))
    upsert_clients clients spec.clients
    on_world (apply_claim_mappers admin spec.clients)

  unfoldable pub reconcile : RealmSpec → Act (Progress World) (Unit {0})
  reconcile spec = do
    open_realm spec
    set_mail spec.smtp
    existing ← on_world (read (group_ids admin))
    make_groups existing spec.groups
    reconcile_clients spec

  unfoldable pub ensure_realm : RealmSpec → World → Option (Unit {0}) × Progress World
  ensure_realm spec w = reconcile spec (record {
    world = w;
    result = record {
      realm = spec.realm;
      realm_created = false;
      groups_created = [];
      clients_created = [];
      login_theme_updated = false;
      smtp_updated = false;
    };
  })
