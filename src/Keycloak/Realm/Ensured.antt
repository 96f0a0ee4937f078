-- ===== src/Keycloak/Realm/Ensured.antt =====
-- `EnsureRealm` as a whole.
use mksrv.Common.{not, ◌≢◌, some, [], All}
use mksrv.Common.Effect.{Effect, IsPreorder}
use mksrv.Keycloak.Admin.{RealmSpec, Admin}
use mksrv.Keycloak.Contract.{Entity, group, IsAt, IsApplied, IsDocumented}
use mksrv.Keycloak.Clients.Mappers.{IsClaimed}
use mksrv.Keycloak.Clients.Grants.{IsGranted}
use mksrv.Keycloak.Realm.Laws.{IsOpened, HasMail, Advances, Advances-IsPreorder}

-- The realm has what its specification wants: it was opened as that says, its mail is set, its groups
-- and clients are there, the admin group was given the roles for a team's admins at some state on the
-- way, and the clients have their mappers.
pub record IsRealised {World : Type 0} (admin : Admin World) (Has : World → Entity → Type 0)
    (spec : RealmSpec) (before after : World) : Type 0 where
  pub opened : IsOpened admin Has spec before after
  pub mail : HasMail admin Has spec.smtp after
  pub groups : All (λ name. Has after (group name)) spec.groups
  pub admins :
      (spec.admin_group ≢ [])
      → IsAt admin (λ x. IsGranted admin Has spec.admin_group x after) before after
  pub clients : All (λ c. IsApplied admin Has c (some (not c.public)) after) spec.clients
  pub claims : All (λ c. IsClaimed admin Has c before after) spec.clients

-- The admins, the clients and their mappers, by a state from which the clients were reconciled.
record HasClients {World : Type 0} (admin : Admin World) (Has : World → Entity → Type 0)
    (spec : RealmSpec) (before after : World) : Type 0 where
  admins : (spec.admin_group ≢ []) → IsGranted admin Has spec.admin_group before after
  clients : All (λ c. IsApplied admin Has c (some (not c.public)) after) spec.clients
  claims : All (λ c. IsClaimed admin Has c before after) spec.clients

module _ {World : Type 0} {admin : Admin World} {Has : World → Entity → Type 0}
    (doc : IsDocumented admin Has) where
  abbrev order : IsPreorder (Advances admin Has)
  order = Advances-IsPreorder admin Has
