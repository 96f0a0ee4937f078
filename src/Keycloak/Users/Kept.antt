-- ===== src/Keycloak/Users/Kept.antt =====
-- What `EnsureUsers` keeps on the server and what it leaves there.
use mksrv.Common.{◌≡◌, Bool, true, Option, some, List, [], ◌∷◌, All, Text, lookup}
use mksrv.Keycloak.Users.{UserSpec, UserBody, UsersResult, Service}

module _ {World : Type 0} (service : Service World) (Member : World → Text → Text → Type 0) where
  -- The address is found, and its first user has the id.
  pub record IsUser (w : World) (email id : Text) : Type 0 where
    pub others : List Text
    pub found : service.find_users email w ≡ some (id ∷ others)

  -- Every member of a group is still one, and every user is still found.
  pub record Keeps (before after : World) : Type 0 where
    pub members : (id gid : Text) → Member before id gid → Member after id gid
    pub users : (email id : Text) → IsUser before email id → IsUser after email id

  -- What the admin API documents: who joins a group is a member of it, nobody leaves a group or loses
  -- an address by joining a group, by the creation of a user with a new address, or by an update of a
  -- user that keeps the address. `Member w id gid` says that the user `id` is in the group `gid`.
  pub record IsAdditive : Type 0 where
    pub joined :
        (id gid : Text) (w : World)
        → (service.join_group id gid w).0 ≡ true
        → Member (service.join_group id gid w).1 id gid
    pub join_keeps : (id gid : Text) (w : World) → Keeps w (service.join_group id gid w).1
    pub update_keeps :
        (id : Text) (body : UserBody) (w : World)
        → IsUser w body.email id
        → Keeps w (service.update_user id body w).1
    pub create_keeps :
        (body : UserBody) (w : World)
        → service.find_users body.email w ≡ some []
        → Keeps w (service.create_user body w).1

  pub Keeps-refl : (w : World) → Keeps w w
  Keeps-refl w = record { members = λ id gid m. m; users = λ email id u. u }

  pub Keeps-trans : {a b c : World} → Keeps a b → Keeps b c → Keeps a c
  Keeps-trans p q = record {
    members = λ id gid m. q.members id gid (p.members id gid m);
    users = λ email id u. q.users email id (p.users email id u);
  }

  -- The group is known, and the user is in it.
  pub record InGroup (ids : List (Text × Text)) (w : World) (id name : Text) : Type 0 where
    pub gid : Text
    pub known : lookup ids name ≡ some gid
    pub member : Member w id gid

  -- The user with the given address exists, and is in all of the groups that are given for it.
  pub record IsSettled (ids : List (Text × Text)) (w : World) (u : UserSpec) : Type 0 where
    pub id : Text
    pub user : IsUser w u.email id
    pub groups : All (InGroup ids w id) u.groups

  pub record Settles (ids : List (Text × Text)) (users : List UserSpec) (before : World)
      (outcome : (Bool × UsersResult) × World) : Type 0 where
    pub keeps : Keeps before outcome.1
    pub settled : outcome.0.0 ≡ true → All (IsSettled ids outcome.1) users

  pub record Joins (ids : List (Text × Text)) (id : Text) (groups : List Text) (before : World)
      (outcome : Bool × World) : Type 0 where
    pub keeps : Keeps before outcome.1
    pub member : outcome.0 ≡ true → All (InGroup ids outcome.1 id) groups

  -- What `ensureUser` does: the id that it returns is the user's.
  pub record Upserts (u : UserSpec) (before : World) (outcome : Option (Text × Bool) × World)
      : Type 0 where
    pub keeps : Keeps before outcome.1
    pub user :
        (id : Text) (existed : Bool) → outcome.0 ≡ some (id, existed) → IsUser outcome.1 u.email id
