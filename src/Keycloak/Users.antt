-- ===== src/Keycloak/Users.antt =====
-- internal/keycloak/reconcile.go: `EnsureUsers`, `ensureUser` and `splitName`, over a server whose
-- state is a `World`. An error is `false` or `none`, with the world at that point.
pub mod Kept
pub mod Settled
pub mod Reported
pub mod Examples
use mksrv.Common.{
  ◌+◌, Bool, true, false, Option, none, some, List, [], ◌∷◌, ◌++◌, if◌then◌else◌, is_empty, Text,
  txt, trim_space, join, lookup, insert, is_space,
}

pub record UserSpec : Type 0 where
  pub email : Text
  pub name : Text
  pub groups : List Text
  pub enabled : Bool

pub record UserBody : Type 0 where
  pub username : Text
  pub email : Text
  pub email_verified : Bool
  pub enabled : Bool
  pub first_name : Text
  pub last_name : Text

pub record UsersResult : Type 0 where
  pub realm : Text
  pub created : List Text
  pub updated : List Text

-- A group of the answer to GET groups.
pub record Group : Type 0 where
  pub id : Text
  pub name : Text

-- The loop of `groupIDs`.
unfoldable pub add_groups : List Group → List (Text × Text) → List (Text × Text)
add_groups [] out = out
add_groups (g ∷ groups) out = add_groups groups (insert out g.name g.id)

-- strings.Fields
add_field : Text → List Text → List Text
add_field word fields = if is_empty word then fields else word ∷ fields

-- The word that starts the text, and the fields behind it.
words : Text → Text × List Text
words [] = ([], [])
words (c ∷ s) =
    let (word, rest) : Text × List Text = words s in
    if is_space c then ([], add_field word rest) else (c ∷ word, rest)

pub fields : Text → List Text
fields s = let (word, rest) : Text × List Text = words s in add_field word rest

-- The first of the fields, and the others.
pub first_and_last : List Text → Text × Text
first_and_last [] = ([], [])
first_and_last (first ∷ others) = (first, join others (txt " "))

pub split_name : Text → Text × Text
split_name name =
    let trimmed = trim_space name in
    if is_empty trimmed then ([], []) else first_and_last (fields trimmed)

pub body_of : UserSpec → UserBody
body_of u = record {
  username = u.email;
  email = u.email;
  email_verified = true;
  enabled = u.enabled;
  first_name = (split_name u.name).0;
  last_name = (split_name u.name).1;
}

-- The requests of the admin API that are used. A request that writes says whether it succeeded, with
-- the world behind it.
pub record Service (World : Type 0) : Type 0 where
  -- GET groups.
  pub list_groups : World → Option (List Group)
  -- GET users with an exact email: the ids that are found.
  pub find_users : Text → World → Option (List Text)
  pub update_user : Text → UserBody → World → Bool × World
  pub create_user : UserBody → World → Bool × World
  pub join_group : Text → Text → World → Bool × World

-- The id that is found for a user who was just created.
pub created_id : Option (List Text) → Option (Text × Bool)
created_id none = none
created_id (some []) = none
created_id (some (id ∷ ids)) = some (id, false)

module _ {World : Type 0} (service : Service World) where
  -- The ids of the groups by their names.
  pub group_ids : World → Option (List (Text × Text))
  group_ids w = elim (service.list_groups w) [
    | none ↦ none
    | some groups ↦ some (add_groups groups [])
  ]

  -- `ensureUser` behind its first request: the id, and whether the user existed.
  pub upsert_user : UserSpec → Option (List Text) → World → Option (Text × Bool) × World
  upsert_user u none w = (none, w)
  upsert_user u (some (id ∷ ids)) w =
      let (ok, next) = service.update_user id (body_of u) w in
      (if ok then some (id, true) else none, next)
  upsert_user u (some []) w =
      let (ok, next) = service.create_user (body_of u) w in
      (if ok then created_id (service.find_users u.email next) else none, next)

  pub ensure_user : UserSpec → World → Option (Text × Bool) × World
  ensure_user u w = upsert_user u (service.find_users u.email w) w

  -- The loop over a user's groups.
  pub join_groups : List (Text × Text) → Text → List Text → World → Bool × World
  join_groups ids user_id [] w = (true, w)
  join_groups ids user_id (g ∷ groups) w = elim (lookup ids g) [
    | none ↦ (false, w)
    | some gid ↦
        let (ok, next) = service.join_group user_id gid w in
        elim ok [ false ↦ (false, next) | true ↦ join_groups ids user_id groups next ]
  ]

  -- `result` with the user's address appended to one of its lists.
  pub count_user : UsersResult → Text → Bool → UsersResult
  count_user result email existed =
      if existed
      then record result { updated = result.updated ++ email ∷ [] }
      else record result { created = result.created ++ email ∷ [] }

  -- The loop over the users.
  pub ensure_each :
      List (Text × Text) → List UserSpec → UsersResult → World → (Bool × UsersResult) × World
  ensure_each ids [] result w = ((true, result), w)
  ensure_each ids (u ∷ users) result w =
      let (found, next) = ensure_user u w in
      elim found [
        | none ↦ ((false, result), next)
        | some (id, existed) ↦
            let counted = count_user result u.email existed in
            let (ok, joined) = join_groups ids id u.groups next in
            elim ok [
              | false ↦ ((false, counted), joined)
              | true ↦ ensure_each ids users counted joined
            ]
      ]

  pub ensure_users : Text → List UserSpec → World → (Bool × UsersResult) × World
  ensure_users realm users w =
      let start : UsersResult = record { realm = realm; created = []; updated = [] } in
      elim (group_ids w) [ none ↦ ((false, start), w) | some ids ↦ ensure_each ids users start w ]
