-- ===== src/Keycloak/Users/Reported.antt =====
-- What `EnsureUsers` reports: whom it created, and whom it updated.
use mksrv.Common.{
  ◌≡◌, Bool, true, false, Option, none, some, List, [], ◌∷◌, ◌++◌, ◌||◌, if◌then◌else◌, not,
  is_empty, Text, text_eq, All,
}
use mksrv.Keycloak.Users.{UserSpec, UserBody, UsersResult, Service, group_ids}
use mksrv.Keycloak.Users.Kept.{IsUser, IsSettled}

-- Who was there, and the given address.
unfoldable pub also : (Text → Bool) → Text → Text → Bool
also was email e = text_eq email e || was e

-- The addresses of the users that were not there, each where it stands first.
unfoldable pub new_emails : (Text → Bool) → List UserSpec → List Text
new_emails was [] = []
new_emails was (u ∷ users) =
    let rest = new_emails (also was u.email) users in if was u.email then rest else u.email ∷ rest

-- The addresses of the users that were there, or stand further up in the list.
unfoldable pub old_emails : (Text → Bool) → List UserSpec → List Text
old_emails was [] = []
old_emails was (u ∷ users) =
    let rest = old_emails (also was u.email) users in if was u.email then u.email ∷ rest else rest

-- Whether the answer to a search names a user.
unfoldable pub is_found : Option (List Text) → Bool
is_found none = false
is_found (some ids) = not (is_empty ids)

-- A report of the users behind another.
record Reports (was : Text → Bool) (users : List UserSpec) (result after : UsersResult)
    : Type 0 where
  created : after.created ≡ result.created ++ new_emails was users
  updated : after.updated ≡ result.updated ++ old_emails was users

module _ {World : Type 0} (service : Service World) where
  -- Whether the server finds a user with the address.
  unfoldable pub was_there : World → Text → Bool
  was_there w email = is_found (service.find_users email w)

  -- No search finds a user with the address.
  pub record IsUnfound (w : World) (email : Text) : Type 0 where
    pub none_found : (ids : List Text) → service.find_users email w ≡ some ids → ids ≡ []

module _ {World : Type 0} (service : Service World) (Member : World → Text → Text → Type 0) where
  -- What the admin API documents: an address that is not found is not found either behind a request
  -- that joins a group, updates a user who has another address, or creates one with another address.
  pub record IsSelective : Type 0 where
    pub join_misses :
        (id gid : Text) (w : World) (email : Text)
        → IsUnfound service w email
        → IsUnfound service (service.join_group id gid w).1 email
    pub update_misses :
        (id : Text) (body : UserBody) (w : World) (email : Text)
        → IsUser service Member w body.email id
        → text_eq body.email email ≡ false
        → IsUnfound service w email
        → IsUnfound service (service.update_user id body w).1 email
    pub create_misses :
        (body : UserBody) (w : World) (email : Text)
        → text_eq body.email email ≡ false
        → IsUnfound service w email
        → IsUnfound service (service.create_user body w).1 email

  -- The outcome of a reconciliation that succeeds: every user of the list has its address and its
  -- groups, and the report lists those who were not there as created and all others as updated.
  pub record Reconciles (users : List UserSpec) (before : World)
      (outcome : (Bool × UsersResult) × World) : Type 0 where
    pub ids : List (Text × Text)
    pub listed : group_ids service before ≡ some ids
    pub settled : All (IsSettled service Member ids outcome.1) users
    pub created : outcome.0.1.created ≡ new_emails (was_there service before) users
    pub updated : outcome.0.1.updated ≡ old_emails (was_there service before) users

  -- `was` tells who is on the server.
  record Tracks (was : Text → Bool) (w : World) : Type 0 where
    there : (email : Text) → was email ≡ true → (id : Text) × IsUser service Member w email id
    missing : (email : Text) → was email ≡ false → IsUnfound service w email
