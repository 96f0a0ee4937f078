-- ===== src/Keycloak/Users/Examples.antt =====
-- Tests and witnesses of the reconciliation of users.
use mksrv.Common.{
  ◌≡◌, refl, inl, inr, true, some, List, [], ◌∷◌, ◌++◌, arith, if◌then◌else◌, Bool-cases, Text, txt,
  text_eq, text_eq_refl, trim_left_func, trim_right_func, trim_space, join, contains, is_space,
}
use mathlib.Core.Option.{some-injective}
use mksrv.Keycloak.Users.{
  UserSpec, Service, ensure_users, split_name, first_and_last, fields, words, add_field,
}
use mksrv.Keycloak.Users.Kept.{IsUser, Keeps, IsAdditive, Keeps-refl}
use mksrv.Keycloak.Users.Settled.{ensure_users-Keeps}
use mksrv.Keycloak.Users.Reported.{new_emails, was_there, is_found, also}

-- A small server: the addresses, which are the ids too, and the memberships.
abbrev World : Type 0
World = List Text × List Text

abbrev pair : Text → Text → Text
pair id gid = id ++ txt "/" ++ gid

abbrev small_service : Service World
small_service = record {
  list_groups = λ w. some (
      record { id = txt "g1"; name = txt "ops" } ∷ record { id = txt "g2"; name = txt "vpn" } ∷ []);
  find_users = λ email w. some (if contains w.0 email then email ∷ [] else []);
  update_user = λ id body w. (true, w);
  create_user = λ body w. (true, (body.email ∷ w.0, w.1));
  join_group = λ id gid w. (true, (w.0, pair id gid ∷ w.1));
}

abbrev Member : World → Text → Text → Type 0
Member w id gid = contains w.1 (pair id gid) ≡ true

IsUser-found :
    (w : World) (email id : Text)
    → IsUser small_service Member w email id
    → contains w.0 email ≡ true
IsUser-found w email id u = elim (Bool-cases (contains w.0 email)) [
  | inl found ↦ found
  | inr missing ↦ cc (some-injective [] (id ∷ u.others) (rw missing at u.found))
]

contains_more :
    (t : Text) (texts : List Text) (k : Text)
    → contains texts k ≡ true
    → contains (t ∷ texts) k ≡ true
unfolding contains
contains_more t texts k h = ground (arith, h)

contains_head : (t : Text) (texts : List Text) → contains (t ∷ texts) t ≡ true
unfolding contains
contains_head t texts = rw text_eq_refl refl

create_user-Keeps : (t : Text) (w : World) → Keeps small_service Member w (t ∷ w.0, w.1)
create_user-Keeps t w = record {
  members = λ id gid m. m;
  users = λ email id u.
      let before = IsUser-found w email id u in
      record {
        others = u.others;
        found = rw (contains_more t w.0 email before) (rw before at u.found);
      };
}

small_service-IsAdditive : IsAdditive small_service Member
small_service-IsAdditive = record {
  joined = λ id gid w h. contains_head (pair id gid) w.1;
  join_keeps = λ id gid w. record {
    members = λ i g m. contains_more (pair id gid) w.1 (pair i g) m;
    users = λ email i u. record { others = u.others; found = u.found };
  };
  update_keeps = λ id body w u. Keeps-refl small_service Member w;
  create_keeps = λ body w e. create_user-Keeps body.email w;
}

abbrev two_users : List UserSpec
two_users =
    record {
      email = txt "a@b.c";
      name = txt "Ann B C";
      groups = txt "ops" ∷ txt "vpn" ∷ [];
      enabled = true;
    }
    ∷ record { email = txt "d@b.c"; name = txt "Dan"; groups = txt "vpn" ∷ []; enabled = true }
    ∷ []

abbrev start : World
start = (txt "d@b.c" ∷ [], [])

split_name_test : split_name (txt " Ann  B C ") ≡ (txt "Ann", txt "B C")
unfolding txt split_name first_and_last fields words add_field trim_space trim_left_func
    trim_right_func is_space join
split_name_test = refl

ensure_users-Keeps_example :
    Keeps small_service Member start (ensure_users small_service (txt "acme") two_users start).1
ensure_users-Keeps_example =
    ensure_users-Keeps small_service Member small_service-IsAdditive (txt "acme") two_users start

-- Of the two users, the first is created.
new_emails_test : new_emails (was_there small_service start) two_users ≡ txt "a@b.c" ∷ []
unfolding txt new_emails was_there is_found also contains text_eq
new_emails_test = refl
