-- ===== src/Keycloak/Sample.antt =====
-- A small server that keeps to the contract, for the tests.
use mathlib.Core.List.{Memᴰ}
use mathlib.Core.Option.{some-injective}
use mksrv.Common.{
  subst, ℕ, ◌≡◌, refl, Bool, true, false, some, List, [], ◌∷◌, All, All-imp, All-contains, Text,
  txt, text_eq, text_eq_refl, contains, if◌then◌else◌, arith,
}
use mksrv.Keycloak.Users.{Group}
use mksrv.Keycloak.Admin.{
  mapper_name, Named, Request, create_realm, set_theme, set_smtp, create_group, create_client,
  update_client, create_mapper, assign_roles, Admin,
}
use mksrv.Keycloak.Contract.{
  Entity, realm, group, client, identified, mapper, role, accepted, Makes, IsDocumented,
}

-- A client's id is its client id; a mapper or a role stands beside its owner.
pub record Shop : Type 0 where
  pub opened : Bool
  pub groups : List Text
  pub clients : List Text
  pub mappers : List (Text × Text)
  pub roles : List (Text × Text)
  pub log : List Request

abbrev pub owned : Text → List (Text × Text) → List Text
owned owner [] = []
owned owner ((o, name) ∷ pairs) =
    if text_eq o owner then name ∷ owned owner pairs else owned owner pairs

abbrev pub Has : Shop → Entity → Type 0
Has w realm = w.opened ≡ true
Has w (group name) = contains w.groups name ≡ true
Has w (client id) = contains w.clients id ≡ true
Has w (identified uuid id) = (uuid ≡ id) × (contains w.clients id ≡ true)
Has w (mapper uuid name) = contains (owned uuid w.mappers) name ≡ true
Has w (role gid name) = contains (owned gid w.roles) name ≡ true
Has w (accepted r) = Memᴰ r w.log

abbrev as_groups : List Text → List Group
as_groups [] = []
as_groups (name ∷ names) = record { id = name; name = name } ∷ as_groups names

abbrev as_named : List Text → List Named
as_named [] = []
as_named (name ∷ names) = record { id = name; name = name } ∷ as_named names

abbrev grant : Text → List Named → List (Text × Text) → List (Text × Text)
grant gid [] pairs = pairs
grant gid (r ∷ roles) pairs = (gid, r.name) ∷ grant gid roles pairs

abbrev change : Request → Shop → Shop
change (create_realm body) w = record w { opened = true }
change (set_theme theme) w = w
change (set_smtp body) w = w
change (create_group name) w = record w { groups = name ∷ w.groups }
change (create_client body) w = record w { clients = body.client_id ∷ w.clients }
change (update_client uuid body) w = w
change (create_mapper uuid m) w = record w { mappers = (uuid, mapper_name m) ∷ w.mappers }
change (assign_roles gid uuid roles) w = record w { roles = grant gid roles w.roles }

abbrev pub perform : Request → Shop → Shop
perform r w = let next = change r w in record next { log = r ∷ w.log }

abbrev status_of : Bool → ℕ
status_of true = 200
status_of false = 404

abbrev pub shop : Admin Shop
shop = record {
  realm = λ w. (status_of w.opened, []);
  groups = λ w. some (as_groups w.groups);
  clients = λ w. some (as_named w.clients);
  mappers = λ uuid w. some (owned uuid w.mappers);
  roles = λ uuid w. some (record { id = txt "r1"; name = txt "view-users" } ∷ []);
  assigned = λ gid uuid w. some (owned gid w.roles);
  secret = λ uuid w. some (txt "s3cret");
  write = λ r w. (true, perform r w);
}

contains_more :
    (t : Text) (texts : List Text) (k : Text)
    → contains texts k ≡ true
    → contains (t ∷ texts) k ≡ true
unfolding contains
contains_more t texts k h = ground (arith, h)

contains_head : (t : Text) (texts : List Text) → contains (t ∷ texts) t ≡ true
unfolding contains
contains_head t texts = rw text_eq_refl refl

owned_more :
    (owner o name : Text) (pairs : List (Text × Text)) (k : Text)
    → contains (owned owner pairs) k ≡ true
    → contains (owned owner ((o, name) ∷ pairs)) k ≡ true
unfolding contains
owned_more owner o name pairs k h = ground (arith, h)

owned_head :
    (owner name : Text) (pairs : List (Text × Text))
    → contains (owned owner ((owner, name) ∷ pairs)) name ≡ true
owned_head owner name pairs = rw text_eq_refl (contains_head name (owned owner pairs))

owned-grant :
    (owner gid : Text) (roles : List Named) (pairs : List (Text × Text)) (k : Text)
    → contains (owned owner pairs) k ≡ true
    → contains (owned owner (grant gid roles pairs)) k ≡ true
owned-grant owner gid [] pairs k h = h
owned-grant owner gid (r ∷ roles) pairs k h =
    owned_more owner gid r.name (grant gid roles pairs) k (owned-grant owner gid roles pairs k h)

granted_all :
    (gid : Text) (roles : List Named) (pairs : List (Text × Text))
    → All (λ r. contains (owned gid (grant gid roles pairs)) r.name ≡ true) roles
granted_all gid [] pairs = tt
granted_all gid (r ∷ roles) pairs = (
  owned_head gid r.name (grant gid roles pairs),
  All-imp (λ q h. owned_more gid gid r.name (grant gid roles pairs) q.name h) roles
      (granted_all gid roles pairs),
)

All_self : (texts : List Text) → All (λ t. contains texts t ≡ true) texts
All_self texts = (All-contains (λ t. contains texts t ≡ true) texts).1 (λ k e. e)

All-as_groups :
    (P : Text → Type 0) (names : List Text) → All P names → All (λ g. P g.name) (as_groups names)
All-as_groups P [] h = tt
All-as_groups P (n ∷ names) h = (h.0, All-as_groups P names h.1)

All-as_named :
    (P : Text → Type 0) (names : List Text)
    → All P names
    → All (λ c. P c.name × ((c.id ≡ c.name) × P c.name)) (as_named names)
All-as_named P [] h = tt
All-as_named P (n ∷ names) h = ((h.0, (refl, h.0)), All-as_named P names h.1)

perform-Makes : (r : Request) (w : Shop) → Makes Has (perform r w) r
perform-Makes (create_realm body) w = refl
perform-Makes (set_theme theme) w = tt
perform-Makes (set_smtp body) w = tt
perform-Makes (create_group name) w = contains_head name w.groups
perform-Makes (create_client body) w = contains_head body.client_id w.clients
perform-Makes (update_client uuid body) w = tt
perform-Makes (create_mapper uuid m) w = owned_head uuid (mapper_name m) w.mappers
perform-Makes (assign_roles gid uuid roles) w = granted_all gid roles w.roles

perform-Has : (r : Request) (w : Shop) (e : Entity) → Has w e → Has (perform r w) e
perform-Has r w (accepted q) h = Memᴰ.tail h
perform-Has (create_realm body) w realm h = refl
perform-Has (create_group name) w (group n) h = contains_more name w.groups n h
perform-Has (create_client body) w (client id) h = contains_more body.client_id w.clients id h
perform-Has (create_client body) w (identified uuid id) h =
    (h.0, contains_more body.client_id w.clients id h.1)
perform-Has (create_mapper uuid m) w (mapper u n) h =
    owned_more u uuid (mapper_name m) w.mappers n h
perform-Has (assign_roles gid uuid roles) w (role g n) h = owned-grant g gid roles w.roles n h
perform-Has r w e h = h

shop_found :
    (w : Shop) (opened : Bool) → w.opened ≡ opened → status_of opened ≡ 200 → w.opened ≡ true
shop_found w true e h = e
shop_found w false e h = absurd (omega arith)

pub shop-IsDocumented : IsDocumented shop Has
shop-IsDocumented = record {
  makes = λ r w ok. (Memᴰ.head refl, perform-Makes r w);
  adds = λ r w a. perform-Has r w;
  realm_found = λ w h. shop_found w w.opened refl h;
  groups_listed = λ w groups h.
      subst (All (λ g. Has w (group g.name))) (some-injective _ _ h)
        (All-as_groups (λ n. Has w (group n)) w.groups (All_self w.groups));
  clients_listed = λ w clients h.
      subst (All (λ c. Has w (client c.name) × Has w (identified c.id c.name)))
        (some-injective _ _ h)
        (All-as_named (λ n. Has w (client n)) w.clients (All_self w.clients));
  mappers_listed = λ uuid w names h.
      subst (All (λ n. Has w (mapper uuid n))) (some-injective _ _ h)
        (All_self (owned uuid w.mappers));
  roles_assigned = λ gid uuid w names h.
      subst (All (λ n. Has w (role gid n))) (some-injective _ _ h) (All_self (owned gid w.roles));
}

abbrev pub empty_shop : Shop
empty_shop = record {
  opened = false;
  groups = [];
  clients = txt "realm-management" ∷ [];
  mappers = [];
  roles = [];
  log = [];
}
