-- ===== src/Keycloak/Contract.antt =====
-- What the admin API of Keycloak documents, as far as internal/keycloak relies on it.
use mksrv.Common.{
  refl, none, Bool, Option, ◌⊎◌, txt, contains, subst, inl, inr, Option-cases, All-imp, ◌≡◌, true,
  some, List, [], ◌∷◌, All, Text,
}
use mathlib.Core.Option.{some-injective}
use mksrv.Common.Effect.{IsPreorder, Effect, Effect-attempt}
use mksrv.Common.Entries.{Entries, Entries-insert}
use mksrv.Keycloak.Users.{Group, add_groups}
use mksrv.Keycloak.Admin.{
  ClientSpec, ClientBody, client_body, origins_of, Mapper, mapper_name, Named, Request,
  create_realm, set_theme, set_smtp, create_group, create_client, update_client, create_mapper,
  assign_roles, Admin, add_named,
}
use mksrv.Keycloak.Clients.{group_ids, client_uuids, send}

-- What a realm can hold: itself, a group of a name, a client of a client id, the client id that a
-- client has, a mapper of a client, a role of a group, and a request that it has accepted, which its
-- admin events keep.
pub data Entity : Type 0 where
  realm : Entity
  group : Text → Entity
  client : Text → Entity
  identified : Text → Text → Entity
  mapper : Text → Text → Entity
  role : Text → Text → Entity
  accepted : Request → Entity

pub add_groups-Entries :
    (P : Text → Text → Type 0) (groups : List Group) (out : List (Text × Text))
    → All (λ g. P g.name g.id) groups
    → Entries P out
    → Entries P (add_groups groups out)
unfolding add_groups
add_groups-Entries P [] out h o = o
add_groups-Entries P (g ∷ groups) out h o =
    add_groups-Entries P groups _ h.1 (Entries-insert P out g.name g.id o h.0)

pub add_named-Entries :
    (P : Text → Text → Type 0) (named : List Named) (out : List (Text × Text))
    → All (λ c. P c.name c.id) named
    → Entries P out
    → Entries P (add_named named out)
unfolding add_named
add_named-Entries P [] out h o = o
add_named-Entries P (c ∷ named) out h o =
    add_named-Entries P named _ h.1 (Entries-insert P out c.name c.id o h.0)

-- The states through which requests that write lead.
pub data Reaches {World : Type 0} (admin : Admin World) (start : World) : World → Type 0 where
  here : Reaches admin start start
  next :
      {w : World} → Reaches admin start w → (r : Request) → Reaches admin start (admin.write r w).1

module _ {World : Type 0} {admin : Admin World} where
  pub Reaches-trans : {a b c : World} → Reaches admin a b → Reaches admin b c → Reaches admin a c
  Reaches-trans p here = p
  Reaches-trans p (next q r) = next (Reaches-trans p q) r

module _ {World : Type 0} (admin : Admin World) where
  -- Some state between two others is as `P` says.
  pub record IsAt (P : World → Type 0) (before after : World) : Type 0 where
    pub listing : World
    pub came : Reaches admin before listing
    pub led : Reaches admin listing after
    pub holds : P listing

  pub IsAt-now : (P : World → Type 0) (w : World) → P w → IsAt P w w
  IsAt-now P w h = record { listing = w; came = here; led = here; holds = h }

  pub IsAt-within :
      (P : World → Type 0) (a b c d : World)
      → Reaches admin a b
      → Reaches admin c d
      → IsAt P b c
      → IsAt P a d
  IsAt-within P a b c d p q h = record {
    listing = h.listing;
    came = Reaches-trans p h.came;
    led = Reaches-trans h.led q;
    holds = h.holds;
  }

module _ {World : Type 0} (admin : Admin World) (Has : World → Entity → Type 0) where
  -- Requests have led from one state to the other, and nothing is lost.
  pub record Grows (before after : World) : Type 0 where
    pub chain : Reaches admin before after
    pub still : (e : Entity) → Has before e → Has after e

  pub Grows-IsPreorder : IsPreorder Grows
  Grows-IsPreorder = record {
    at_once = λ w. record { chain = here; still = λ e h. h };
    later = λ a b c p q. record {
      chain = Reaches-trans p.chain q.chain;
      still = λ e h. q.still e (p.still e h);
    };
  }

module _ {World : Type 0} (Has : World → Entity → Type 0) where
  -- What a request that succeeds has made, beside being accepted.
  abbrev pub Makes : World → Request → Type 0
  Makes w (create_realm body) = Has w realm
  Makes w (set_theme theme) = Unit
  Makes w (set_smtp body) = Unit
  Makes w (create_group name) = Has w (group name)
  Makes w (create_client body) = Has w (client body.client_id)
  Makes w (update_client uuid body) = Unit
  Makes w (create_mapper uuid m) = Has w (mapper uuid (mapper_name m))
  Makes w (assign_roles gid uuid roles) = All (λ r. Has w (role gid r.name)) roles

  -- An update of a client takes nothing away when it leaves the client id as it is.
  abbrev pub IsAdditive : World → Request → Type 0
  IsAdditive w (update_client uuid body) = Has w (identified uuid body.client_id)
  IsAdditive w r = Unit

  -- What is listed is there.
  abbrev pub AreGroups : World → List (Text × Text) → Type 0
  AreGroups w ids = Entries (λ name id. Has w (group name)) ids

  abbrev pub IsClient : World → Text → Text → Type 0
  IsClient w client_id uuid = Has w (client client_id) × Has w (identified uuid client_id)

  abbrev pub AreClients : World → List (Text × Text) → Type 0
  AreClients w uuids = Entries (IsClient w) uuids

module _ {World : Type 0} (admin : Admin World) (Has : World → Entity → Type 0) where
  pub record IsDocumented : Type 0 where
    pub makes :
        (r : Request) (w : World)
        → (admin.write r w).0 ≡ true
        → Has (admin.write r w).1 (accepted r) × Makes Has (admin.write r w).1 r
    pub adds :
        (r : Request) (w : World)
        → IsAdditive Has w r
        → (e : Entity) → Has w e
        → Has (admin.write r w).1 e
    pub realm_found : (w : World) → (admin.realm w).0 ≡ 200 → Has w realm
    pub groups_listed :
        (w : World) (groups : List Group)
        → admin.groups w ≡ some groups
        → All (λ g. Has w (group g.name)) groups
    pub clients_listed :
        (w : World) (clients : List Named)
        → admin.clients w ≡ some clients
        → All (λ c. Has w (client c.name) × Has w (identified c.id c.name)) clients
    pub mappers_listed :
        (uuid : Text) (w : World) (names : List Text)
        → admin.mappers uuid w ≡ some names
        → All (λ name. Has w (mapper uuid name)) names
    pub roles_assigned :
        (gid uuid : Text) (w : World) (names : List Text)
        → admin.assigned gid uuid w ≡ some names
        → All (λ name. Has w (role gid name)) names

  pub send-Effect :
      IsDocumented
      → (r : Request) (w : World) → IsAdditive Has w r
      → Effect (Grows admin Has) (λ _ v. Has v (accepted r) × Makes Has v r) w (send admin r w)
  unfolding send
  send-Effect doc r w additive =
      Effect-attempt (λ v. Has v (accepted r) × Makes Has v r) (admin.write r) w
        (record { chain = next here r; still = doc.adds r w additive }) (doc.makes r w)

module _ {World : Type 0} {admin : Admin World} {Has : World → Entity → Type 0}
    (doc : IsDocumented admin Has) where
  pub group_ids-AreGroups :
      (w : World) (ids : List (Text × Text)) → group_ids admin w ≡ some ids → AreGroups Has w ids
  unfolding group_ids
  group_ids-AreGroups w ids e = elim (Option-cases (admin.groups w)) [
    | inl failed ↦ cc (rw (failed, group_ids) at e)
    | inr (groups, listed) ↦
        subst (AreGroups Has w)
          (some-injective (add_groups groups []) ids (rw (listed, group_ids) at e))
          (add_groups-Entries (λ name id. Has w (group name)) groups []
            (doc.groups_listed w groups listed) tt)
  ]

  pub client_uuids-AreClients :
      (w : World) (uuids : List (Text × Text))
      → client_uuids admin w ≡ some uuids
      → AreClients Has w uuids
  unfolding client_uuids
  client_uuids-AreClients w uuids e = elim (Option-cases (admin.clients w)) [
    | inl failed ↦ cc (rw (failed, client_uuids) at e)
    | inr (clients, listed) ↦
        subst (AreClients Has w)
          (some-injective (add_named clients []) uuids (rw (listed, client_uuids) at e))
          (add_named-Entries (IsClient Has w) clients [] (doc.clients_listed w clients listed) tt)
  ]

module _ {World : Type 0} (admin : Admin World) (Has : World → Entity → Type 0) where
  pub AreClients-Grows :
      (v w : World) (uuids : List (Text × Text))
      → Grows admin Has v w
      → AreClients Has v uuids
      → AreClients Has w uuids
  AreClients-Grows v w uuids g h = All-imp (λ entry c. (g.still _ c.0, g.still _ c.1)) uuids h

-- The body of a client as its specification wants it.
pub record IsBodyOf (spec : ClientSpec) (accounts : Option Bool) (body : ClientBody) : Type 0 where
  pub client_id : body.client_id ≡ spec.client_id
  pub public_client : body.public_client ≡ spec.public
  pub accounts_enabled : body.service_accounts_enabled ≡ accounts
  pub redirect_uris : body.redirect_uris ≡ spec.redirect_uris
  pub web_origins :
      (spec.web_origins ≡ some body.web_origins)
      ⊎ ((spec.web_origins ≡ none) × (body.web_origins ≡ txt "+" ∷ []))

pub client_body-IsBodyOf :
    (spec : ClientSpec) (accounts : Option Bool)
    → IsBodyOf spec accounts (client_body spec accounts)
unfolding client_body origins_of
client_body-IsBodyOf spec accounts = record {
  client_id = refl;
  public_client = refl;
  accounts_enabled = refl;
  redirect_uris = refl;
  web_origins = elim (Option-cases spec.web_origins) [
    | inl none_given ↦ rw none_given (inr (refl, refl))
    | inr (origins, given) ↦ rw given (inl refl)
  ];
}

module _ {World : Type 0} (admin : Admin World) (Has : World → Entity → Type 0) where
  -- The client is there, created or updated with the body that its specification wants.
  pub record IsApplied (spec : ClientSpec) (accounts : Option Bool) (w : World) : Type 0 where
    pub there : Has w (client spec.client_id)
    pub body : ClientBody
    pub is_body : IsBodyOf spec accounts body
    pub sent :
        Has w (accepted (create_client body))
        ⊎ ((uuid : Text) × Has w (identified uuid spec.client_id)
            × Has w (accepted (update_client uuid body)))

  pub IsApplied-Grows :
      (spec : ClientSpec) (accounts : Option Bool) (v w : World)
      → Grows admin Has v w
      → IsApplied spec accounts v
      → IsApplied spec accounts w
  IsApplied-Grows spec accounts v w g c = record {
    there = g.still _ c.there;
    body = c.body;
    is_body = c.is_body;
    sent = elim c.sent [
      | inl made ↦ inl (g.still _ made)
      | inr (uuid, known, made) ↦ inr (uuid, g.still _ known, g.still _ made)
    ];
  }

  -- The client has a mapper of that name: the one that is wanted was created, or one of the name was
  -- listed between two states.
  pub record IsMapped (uuid : Text) (m : Mapper) (before after : World) : Type 0 where
    pub there : Has after (mapper uuid (mapper_name m))
    pub made :
        Has after (accepted (create_mapper uuid m))
        ⊎ ((names : List Text) × IsAt admin (λ x. admin.mappers uuid x ≡ some names) before after
            × (contains names (mapper_name m) ≡ true))

  pub IsMapped-within :
      (uuid : Text) (m : Mapper) (a b c d : World)
      → Reaches admin a b
      → Grows admin Has c d
      → IsMapped uuid m b c
      → IsMapped uuid m a d
  IsMapped-within uuid m a b c d p g h = record {
    there = g.still _ h.there;
    made = elim h.made [
      | inl made ↦ inl (g.still _ made)
      | inr (names, at, found) ↦ inr (names, IsAt-within admin _ a b c d p g.chain at, found)
    ];
  }
