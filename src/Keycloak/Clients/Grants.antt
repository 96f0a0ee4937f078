-- ===== src/Keycloak/Clients/Grants.antt =====
-- What `grantTeamManagement` grants: the roles that are missing, and no others.
use mathlib.Core.List.{Memᴰ}
use mksrv.Common.{
  ◌↔◌, ◌⊎◌, sym, ap, ◌∙◌, subst, false, Option-cases, text_eq, text_eq_sound, text_eq_refl, ◌≢◌,
  ◌≡◌, refl, inl, inr, true, not, ◌&&◌, Bool-cases, Option, some, List, [], ◌∷◌, All, All-imp, Text,
  txt, text_eq_iff, lookup, contains, is_some, All-contains, arith,
}
use mksrv.Common.Effect.{
  require, read, Effect, IsPreorder, Effect-pure, Effect-require, Effect-map, Effect-bind,
}
use mksrv.Keycloak.Admin.{Named, assign_roles, Admin, add_named, admin_group_roles, missing_roles}
use mksrv.Keycloak.Contract.{
  Entity, role, accepted, Grows, Grows-IsPreorder, IsDocumented, send-Effect,
}
use mksrv.Keycloak.Clients.{
  group_ids, client_uuids, assign_missing, grant_team_management, grant_admin,
}

-- The names of roles.
abbrev pub names_of : List Named → List Text
names_of [] = []
names_of (r ∷ roles) = r.name ∷ names_of roles

-- Exactly those roles are granted that are asked for, that the client has, and that the group has not.
pub contains-missing_roles :
    (names : List Text) (by_name : List (Text × Text)) (has : List Text) (name : Text)
    → contains (names_of (missing_roles names by_name has)) name
      ≡ (contains names name && is_some (lookup by_name name) && not (contains has name))
unfolding missing_roles contains
contains-missing_roles [] by_name has name = refl
contains-missing_roles (n ∷ names) by_name has name =
    ground (arith, text_eq_iff n name, contains-missing_roles names by_name has name)

All-names_of :
    (P : Text → Type 0) (roles : List Named) → All (λ r. P r.name) roles → All P (names_of roles)
All-names_of P [] h = tt
All-names_of P (r ∷ roles) h = (h.0, All-names_of P roles h.1)

-- The state of the server lists the name with the id.
pub record IsListed {World : Type 0} (list : World → Option (List (Text × Text))) (name id : Text)
    (w : World) : Type 0 where
  pub ids : List (Text × Text)
  pub listed : list w ≡ some ids
  pub found : lookup ids name ≡ some id

-- What is given to the group, by what the server says before: the roles of the list for a team's admins
-- that the realm's management client has and the group has not, under their ids, and no others. All of
-- them are given in one request, and then the group has every role of the list that the client has.
pub record IsGranted {World : Type 0} (admin : Admin World) (Has : World → Entity → Type 0)
    (group : Text) (before after : World) : Type 0 where
  pub gid : Text
  pub uuid : Text
  pub group_listed : IsListed (group_ids admin) group gid before
  pub client_listed : IsListed (client_uuids admin) (txt "realm-management") uuid before
  pub roles : List Named
  pub listed : admin.roles uuid before ≡ some roles
  pub had : List Text
  pub assigned : admin.assigned gid uuid before ≡ some had
  pub given : List Named
  pub exactly :
      (r : Named)
      → Memᴰ r given ↔ (
          (contains admin_group_roles r.name ≡ true)
          × (lookup (add_named roles []) r.name ≡ some r.id)
          × (contains had r.name ≡ false))
  pub sent : (given ≡ []) ⊎ Has after (accepted (assign_roles gid uuid given))
  pub granted :
      (name : Text)
      → contains admin_group_roles name ≡ true
      → is_some (lookup (add_named roles []) name) ≡ true
      → Has after (role gid name)

-- A role of the list that the client has and the group has not.
abbrev IsMissing : List Text → List (Text × Text) → List Text → Named → Type 0
IsMissing names by_name has r =
    (contains names r.name ≡ true)
    × (lookup by_name r.name ≡ some r.id)
    × (contains has r.name ≡ false)

IsMissing-cons :
    (n : Text) (names : List Text) (by_name : List (Text × Text)) (has : List Text) (r : Named)
    → IsMissing names by_name has r
    → IsMissing (n ∷ names) by_name has r
unfolding contains
IsMissing-cons n names by_name has r (h, known, new) = (ground (arith, h), known, new)

IsMissing-Memᴰ :
    (n id : Text) (names : List Text) (by_name : List (Text × Text)) (has : List Text)
    (rest : List Named) (r : Named)
    → lookup by_name n ≡ some id
    → contains has n ≡ false
    → (Memᴰ r rest → IsMissing names by_name has r)
    → Memᴰ r (record { id = id; name = n } ∷ rest)
    → IsMissing (n ∷ names) by_name has r
unfolding contains
IsMissing-Memᴰ n id names by_name has rest r known new k (Memᴰ.head e) =
    subst (IsMissing (n ∷ names) by_name has) (sym e) (rw text_eq_refl refl, known, new)
IsMissing-Memᴰ n id names by_name has rest r known new k (Memᴰ.tail m) =
    IsMissing-cons n names by_name has r (k m)

missing_roles-IsMissing :
    (names : List Text) (by_name : List (Text × Text)) (has : List Text) (r : Named)
    → Memᴰ r (missing_roles names by_name has)
    → IsMissing names by_name has r
unfolding missing_roles
missing_roles-IsMissing [] by_name has r m = elim m [ ]
missing_roles-IsMissing (n ∷ names) by_name has r m =
    let rest = missing_roles-IsMissing names by_name has r in
    elim (Option-cases (lookup by_name n)) [
      | inl e ↦ IsMissing-cons n names by_name has r (rest (rw (missing_roles, e) at m))
      | inr (id, e) ↦ elim (Bool-cases (contains has n)) [
        | inl old ↦ IsMissing-cons n names by_name has r (rest (rw (missing_roles, e, old) at m))
        | inr new ↦
            IsMissing-Memᴰ n id names by_name has (missing_roles names by_name has) r e new rest
              (rw (missing_roles, e, new) at m)
      ]
    ]

IsMissing-missing_roles :
    (names : List Text) (by_name : List (Text × Text)) (has : List Text) (r : Named)
    → IsMissing names by_name has r
    → Memᴰ r (missing_roles names by_name has)
unfolding missing_roles contains
IsMissing-missing_roles [] by_name has r (h, _, _) = cc
IsMissing-missing_roles (n ∷ names) by_name has r (h, known, new) =
    elim (Bool-cases (text_eq n r.name)) [
      | inl same ↦
          let e = text_eq_sound n r.name same in
          rw (missing_roles, ap (lookup by_name) e ∙ known, ap (contains has) e ∙ new)
            (Memᴰ.head (ap (λ t. record { id = r.id; name = t }) (sym e)))
      | inr other ↦
          let rest = IsMissing-missing_roles names by_name has r (rw other at h, known, new) in
          elim (Option-cases (lookup by_name n)) [
            | inl e ↦ rw (missing_roles, e) rest
            | inr (id, e) ↦ elim (Bool-cases (contains has n)) [
              | inl old ↦ rw (missing_roles, e, old) rest
              | inr unheld ↦ rw (missing_roles, e, unheld) (Memᴰ.tail rest)
            ]
          ]
    ]

module _ {World : Type 0} {admin : Admin World} {Has : World → Entity → Type 0}
    (doc : IsDocumented admin Has) where
  abbrev order : IsPreorder (Grows admin Has)
  order = Grows-IsPreorder admin Has

  assign_missing-Effect :
      (gid uuid : Text) (want : List Named) (w : World)
      → Effect
          (Grows admin Has)
          (λ _ v.
            ((want ≡ []) ⊎ Has v (accepted (assign_roles gid uuid want)))
            × All (λ r. Has v (role gid r.name)) want)
          w
          (assign_missing admin gid uuid want w)
  unfolding assign_missing
  assign_missing-Effect gid uuid [] w = Effect-pure order _ tt w (inl refl, tt)
  assign_missing-Effect gid uuid (r ∷ want) w =
      Effect-map order _ _ w _ (send-Effect admin Has doc (assign_roles gid uuid (r ∷ want)) w tt)
        (λ _ v g sent. (inr sent.0, sent.1))

  -- A role that is not missing is assigned.
  has_role :
      (by_name : List (Text × Text)) (assigned : List Text) (gid : Text) (w : World)
      → All (λ name. Has w (role gid name)) assigned
      → All (λ r. Has w (role gid r.name)) (missing_roles admin_group_roles by_name assigned)
      → (name : Text) → contains admin_group_roles name ≡ true
      → is_some (lookup by_name name) ≡ true
      → Has w (role gid name)
  has_role by_name assigned gid w old new name wanted known =
      elim (Bool-cases (contains assigned name)) [
        | inl there ↦ (All-contains (λ n. Has w (role gid n)) assigned).0 old name there
        | inr missing ↦
            (All-contains (λ n. Has w (role gid n))
                (names_of (missing_roles admin_group_roles by_name assigned))).0
              (All-names_of (λ n. Has w (role gid n)) _ new) name
              (rw
                (
                  contains-missing_roles admin_group_roles by_name assigned name,
                  wanted,
                  known,
                  missing,
                )
                refl)
      ]

  -- A read leaves the state as it is.
  read-Effect :
      {A : Type 0} (f : World → Option A) (w v : World)
      → v ≡ w
      → Effect (Grows admin Has) (λ a u. (u ≡ w) × (f w ≡ some a)) v (read f v)
  read-Effect f w v same =
      Effect-require order (λ a u. (u ≡ w) × (f w ≡ some a)) (f v) v
        (λ a e. (same, ap f (sym same) ∙ e))

  found-Effect :
      {A : Type 0} (found : Option A) (w v : World)
      → v ≡ w
      → Effect (Grows admin Has) (λ a u. (u ≡ w) × (found ≡ some a)) v (require found v)
  found-Effect found w v same =
      Effect-require order (λ a u. (u ≡ w) × (found ≡ some a)) found v (λ a e. (same, e))

  pub grant_team_management-Effect :
      (group : Text) (w : World)
      → Effect
          (Grows admin Has)
          (λ _ v. IsGranted admin Has group w v)
          w
          (grant_team_management admin group w)
  unfolding grant_team_management
  grant_team_management-Effect group w =
      Effect-bind order _ _ (read (group_ids admin)) _ w (read-Effect (group_ids admin) w w refl)
        λ groups a g in_groups.
          Effect-bind order _ _ (require (lookup groups group)) _ a
            (found-Effect (lookup groups group) w a in_groups.0)
            λ gid b g is_group.
              Effect-bind order _ _ (read (client_uuids admin)) _ b
                (read-Effect (client_uuids admin) w b is_group.0)
                λ clients c g in_clients.
                  Effect-bind order _ _ (require (lookup clients (txt "realm-management"))) _ c
                    (found-Effect (lookup clients (txt "realm-management")) w c in_clients.0)
                    λ uuid d g is_client.
                      Effect-bind order _ _ (read (admin.roles uuid)) _ d
                        (read-Effect (admin.roles uuid) w d is_client.0)
                        λ roles e g listed.
                          Effect-bind order _ _ (read (admin.assigned gid uuid)) _ e
                            (read-Effect (admin.assigned gid uuid) w e listed.0)
                            λ has f g assigned.
                              let by_name = add_named roles [] in
                              let given = missing_roles admin_group_roles by_name has in
                              Effect-map order _ _ f _ (assign_missing-Effect gid uuid given f)
                                λ _ v g new. record {
                                  gid = gid;
                                  uuid = uuid;
                                  group_listed = record {
                                    ids = groups;
                                    listed = in_groups.1;
                                    found = is_group.1;
                                  };
                                  client_listed = record {
                                    ids = clients;
                                    listed = in_clients.1;
                                    found = is_client.1;
                                  };
                                  roles = roles;
                                  listed = listed.1;
                                  had = has;
                                  assigned = assigned.1;
                                  given = given;
                                  exactly = λ r. (
                                    missing_roles-IsMissing admin_group_roles by_name has r,
                                    IsMissing-missing_roles admin_group_roles by_name has r,
                                  );
                                  sent = new.0;
                                  granted =
                                      has_role by_name has gid v
                                        (All-imp
                                          (λ name h.
                                            g.still (role gid name) (
                                              subst (λ x. Has x (role gid name)) (sym assigned.0)
                                                h))
                                          has (doc.roles_assigned gid uuid w has assigned.1))
                                        new.1;
                                }

  pub grant_admin-Effect :
      (group : Text) (w : World)
      → Effect
          (Grows admin Has)
          (λ _ v. (group ≢ []) → IsGranted admin Has group w v)
          w
          (grant_admin admin group w)
  unfolding grant_admin
  grant_admin-Effect [] w = Effect-pure order _ tt w (λ h. absurd (h refl))
  grant_admin-Effect (c ∷ group) w =
      Effect-map order _ _ w _ (grant_team_management-Effect (c ∷ group) w) (λ _ v g q h. q)
