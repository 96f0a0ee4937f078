-- ===== src/Keycloak/Realm/Laws.antt =====
-- What the parts of `EnsureRealm` leave on the server.
use mksrv.Common.{
  ◌≡◌, ◌≢◌, refl, ◌⊎◌, false, subst, List-cases, text_eq_sound, itoa, arith, inl, inr, not, ◌&&◌,
  Bool-cases, Option-cases, Option, none, some, List, [], ◌∷◌, All, All-imp, Text, text_eq, lookup,
  contains, keys, ◌==◌, ==_iff, is_empty,
}
use mathlib.Core.Option.{some-injective}
use mksrv.Common.Effect.{
  Act, ◌>>◌, Effect, IsPreorder, Effect-pure, Effect-fail, Effect-map, Effect-bind, Effect-then,
}
use mksrv.Common.Entries.{Entries-lookup, Entries-keys}
use mksrv.Keycloak.Admin.{
  SmtpSpec, ClientSpec, RealmSpec, RealmResult, Request, create_realm, set_theme, set_smtp,
  create_group, create_client, update_client, Admin, client_body, realm_body, smtp_body, RealmBody,
}
use mksrv.Keycloak.Contract.{
  Entity, realm, group, client, accepted, here, IsApplied, IsApplied-Grows, client_body-IsBodyOf,
  Grows, Makes, IsAdditive, Grows-IsPreorder, AreGroups, IsClient, AreClients, IsDocumented,
  send-Effect, AreClients-Grows,
}
use mksrv.Keycloak.Clients.{send}
use mksrv.Keycloak.Realm.{
  Progress, on_world, note, make_realm, change_theme, open_realm, set_mail, make_group, make_groups,
  upsert_client, upsert_clients,
}

-- The server has grown, whatever became of the result.
pub record Advances {World : Type 0} (admin : Admin World) (Has : World → Entity → Type 0)
    (p q : Progress World) : Type 0 where
  pub grows : Grows admin Has p.world q.world

pub Advances-IsPreorder :
    {World : Type 0} (admin : Admin World) (Has : World → Entity → Type 0)
    → IsPreorder (Advances admin Has)
Advances-IsPreorder admin Has =
    let order = Grows-IsPreorder admin Has in
    record {
      at_once = λ p. record { grows = order.at_once p.world };
      later = λ p q r a b. record { grows = order.later p.world q.world r.world a.grows b.grows };
    }

-- The body of a new realm as its specification wants it.
pub record IsRealmBodyOf (spec : RealmSpec) (body : RealmBody) : Type 0 where
  pub realm : body.realm ≡ spec.realm
  pub display_name : body.display_name ≡ spec.display_name
  pub login_theme : (spec.login_theme ≢ []) → body.login_theme ≡ some spec.login_theme

realm_body-IsRealmBodyOf : (spec : RealmSpec) → IsRealmBodyOf spec (realm_body spec)
unfolding realm_body
realm_body-IsRealmBodyOf spec = record {
  realm = refl;
  display_name = refl;
  login_theme = λ themed. elim (List-cases spec.login_theme) [
    | inl e ↦ absurd (themed e)
    | inr (_, e) ↦ rw e refl
  ];
}

module _ {World : Type 0} (admin : Admin World) (Has : World → Entity → Type 0) where
  -- The realm was not found, and was created as its specification wants; or it was found, and it had the
  -- theme that is wanted, if one is, or was given it.
  pub record IsOpened (spec : RealmSpec) (before after : World) : Type 0 where
    pub there : Has after realm
    pub opened :
        (((admin.realm before).0 ≡ 404)
          × (body : RealmBody) × IsRealmBodyOf spec body
          × Has after (accepted (create_realm body)))
        ⊎ (((admin.realm before).0 ≡ 200)
            × ((spec.login_theme ≡ [])
                ⊎ ((admin.realm before).1 ≡ spec.login_theme)
                ⊎ Has after (accepted (set_theme spec.login_theme))))

  pub IsOpened-Grows :
      (spec : RealmSpec) (before v w : World)
      → Grows admin Has v w
      → IsOpened spec before v
      → IsOpened spec before w
  IsOpened-Grows spec before v w g o = record {
    there = g.still _ o.there;
    opened = elim o.opened [
      | inl (missing, body, is_body, made) ↦ inl (missing, body, is_body, g.still _ made)
      | inr (found, inl plain) ↦ inr (found, inl plain)
      | inr (found, inr (inl same)) ↦ inr (found, inr (inl same))
      | inr (found, inr (inr given)) ↦ inr (found, inr (inr (g.still _ given)))
    ];
  }

  -- The settings of mail that are wanted were accepted.
  abbrev pub HasMail : Option SmtpSpec → World → Type 0
  HasMail smtp w =
      (s : SmtpSpec)
      → smtp ≡ some s
      → Has w (
          accepted (
            set_smtp (record {
              host = s.host;
              port = itoa s.port;
              from = s.from;
              from_display_name = s.from_display;
              user = s.user;
              password = s.password;
            })))

theme_kept :
    (wanted theme : Text)
    → (not (is_empty wanted) && not (text_eq theme wanted)) ≡ false
    → (wanted ≡ []) ⊎ (theme ≡ wanted)
theme_kept [] theme e = inl refl
theme_kept (c ∷ wanted) theme e = inr (text_eq_sound theme (c ∷ wanted) (ground arith))

module _ {World : Type 0} {admin : Admin World} {Has : World → Entity → Type 0} where
  -- An action on the server is one of the whole.
  pub on_world-Effect :
      {A : Type 0} (Q : A → World → Type 0) (m : Act World A) (p : Progress World)
      → Effect (Grows admin Has) Q p.world (m p.world)
      → Effect (Advances admin Has) (λ a q. Q a q.world) p (on_world m p)
  unfolding on_world
  on_world-Effect Q m p e = record { keeps = record { grows = e.keeps }; gives = e.gives }

module _ {World : Type 0} {admin : Admin World} {Has : World → Entity → Type 0}
    (doc : IsDocumented admin Has) where
  abbrev order : IsPreorder (Advances admin Has)
  order = Advances-IsPreorder admin Has

  -- A request that is sent, and then noted in the result.
  send-note-Effect :
      (r : Request) (f : RealmResult → RealmResult) (p : Progress World)
      → IsAdditive Has p.world r
      → Effect
          (Advances admin Has)
          (λ _ q. Has q.world (accepted r) × Makes Has q.world r)
          p
          ((on_world (send admin r) >> note f) p)
  unfolding note
  send-note-Effect r f p additive =
      Effect-bind order (λ _ q. Has q.world (accepted r) × Makes Has q.world r)
        (λ _ q. Has q.world (accepted r) × Makes Has q.world r) (on_world (send admin r))
        (λ _. note f) p
        (on_world-Effect (λ _ v. Has v (accepted r) × Makes Has v r) (send admin r) p
          (send-Effect admin Has doc r p.world additive))
        (λ a q g made. record {
          keeps = record { grows = record { chain = here; still = λ e h. h } };
          gives = λ b e. made;
        })

  pub open_realm-Effect :
      (spec : RealmSpec) (p : Progress World)
      → Effect
          (Advances admin Has)
          (λ _ q. IsOpened admin Has spec p.world q.world)
          p
          (open_realm admin spec p)
  unfolding open_realm make_realm change_theme
  open_realm-Effect spec p = elim (Bool-cases ((admin.realm p.world).0 == 404)) [
    | inl missing ↦
        rw (missing, open_realm)
          (Effect-map order _ (λ _ q. IsOpened admin Has spec p.world q.world) p _
            (send-note-Effect (create_realm (realm_body spec)) _ p tt)
            (λ a q g made. record {
              there = made.1;
              opened = inl (
                (==_iff _ 404).0 missing,
                realm_body spec,
                realm_body-IsRealmBodyOf spec,
                made.0,
              );
            }))
    | inr no_404 ↦ elim (Bool-cases ((admin.realm p.world).0 == 200)) [
      | inr no_200 ↦ rw (no_404, no_200, open_realm) (Effect-fail order _ p)
      | inl found ↦
          let status = (==_iff _ 200).0 found in
          let there = doc.realm_found p.world status in
          elim (Bool-cases (
            not (is_empty spec.login_theme)
            && not (text_eq (admin.realm p.world).1 spec.login_theme))) [
              | inl other ↦
                  rw (no_404, found, other, open_realm)
                    (Effect-map order _ (λ _ q. IsOpened admin Has spec p.world q.world) p _
                      (send-note-Effect (set_theme spec.login_theme) _ p tt)
                      (λ a q g made. record {
                        there = g.grows.still realm there;
                        opened = inr (status, inr (inr made.0));
                      }))
              | inr same ↦
                  rw (no_404, found, same, open_realm)
                    (Effect-pure order (λ _ q. IsOpened admin Has spec p.world q.world) tt p
                      (record {
                        there = there;
                        opened = elim (theme_kept spec.login_theme (admin.realm p.world).1 same) [
                          | inl plain ↦ inr (status, inl plain)
                          | inr kept ↦ inr (status, inr (inl kept))
                        ];
                      }))
            ]
    ]
  ]

  pub set_mail-Effect :
      (smtp : Option SmtpSpec) (p : Progress World)
      → Effect
          (Advances admin Has)
          (λ _ q. HasMail admin Has smtp q.world)
          p
          (set_mail admin smtp p)
  unfolding set_mail smtp_body
  set_mail-Effect none p = Effect-pure order _ tt p (λ s e. cc)
  set_mail-Effect (some smtp) p =
      Effect-map order _ (λ _ q. HasMail admin Has (some smtp) q.world) p _
        (send-note-Effect (set_smtp (smtp_body smtp)) _ p tt)
        (λ _ q g sent s e.
          subst (λ t. Has q.world (accepted (set_smtp (smtp_body t)))) (some-injective smtp s e)
            sent.0)

  make_group-Effect :
      (existing : List (Text × Text)) (name : Text) (p : Progress World)
      → AreGroups Has p.world existing
      → Effect
          (Advances admin Has)
          (λ _ q. Has q.world (group name))
          p
          (make_group admin existing name p)
  unfolding make_group
  make_group-Effect existing name p h = elim (Bool-cases (contains (keys existing) name)) [
    | inl there ↦
        rw (there, make_group)
          (Effect-pure order (λ _ q. Has q.world (group name)) tt p
            (Entries-keys (λ n. Has p.world (group n)) existing name h there))
    | inr missing ↦
        rw (missing, make_group)
          (Effect-map order _ (λ _ q. Has q.world (group name)) p _
            (send-note-Effect (create_group name) _ p tt) (λ _ q g made. made.1))
  ]

  pub make_groups-Effect :
      (existing : List (Text × Text)) (names : List Text) (p : Progress World)
      → AreGroups Has p.world existing
      → Effect
          (Advances admin Has)
          (λ _ q. All (λ n. Has q.world (group n)) names)
          p
          (make_groups admin existing names p)
  unfolding make_groups
  make_groups-Effect existing [] p h = Effect-pure order _ tt p tt
  make_groups-Effect existing (name ∷ names) p h =
      Effect-then order (λ q. Has q.world (group name))
        (λ q. All (λ n. Has q.world (group n)) names) (make_group admin existing name)
        (make_groups admin existing names) p (λ q r a. a.grows.still (group name))
        (make_group-Effect existing name p h)
        (λ q a.
          make_groups-Effect existing names q
            (All-imp (λ entry. a.grows.still (group entry.0)) existing h))

  -- The body that `EnsureRealm` wants for a client.
  abbrev pub IsUpserted : ClientSpec → World → Type 0
  IsUpserted spec w = IsApplied admin Has spec (some (not spec.public)) w

  upsert_client-Effect :
      (existing : List (Text × Text)) (spec : ClientSpec) (p : Progress World)
      → AreClients Has p.world existing
      → Effect
          (Advances admin Has)
          (λ _ q. IsUpserted spec q.world)
          p
          (upsert_client admin existing spec p)
  unfolding upsert_client client_body
  upsert_client-Effect existing spec p h =
      let body = client_body spec (some (not spec.public)) in
      let is_body = client_body-IsBodyOf spec (some (not spec.public)) in
      elim (Option-cases (lookup existing spec.client_id)) [
        | inl missing ↦
            rw (missing, upsert_client)
              (Effect-map order _ (λ _ q. IsUpserted spec q.world) p _
                (send-note-Effect (create_client body) _ p tt)
                (λ a q g made. record {
                  there = made.1;
                  body = body;
                  is_body = is_body;
                  sent = inl made.0;
                }))
        | inr (uuid, found) ↦
            let it = Entries-lookup (IsClient Has p.world) existing spec.client_id uuid h found in
            rw (found, upsert_client)
              (Effect-map order _ (λ _ q. IsUpserted spec q.world) p _
                (on_world-Effect (λ _ v. Has v (accepted (update_client uuid body)) × Unit)
                  (send admin (update_client uuid body)) p
                  (send-Effect admin Has doc (update_client uuid body) p.world it.1))
                (λ a q g sent. record {
                  there = g.grows.still (client spec.client_id) it.0;
                  body = body;
                  is_body = is_body;
                  sent = inr (uuid, g.grows.still _ it.1, sent.0);
                }))
      ]

  pub upsert_clients-Effect :
      (existing : List (Text × Text)) (specs : List ClientSpec) (p : Progress World)
      → AreClients Has p.world existing
      → Effect
          (Advances admin Has)
          (λ _ q. All (λ c. IsUpserted c q.world) specs)
          p
          (upsert_clients admin existing specs p)
  unfolding upsert_clients
  upsert_clients-Effect existing [] p h = Effect-pure order _ tt p tt
  upsert_clients-Effect existing (spec ∷ specs) p h =
      Effect-then order (λ q. IsUpserted spec q.world) (λ q. All (λ c. IsUpserted c q.world) specs)
        (upsert_client admin existing spec) (upsert_clients admin existing specs) p
        (λ q r a. IsApplied-Grows admin Has spec _ q.world r.world a.grows)
        (upsert_client-Effect existing spec p h)
        (λ q a.
          upsert_clients-Effect existing specs q
            (AreClients-Grows admin Has p.world q.world existing a.grows h))
