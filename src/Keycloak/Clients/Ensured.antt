-- ===== src/Keycloak/Clients/Ensured.antt =====
-- `EnsureClient`: the client, its audience mapper and its secret.
use mksrv.Common.{
  ◌≡◌, ◌≢◌, refl, inl, inr, Bool, true, false, Option-cases, none, some, List, [], ◌∷◌, Text,
  lookup, if◌then◌else◌,
}
use mksrv.Common.Effect.{
  pure, read, Effect, IsPreorder, Effect-pure, Effect-require, Effect-map, Effect-bind,
}
use mksrv.Common.Entries.{Entries-lookup}
use mksrv.Keycloak.Admin.{ClientSpec, audience, create_client, update_client, Admin, client_body}
use mksrv.Keycloak.Contract.{
  Entity, identified, accepted, Reaches, IsApplied, IsApplied-Grows, IsMapped, IsMapped-within,
  client_body-IsBodyOf, Grows, Grows-IsPreorder, IsClient, AreClients, IsDocumented, send-Effect,
  client_uuids-AreClients,
}
use mksrv.Keycloak.Clients.{
  client_uuids, send, find_client, put_client, ensure_audience_mapper, finish_client, ensure_client,
}
use mksrv.Keycloak.Clients.Mappers.{AreListed, mappers_listed-Effect, make_mapper-Effect}

module _ {World : Type 0} (admin : Admin World) (Has : World → Entity → Type 0) where
  -- The client is set, and has the id unless that is empty.
  pub record IsPut (spec : ClientSpec) (uuid : Text) (w : World) : Type 0 where
    pub set : IsApplied admin Has spec none w
    pub known : (uuid ≢ []) → Has w (identified uuid spec.client_id)

  -- The secret is that of the client, under its id, and the client has a mapper for its audience.
  pub record HasAudience (client_id secret : Text) (before after : World) : Type 0 where
    pub uuid : Text
    pub known : Has after (identified uuid client_id)
    pub mapped : IsMapped admin Has uuid (audience client_id) before after
    pub its_secret : admin.secret uuid after ≡ some secret

  -- The client is set; the secret of a public one is not returned, and a secret that is returned is
  -- that of the client, which then has the mapper for its audience.
  pub record IsReady (spec : ClientSpec) (before : World) (secret : Text) (after : World)
      : Type 0 where
    pub set : IsApplied admin Has spec none after
    pub unpublished : spec.public ≡ true → secret ≡ []
    pub audience : (secret ≢ []) → HasAudience spec.client_id secret before after

module _ {World : Type 0} {admin : Admin World} {Has : World → Entity → Type 0}
    (doc : IsDocumented admin Has) where
  abbrev order : IsPreorder (Grows admin Has)
  order = Grows-IsPreorder admin Has

  find_client-Effect :
      (client_id : Text) (w : World)
      → Effect
          (Grows admin Has)
          (λ uuid v. (uuid ≢ []) → Has v (identified uuid client_id))
          w
          (find_client admin client_id w)
  unfolding find_client
  find_client-Effect client_id w =
      Effect-bind order (λ uuids v. AreClients Has v uuids) _ (read (client_uuids admin)) _ w
        (Effect-require order (λ uuids v. AreClients Has v uuids) _ w
          (client_uuids-AreClients doc w))
        λ uuids v g listed. elim (Option-cases (lookup uuids client_id)) [
          | inl missing ↦ rw missing (Effect-pure order _ [] v (λ h. absurd (h refl)))
          | inr (uuid, found) ↦ rw found (
              Effect-pure order (λ id u. (id ≢ []) → Has u (identified id client_id)) uuid v
                (λ h. (Entries-lookup (IsClient Has v) uuids client_id uuid listed found).1))
        ]

  put_client-Effect :
      (spec : ClientSpec) (uuids : List (Text × Text)) (w : World)
      → AreClients Has w uuids
      → Effect
          (Grows admin Has)
          (λ uuid v. IsPut admin Has spec uuid v)
          w
          (put_client admin spec (lookup uuids spec.client_id) w)
  unfolding put_client client_body
  put_client-Effect spec uuids w h = elim (Option-cases (lookup uuids spec.client_id)) [
    | inl missing ↦
        let body = client_body spec none in
        rw missing (
          Effect-bind order (λ _ v. IsApplied admin Has spec none v)
            (λ uuid v. IsPut admin Has spec uuid v) (send admin (create_client body)) _ w
            (Effect-map order _ (λ _ v. IsApplied admin Has spec none v) w _
              (send-Effect admin Has doc (create_client body) w tt)
              (λ _ v g made. record {
                there = made.1;
                body = body;
                is_body = client_body-IsBodyOf spec none;
                sent = inl made.0;
              }))
            λ _ v g set.
              Effect-map order _ (λ uuid u. IsPut admin Has spec uuid u) v _
                (find_client-Effect spec.client_id v)
                λ uuid u g' known. record {
                  set = IsApplied-Grows admin Has spec none v u g' set;
                  known = known;
                })
    | inr (uuid, found) ↦
        let body = client_body spec none in
        let it = Entries-lookup (IsClient Has w) uuids spec.client_id uuid h found in
        rw found (
          Effect-bind order (λ _ v. Has v (accepted (update_client uuid body)) × Unit)
            (λ id v. IsPut admin Has spec id v) (send admin (update_client uuid body)) _ w
            (send-Effect admin Has doc (update_client uuid body) w it.1)
            λ _ v g sent.
              Effect-pure order (λ id u. IsPut admin Has spec id u) uuid v
                (record {
                  set = record {
                    there = g.still _ it.0;
                    body = body;
                    is_body = client_body-IsBodyOf spec none;
                    sent = inr (uuid, g.still _ it.1, sent.0);
                  };
                  known = λ n. g.still _ it.1;
                }))
  ]

  ensure_audience_mapper-Effect :
      (uuid client_id : Text) (w : World)
      → Effect
          (Grows admin Has)
          (λ _ v. IsMapped admin Has uuid (audience client_id) w v)
          w
          (ensure_audience_mapper admin uuid client_id w)
  unfolding ensure_audience_mapper
  ensure_audience_mapper-Effect uuid client_id w =
      Effect-bind order (λ have v. AreListed doc uuid have w v) _ (read (admin.mappers uuid)) _ w
        (mappers_listed-Effect doc uuid w)
        λ have v g listed. make_mapper-Effect doc uuid have (audience client_id) w v listed

  read_secret-Effect :
      (spec : ClientSpec) (uuid : Text) (start w : World) (is_public : Bool)
      → spec.public ≡ is_public
      → IsApplied admin Has spec none w
      → Has w (identified uuid spec.client_id)
      → IsMapped admin Has uuid (audience spec.client_id) start w
      → Effect
          (Grows admin Has)
          (λ secret v. IsReady admin Has spec start secret v)
          w
          ((if is_public then pure [] else read (admin.secret uuid)) w)
  read_secret-Effect spec uuid start w true e set known mapped =
      Effect-pure order (λ secret u. IsReady admin Has spec start secret u) [] w
        (record { set = set; unpublished = λ p. refl; audience = λ h. absurd (h refl) })
  read_secret-Effect spec uuid start w false e set known mapped =
      Effect-require order (λ secret u. IsReady admin Has spec start secret u) (admin.secret uuid w)
        w
        (λ secret found. record {
          set = set;
          unpublished = λ p. cc;
          audience =
              λ h. record { uuid = uuid; known = known; mapped = mapped; its_secret = found };
        })

  finish_client-Effect :
      (spec : ClientSpec) (uuid : Text) (start w : World)
      → Reaches admin start w
      → IsPut admin Has spec uuid w
      → Effect
          (Grows admin Has)
          (λ secret v. IsReady admin Has spec start secret v)
          w
          (finish_client admin spec uuid w)
  unfolding finish_client
  finish_client-Effect spec [] start w came put =
      Effect-pure order (λ secret v. IsReady admin Has spec start secret v) [] w
        (record { set = put.set; unpublished = λ p. refl; audience = λ h. absurd (h refl) })
  finish_client-Effect spec (c ∷ uuid) start w came put =
      Effect-bind order (λ _ v. IsMapped admin Has (c ∷ uuid) (audience spec.client_id) w v)
        (λ secret v. IsReady admin Has spec start secret v)
        (ensure_audience_mapper admin (c ∷ uuid) spec.client_id) _ w
        (ensure_audience_mapper-Effect (c ∷ uuid) spec.client_id w)
        λ _ v g mapped.
          read_secret-Effect spec (c ∷ uuid) start v spec.public refl
            (IsApplied-Grows admin Has spec none w v g put.set) (g.still _ (put.known (λ e. cc)))
            (IsMapped-within admin Has (c ∷ uuid) (audience spec.client_id) start w v v came
              (order.at_once v) mapped)

  ensure_client-Effect :
      (spec : ClientSpec) (w : World)
      → Effect
          (Grows admin Has)
          (λ secret v. IsReady admin Has spec w secret v)
          w
          (ensure_client admin spec w)
  unfolding ensure_client
  ensure_client-Effect spec w =
      Effect-bind order (λ uuids v. AreClients Has v uuids) _ (read (client_uuids admin)) _ w
        (Effect-require order (λ uuids v. AreClients Has v uuids) _ w
          (client_uuids-AreClients doc w))
        λ uuids v g listed.
          Effect-bind order (λ uuid u. IsPut admin Has spec uuid u) _
            (put_client admin spec (lookup uuids spec.client_id)) _ v
            (put_client-Effect spec uuids v listed)
            λ uuid u g' put. finish_client-Effect spec uuid w u (order.later w v u g g').chain put

  -- When `EnsureClient` returns a secret, the client is there, and was created or updated with the body
  -- that its specification wants. The secret is empty for a public client. A secret that is not empty
  -- is the one that the server has for a client of that client id, which has a mapper of the audience's
  -- name: one that puts it in the audience of its tokens was created, or one of the name was listed. The
  -- server is assumed to keep to what its API documents.
  pub ensure_client-IsReady :
      (spec : ClientSpec) (w : World) (secret : Text)
      → (ensure_client admin spec w).0 ≡ some secret
      → IsReady admin Has spec w secret (ensure_client admin spec w).1
  ensure_client-IsReady spec w secret e = (ensure_client-Effect spec w).gives secret e
