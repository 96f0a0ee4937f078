-- ===== src/Keycloak/Clients/Mappers.antt =====
-- What `applyClaimMappers` leaves on the server.
use mksrv.Common.{
  ◌≡◌, refl, ◌⊎◌, inl, inr, Bool, true, false, Bool-cases, Option, none, some, List, [], ◌∷◌, ◌++◌,
  All, All-imp, Text, lookup, contains, is_empty, All-contains, is_empty, if◌then◌else◌, not, ◌&&◌,
}
use mksrv.Common.Effect.{
  require, read, Effect, IsPreorder, Effect-pure, Effect-require, Effect-map, Effect-bind,
  Effect-then,
}
use mksrv.Common.Entries.{Entries-lookup}
use mksrv.Keycloak.Admin.{
  ClientSpec, Mapper, hardcoded, mapper_name, group_membership, claim_mappers, create_mapper, Admin,
  wanted_mappers, needs_no_mapper,
}
use mksrv.Keycloak.Contract.{
  Entity, identified, mapper, Grows, Grows-IsPreorder, IsClient, AreClients, Reaches, here, IsAt,
  IsAt-now, IsAt-within, IsMapped, IsMapped-within, IsDocumented, send-Effect,
  client_uuids-AreClients, AreClients-Grows,
}
use mksrv.Keycloak.Clients.{
  client_uuids, make_mapper, make_mappers, known_uuids, add_mappers, apply_mappers,
  apply_all_mappers, apply_claim_mappers,
}

module _ {World : Type 0} (admin : Admin World) (Has : World → Entity → Type 0) where
  -- The client is there under an id, and has a mapper for each claim that its specification lists, and
  -- the one for groups if that is wanted.
  pub record HasClaims (spec : ClientSpec) (before after : World) : Type 0 where
    pub uuid : Text
    pub there : Has after (identified uuid spec.client_id)
    pub claims :
        All (λ c. IsMapped admin Has uuid (hardcoded c.0 c.1) before after) spec.hardcoded_claims
    pub groups : spec.groups_claim ≡ true → IsMapped admin Has uuid group_membership before after

  -- A client that wants no mapper is passed over.
  abbrev pub IsClaimed : ClientSpec → World → World → Type 0
  IsClaimed spec before after =
      ((spec.hardcoded_claims ≡ []) × (spec.groups_claim ≡ false)) ⊎ HasClaims spec before after

  pub IsClaimed-within :
      (spec : ClientSpec) (a b c d : World)
      → Reaches admin a b
      → Grows admin Has c d
      → IsClaimed spec b c
      → IsClaimed spec a d
  IsClaimed-within spec a b c d p g (inl nothing) = inl nothing
  IsClaimed-within spec a b c d p g (inr h) = inr (record {
    uuid = h.uuid;
    there = g.still _ h.there;
    claims =
        All-imp (λ claim. IsMapped-within admin Has h.uuid (hardcoded claim.0 claim.1) a b c d p g)
          spec.hardcoded_claims h.claims;
    groups =
        λ wanted. IsMapped-within admin Has h.uuid group_membership a b c d p g (h.groups wanted);
  })

  -- Every mapper of the list.
  abbrev AreMapped : Text → List Mapper → World → World → Type 0
  AreMapped uuid mappers before after = All (λ m. IsMapped admin Has uuid m before after) mappers

  -- From the list that the code makes to what the specification says.
  claims_of :
      (uuid : Text) (before after : World) (claims : List (Text × Text)) (rest : List Mapper)
      → AreMapped uuid (claim_mappers claims ++ rest) before after
      → All (λ c. IsMapped admin Has uuid (hardcoded c.0 c.1) before after) claims
        × AreMapped uuid rest before after
  unfolding claim_mappers
  claims_of uuid before after [] rest h = (tt, h)
  claims_of uuid before after ((claim, value) ∷ claims) rest (first, h) =
      let (others, behind) = claims_of uuid before after claims rest h in ((first, others), behind)

  groups_of :
      (uuid : Text) (before after : World) (wanted : Bool)
      → AreMapped uuid (if wanted then group_membership ∷ [] else []) before after
      → wanted ≡ true
      → IsMapped admin Has uuid group_membership before after
  groups_of uuid before after true h e = h.0
  groups_of uuid before after false h e = cc

  wanted_mappers-HasClaims :
      (spec : ClientSpec) (uuid : Text) (before after : World)
      → Has after (identified uuid spec.client_id)
      → AreMapped uuid (wanted_mappers spec) before after
      → HasClaims spec before after
  unfolding wanted_mappers
  wanted_mappers-HasClaims spec uuid before after known h =
      let (claims, groups) =
        claims_of uuid before after spec.hardcoded_claims
          (if spec.groups_claim then group_membership ∷ [] else []) h in
      record {
        uuid = uuid;
        there = known;
        claims = claims;
        groups = groups_of uuid before after spec.groups_claim groups;
      }

  -- The ids of clients that are known are those of clients that are there.
  pub AreKnown : Option (List (Text × Text)) → World → Type 0
  AreKnown none w = Unit
  AreKnown (some uuids) w = AreClients Has w uuids

  AreKnown-Grows :
      (known : Option (List (Text × Text))) (v w : World)
      → Grows admin Has v w
      → AreKnown known v
      → AreKnown known w
  unfolding AreKnown
  AreKnown-Grows none v w g h = tt
  AreKnown-Grows (some uuids) v w g h = AreClients-Grows admin Has v w uuids g h

plain_client :
    (claims : List (Text × Text)) (groups : Bool)
    → (is_empty claims && not groups) ≡ true
    → (claims ≡ []) × (groups ≡ false)
plain_client [] true e = cc
plain_client [] false e = (refl, refl)
plain_client (c ∷ claims) groups e = cc

module _ {World : Type 0} {admin : Admin World} {Has : World → Entity → Type 0}
    (doc : IsDocumented admin Has) where
  abbrev order : IsPreorder (Grows admin Has)
  order = Grows-IsPreorder admin Has

  -- The names were listed, and are those of mappers that are there.
  abbrev pub AreListed : Text → List Text → World → World → Type 0
  AreListed uuid have start w =
      IsAt admin (λ x. admin.mappers uuid x ≡ some have) start w
      × All (λ name. Has w (mapper uuid name)) have

  pub mappers_listed-Effect :
      (uuid : Text) (w : World)
      → Effect (Grows admin Has) (λ have v. AreListed uuid have w v) w (read (admin.mappers uuid) w)
  mappers_listed-Effect uuid w =
      Effect-require order (λ have v. AreListed uuid have w v) (admin.mappers uuid w) w
        (λ have e. (IsAt-now admin _ w e, doc.mappers_listed uuid w have e))

  pub make_mapper-Effect :
      (uuid : Text) (have : List Text) (m : Mapper) (start w : World)
      → AreListed uuid have start w
      → Effect
          (Grows admin Has)
          (λ _ v. IsMapped admin Has uuid m start v)
          w
          (make_mapper admin uuid have m w)
  unfolding make_mapper
  make_mapper-Effect uuid have m start w h = elim (Bool-cases (contains have (mapper_name m))) [
    | inl there ↦
        let it =
          (All-contains (λ name. Has w (mapper uuid name)) have).0 h.1 (mapper_name m) there in
        rw (there, make_mapper)
          (Effect-pure order (λ _ v. IsMapped admin Has uuid m start v) tt w
            (record { there = it; made = inr (have, h.0, there) }))
    | inr missing ↦
        rw (missing, make_mapper)
          (Effect-map order _ (λ _ v. IsMapped admin Has uuid m start v) w _
            (send-Effect admin Has doc (create_mapper uuid m) w tt)
            (λ _ v g sent. record { there = sent.1; made = inl sent.0 }))
  ]

  make_mappers-Effect :
      (uuid : Text) (have : List Text) (mappers : List Mapper) (start w : World)
      → AreListed uuid have start w
      → Effect
          (Grows admin Has)
          (λ _ v. AreMapped admin Has uuid mappers start v)
          w
          (make_mappers admin uuid have mappers w)
  unfolding make_mappers
  make_mappers-Effect uuid have [] start w h = Effect-pure order _ tt w tt
  make_mappers-Effect uuid have (m ∷ mappers) start w h =
      Effect-then order (λ v. IsMapped admin Has uuid m start v)
        (λ v. AreMapped admin Has uuid mappers start v) (make_mapper admin uuid have m)
        (make_mappers admin uuid have mappers) w
        (λ v u g. IsMapped-within admin Has uuid m start start v u here g)
        (make_mapper-Effect uuid have m start w h)
        (λ v g. make_mappers-Effect uuid have mappers start v (
          IsAt-within admin _ start start w v here g.chain h.0,
          All-imp (λ name. g.still (mapper uuid name)) have h.1,
        ))

  known_uuids-Effect :
      (known : Option (List (Text × Text))) (w : World)
      → AreKnown admin Has known w
      → Effect (Grows admin Has) (λ uuids v. AreClients Has v uuids) w (known_uuids admin known w)
  unfolding known_uuids AreKnown
  known_uuids-Effect none w h =
      Effect-require order (λ uuids v. AreClients Has v uuids) (client_uuids admin w) w
        (client_uuids-AreClients doc w)
  known_uuids-Effect (some uuids) w h = Effect-pure order (λ us v. AreClients Has v us) uuids w h

  add_mappers-Effect :
      (known : Option (List (Text × Text))) (spec : ClientSpec) (w : World)
      → AreKnown admin Has known w
      → Effect
          (Grows admin Has)
          (λ known' v. AreKnown admin Has known' v × IsClaimed admin Has spec w v)
          w
          (add_mappers admin known spec w)
  unfolding add_mappers AreKnown
  add_mappers-Effect known spec w h =
      Effect-bind order (λ uuids v. AreClients Has v uuids) _ (known_uuids admin known) _ w
        (known_uuids-Effect known w h)
        λ uuids v g clients.
          Effect-bind order (λ uuid u. IsClient Has u spec.client_id uuid) _
            (require (lookup uuids spec.client_id)) _ v
            (Effect-require order (λ uuid u. IsClient Has u spec.client_id uuid)
              (lookup uuids spec.client_id) v
              (λ uuid found.
                Entries-lookup (IsClient Has v) uuids spec.client_id uuid clients found))
            λ uuid u g' it.
              Effect-bind order (λ have t. AreListed uuid have u t) _ (read (admin.mappers uuid)) _
                u (mappers_listed-Effect uuid u)
                λ have t g'' listed.
                  let came = (order.later w v u g g').chain in
                  let from_start : AreListed uuid have w t =
                    (IsAt-within admin _ w u t t came here listed.0, listed.1) in
                  Effect-bind order (λ _ x. AreMapped admin Has uuid (wanted_mappers spec) w x) _
                    (make_mappers admin uuid have (wanted_mappers spec)) _ t
                    (make_mappers-Effect uuid have (wanted_mappers spec) w t from_start)
                    λ _ x g3 made. Effect-pure order _ (some uuids) x (
                      AreClients-Grows admin Has v x uuids
                          (order.later v u x g' (order.later u t x g'' g3)) clients,
                      inr (
                          wanted_mappers-HasClaims admin Has spec uuid w x
                            (g3.still _ (g''.still _ it.1)) made),
                    )

  apply_mappers-Effect :
      (known : Option (List (Text × Text))) (spec : ClientSpec) (w : World)
      → AreKnown admin Has known w
      → Effect
          (Grows admin Has)
          (λ known' v. AreKnown admin Has known' v × IsClaimed admin Has spec w v)
          w
          (apply_mappers admin known spec w)
  unfolding apply_mappers needs_no_mapper
  apply_mappers-Effect known spec w h = elim (Bool-cases (needs_no_mapper spec)) [
    | inl nothing ↦
        rw (nothing, apply_mappers)
          (Effect-pure order
            (λ known' v. AreKnown admin Has known' v × IsClaimed admin Has spec w v) known w
            (h, inl (plain_client spec.hardcoded_claims spec.groups_claim nothing)))
    | inr wanted ↦ rw (wanted, apply_mappers) (add_mappers-Effect known spec w h)
  ]

  apply_all_mappers-Effect :
      (specs : List ClientSpec) (known : Option (List (Text × Text))) (w : World)
      → AreKnown admin Has known w
      → Effect
          (Grows admin Has)
          (λ _ v. All (λ spec. IsClaimed admin Has spec w v) specs)
          w
          (apply_all_mappers admin specs known w)
  unfolding apply_all_mappers
  apply_all_mappers-Effect [] known w h = Effect-pure order _ tt w tt
  apply_all_mappers-Effect (spec ∷ specs) known w h =
      Effect-bind order (λ known' v. AreKnown admin Has known' v × IsClaimed admin Has spec w v) _
        (apply_mappers admin known spec) _ w (apply_mappers-Effect known spec w h)
        λ known' v g it.
          Effect-map order _ _ v (apply_all_mappers admin specs known' v)
            (apply_all_mappers-Effect specs known' v it.0)
            λ _ u g' rest. (
              IsClaimed-within admin Has spec w w v u here g' it.1,
              All-imp
                  (λ c.
                    IsClaimed-within admin Has c w v u u g.chain
                      ((Grows-IsPreorder admin Has).at_once u))
                  specs rest,
            )

  pub apply_claim_mappers-Effect :
      (specs : List ClientSpec) (w : World)
      → Effect
          (Grows admin Has)
          (λ _ v. All (λ spec. IsClaimed admin Has spec w v) specs)
          w
          (apply_claim_mappers admin specs w)
  unfolding apply_claim_mappers AreKnown
  apply_claim_mappers-Effect specs w = apply_all_mappers-Effect specs none w tt
