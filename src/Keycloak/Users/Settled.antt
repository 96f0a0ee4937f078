-- ===== src/Keycloak/Users/Settled.antt =====
-- What `EnsureUsers` leaves on the server.
use mksrv.Common.{
  ◌≡◌, refl, sym, ap, ◌∙◌, subst, inl, inr, Bool, true, false, Option, none, some, List, [], ◌∷◌,
  Bool-cases, Option-cases, Text, lookup, All-imp,
}
use mathlib.Core.Option.{some-injective, some-ne-none}
use mksrv.Keycloak.Users.{
  UserSpec, UsersResult, body_of, Service, group_ids, created_id, upsert_user, ensure_user,
  join_groups, count_user, ensure_each, ensure_users,
}
use mksrv.Keycloak.Users.Kept.{
  Keeps-refl, Keeps-trans, IsUser, InGroup, Settles, Joins, Upserts, Keeps, IsAdditive,
}

module _ {World : Type 0} (service : Service World) (Member : World → Text → Text → Type 0)
    (additive : IsAdditive service Member) where
  created_id-IsUser :
      (email : Text) (w : World) (id : Text) (existed : Bool)
      → created_id (service.find_users email w) ≡ some (id, existed)
      → IsUser service Member w email id
  unfolding created_id
  created_id-IsUser email w id existed e = of_found (service.find_users email w) refl e
    where
      of_found :
          (found : Option (List Text))
          → service.find_users email w ≡ found
          → created_id found ≡ some (id, existed)
          → IsUser service Member w email id
      of_found none h k = cc
      of_found (some []) h k = cc
      of_found (some (first ∷ others)) h k =
          let same = ap (λ p. p.0) (some-injective (first, false) (id, existed) k) in
          record { others = others; found = h ∙ ap (λ x. some (x ∷ others)) same }

  pub upsert_user-Upserts :
      (u : UserSpec) (found : Option (List Text)) (w : World)
      → service.find_users u.email w ≡ found
      → Upserts service Member u w (upsert_user service u found w)
  unfolding upsert_user body_of
  upsert_user-Upserts u none w e = record {
    keeps = Keeps-refl service Member w;
    user = λ id existed h. cc;
  }
  upsert_user-Upserts u (some (first ∷ others)) w e =
      let is_it : IsUser service Member w u.email first = record { others = others; found = e } in
      let kept = additive.update_keeps first (body_of u) w is_it in
      record {
        keeps = kept;
        user = λ id existed h. elim (Bool-cases (service.update_user first (body_of u) w).0) [
          | inl ok ↦
              let same = some-injective (first, true) (id, existed) (rw ok at h) in
              subst
                (λ p. IsUser service Member (service.update_user first (body_of u) w).1 u.email p.0)
                same (kept.users u.email first is_it)
          | inr failed ↦ absurd (some-ne-none (id, existed) (sym (rw failed at h)))
        ];
      }
  upsert_user-Upserts u (some []) w e = record {
    keeps = additive.create_keeps (body_of u) w e;
    user = λ id existed h. elim (Bool-cases (service.create_user (body_of u) w).0) [
      | inl ok ↦
          created_id-IsUser u.email (service.create_user (body_of u) w).1 id existed (rw ok at h)
      | inr failed ↦ absurd (some-ne-none (id, existed) (sym (rw failed at h)))
    ];
  }

  pub join_groups-Joins :
      (ids : List (Text × Text)) (id : Text) (groups : List Text) (w : World)
      → Joins service Member ids id groups w (join_groups service ids id groups w)
  unfolding join_groups
  join_groups-Joins ids id [] w = record { keeps = Keeps-refl service Member w; member = λ h. tt }
  join_groups-Joins ids id (g ∷ groups) w = elim (Option-cases (lookup ids g)) [
    | inl unknown ↦
        rw (join_groups, unknown) (record { keeps = Keeps-refl service Member w; member = λ h. cc })
    | inr (gid, known) ↦
        let next = (service.join_group id gid w).1 in
        let kept = additive.join_keeps id gid w in
        elim (Bool-cases (service.join_group id gid w).0) [
          | inr failed ↦ rw (join_groups, known, failed) (record { keeps = kept; member = λ h. cc })
          | inl ok ↦
              let rest = join_groups-Joins ids id groups next in
              rw (join_groups, known, ok)
                (record {
                  keeps = Keeps-trans service Member kept rest.keeps;
                  member = λ h. (
                    record {
                      gid = gid;
                      known = known;
                      member = rest.keeps.members id gid (additive.joined id gid w ok);
                    },
                    rest.member h,
                  );
                })
        ]
  ]

  InGroup-Keeps :
      (ids : List (Text × Text)) (before after : World) (id : Text)
      → Keeps service Member before after
      → (name : Text) → InGroup service Member ids before id name
      → InGroup service Member ids after id name
  InGroup-Keeps ids before after id keeps name g = record {
    gid = g.gid;
    known = g.known;
    member = keeps.members id g.gid g.member;
  }

  pub ensure_each-Settles :
      (ids : List (Text × Text)) (users : List UserSpec) (result : UsersResult) (w : World)
      → Settles service Member ids users w (ensure_each service ids users result w)
  unfolding ensure_each ensure_user
  ensure_each-Settles ids [] result w = record {
    keeps = Keeps-refl service Member w;
    settled = λ h. tt;
  }
  ensure_each-Settles ids (u ∷ users) result w =
      let next = (ensure_user service u w).1 in
      let upserts = upsert_user-Upserts u (service.find_users u.email w) w refl in
      elim (Option-cases (ensure_user service u w).0) [
        | inl failed ↦
            rw (ensure_each, failed) (record { keeps = upserts.keeps; settled = λ h. cc })
        | inr ((id, existed), found) ↦
            let joins = join_groups-Joins ids id u.groups next in
            let joined = (join_groups service ids id u.groups next).1 in
            let both : Keeps service Member w joined =
              Keeps-trans service Member upserts.keeps joins.keeps in
            elim (Bool-cases (join_groups service ids id u.groups next).0) [
              | inr refused ↦
                  rw (ensure_each, found, refused) (record { keeps = both; settled = λ h. cc })
              | inl ok ↦
                  let now = count_user service result u.email existed in
                  let rest = ensure_each-Settles ids users now joined in
                  rw (ensure_each, found, ok)
                    (record {
                      keeps = Keeps-trans service Member both rest.keeps;
                      settled = λ h. (
                        record {
                          id = id;
                          user =
                              (Keeps-trans service Member joins.keeps rest.keeps).users u.email id
                                (upserts.user id existed found);
                          groups =
                              All-imp (InGroup-Keeps ids joined _ id rest.keeps) u.groups
                                (joins.member ok);
                        },
                        rest.settled h,
                      );
                    })
            ]
      ]

  -- `EnsureUsers` takes nothing away, even when it stops at an error: whoever was in a group still
  -- is, and every address that was found still is. The server is assumed to add to what it holds.
  pub ensure_users-Keeps :
      (realm : Text) (users : List UserSpec) (w : World)
      → Keeps service Member w (ensure_users service realm users w).1
  unfolding ensure_users
  ensure_users-Keeps realm users w = elim (Option-cases (group_ids service w)) [
    | inl failed ↦ rw (ensure_users, failed) (Keeps-refl service Member w)
    | inr (ids, listed) ↦ rw (ensure_users, listed) (ensure_each-Settles ids users _ w).keeps
  ]
