-- ===== src/Headscale/Accounts.antt =====
-- internal/headscale/headscale.go: `EnsureUser`, `findUser` and `ExpireAPIKeysExcept`, over a server
-- whose state is a `World`. What the commands print is read by the JSON library, so that a list is
-- `none` when the command fails or its output is not read.
use mksrv.Common.{
  ◌≡◌, refl, sym, ap, ◌∙◌, inl, inr, Bool, true, false, ◌||◌, not, Option, none, some, List, [],
  ◌∷◌, arith, if◌then◌else◌, Bool-cases, Option-cases, is_empty, Text, text_eq, text_eq_sound,
  text_eq_refl, ◌≢◌, subst, contains,
}
use mathlib.Core.Option.{some-injective, some-ne-none}

pub record User : Type 0 where
  pub id : Text
  pub name : Text

-- The loop of `findUser`: the id of the first user of that name, or the empty text.
unfoldable pub find_in : List User → Text → Text
find_in [] name = []
find_in (u ∷ users) name = if text_eq u.name name then u.id else find_in users name

-- The commands that are used; one that writes says whether it succeeded.
pub record Headscale (World : Type 0) : Type 0 where
  pub users : World → Option (List User)
  pub create_user : Text → World → Bool × World
  pub api_keys : World → Option (List Text)
  pub expire_key : Text → World → Bool × World

-- The keys that `ExpireAPIKeysExcept` passes over.
abbrev pub is_skipped : Text → Text → Bool
is_skipped kept prefix = is_empty prefix || text_eq prefix kept

module _ {World : Type 0} (server : Headscale World) where
  unfoldable pub find_user : Text → World → Option Text
  find_user name w = elim (server.users w) [ none ↦ none | some users ↦ some (find_in users name) ]

  -- `EnsureUser` behind the creation: the id that is found then.
  unfoldable pub created_user : Option Text → Option Text
  created_user none = none
  created_user (some id) = if is_empty id then none else some id

  -- `EnsureUser` behind its first search.
  unfoldable pub create_missing : Text → Option Text → World → Option Text × World
  create_missing name none w = (none, w)
  create_missing name (some id) w =
      if not (is_empty id)
      then (some id, w)
      else let (ok, next) = server.create_user name w in
        (if ok then created_user (find_user name next) else none, next)

  unfoldable pub ensure_user : Text → World → Option Text × World
  ensure_user name w = create_missing name (find_user name w) w

  -- The loop of `ExpireAPIKeysExcept`, with the prefixes that it gave to the command.
  pub expire_others : Text → List Text → World → (Bool × List Text) × World
  expire_others kept [] w = ((true, []), w)
  expire_others kept (prefix ∷ keys) w =
      if is_skipped kept prefix
      then expire_others kept keys w
      else let (ok, next) = server.expire_key prefix w in
        let ((done, expired), last) : (Bool × List Text) × World = expire_others kept keys next in
        if ok then ((done, prefix ∷ expired), last) else ((false, prefix ∷ []), next)

  pub expire_api_keys_except : Text → World → (Bool × List Text) × World
  expire_api_keys_except kept w = elim (server.api_keys w) [
    | none ↦ ((false, []), w)
    | some keys ↦ expire_others kept keys w
  ]

  created_user-some :
      (found : Option Text) (id : Text)
      → created_user found ≡ some id
      → (found ≡ some id) × (is_empty id ≡ false)
  unfolding created_user
  created_user-some none id e = cc
  created_user-some (some []) id e = cc
  created_user-some (some (c ∷ s)) id e = (e, ap is_empty (sym (some-injective (c ∷ s) id e)))

  -- The id of the first user of the list with exactly that name.
  pub data IsFirst (name id : Text) : List User → Type 0 where
    here : {u : User} {users : List User} → u.name ≡ name → u.id ≡ id → IsFirst name id (u ∷ users)
    there :
        {u : User} {users : List User}
        → u.name ≢ name
        → IsFirst name id users
        → IsFirst name id (u ∷ users)

  -- The server lists the user under the id, which is not empty.
  pub record IsAccount (name id : Text) (w : World) : Type 0 where
    pub users : List User
    pub listed : server.users w ≡ some users
    pub first : IsFirst name id users
    pub named : is_empty id ≡ false

  -- The user has an account, and one that was there before is returned with nothing changed.
  pub record Ensures (name : Text) (before : World) (id : Text) (after : World) : Type 0 where
    pub account : IsAccount name id after
    pub untouched : (old : Text) → IsAccount name old before → (id ≡ old) × (after ≡ before)

  find_in-IsFirst :
      (users : List User) (name id : Text)
      → find_in users name ≡ id
      → is_empty id ≡ false
      → IsFirst name id users
  unfolding find_in
  find_in-IsFirst [] name id e n = cc (n, ap is_empty e)
  find_in-IsFirst (u ∷ users) name id e n = elim (Bool-cases (text_eq u.name name)) [
    | inl same ↦ here (text_eq_sound u.name name same) (rw same at e)
    | inr other ↦
        there (λ h. cc (text_eq_refl name, subst (λ t. text_eq t name ≡ false) h other))
          (find_in-IsFirst users name id (rw other at e) n)
  ]

  IsFirst-find_in :
      (users : List User) (name id : Text) → IsFirst name id users → find_in users name ≡ id
  unfolding find_in
  IsFirst-find_in [] name id f = elim f [ ]
  IsFirst-find_in (u ∷ users) name id (here same e) = rw (same, text_eq_refl) e
  IsFirst-find_in (u ∷ users) name id (there other f) = elim (Bool-cases (text_eq u.name name)) [
    | inl same ↦ absurd (other (text_eq_sound u.name name same))
    | inr h ↦ rw h (IsFirst-find_in users name id f)
  ]

  find_user-IsAccount :
      (name id : Text) (w : World)
      → find_user name w ≡ some id
      → is_empty id ≡ false
      → IsAccount name id w
  unfolding find_user
  find_user-IsAccount name id w e n = elim (Option-cases (server.users w)) [
    | inl failed ↦ absurd (some-ne-none id (sym (rw (failed, find_user) at e)))
    | inr (users, listed) ↦ record {
      users = users;
      listed = listed;
      first =
          find_in-IsFirst users name id
            (some-injective (find_in users name) id (rw (listed, find_user) at e)) n;
      named = n;
    }
  ]

  IsAccount-find_user :
      (name id : Text) (w : World) → IsAccount name id w → find_user name w ≡ some id
  unfolding find_user
  IsAccount-find_user name id w a =
      rw (a.listed, find_user) (ap some (IsFirst-find_in a.users name id a.first))

  create_missing-Ensures :
      (name : Text) (found : Option Text) (w : World) (id : Text)
      → find_user name w ≡ found
      → (create_missing name found w).0 ≡ some id
      → Ensures name w id (create_missing name found w).1
  unfolding create_missing
  create_missing-Ensures name none w id f e = cc
  create_missing-Ensures name (some (c ∷ s)) w id f e = record {
    account =
        find_user-IsAccount name id w (f ∙ e) (ap is_empty (sym (some-injective (c ∷ s) id e)));
    untouched =
        λ old a. (some-injective id old (sym e ∙ (sym f ∙ IsAccount-find_user name old w a)), refl);
  }
  create_missing-Ensures name (some []) w id f e = elim (Bool-cases (server.create_user name w).0) [
    | inr failed ↦ absurd (some-ne-none id (sym (rw failed at e)))
    | inl ok ↦
        let next = (server.create_user name w).1 in
        let found = created_user-some (find_user name next) id (rw ok at e) in
        record {
          account = find_user-IsAccount name id next found.0 found.1;
          untouched = λ old a.
              let same = some-injective [] old (sym f ∙ IsAccount-find_user name old w a) in
              cc (a.named, ap is_empty same);
        }
  ]

  -- When `EnsureUser` returns an id, the server lists a user of exactly that name under it, the first
  -- of that name, and the id is not empty. Where the server listed such a user before, the id is that
  -- user's, and nothing was changed.
  pub ensure_user-Ensures :
      (name : Text) (w : World) (id : Text)
      → (ensure_user name w).0 ≡ some id
      → Ensures name w id (ensure_user name w).1
  unfolding ensure_user
  ensure_user-Ensures name w id e = create_missing-Ensures name (find_user name w) w id refl e

-- The outcome of `ExpireAPIKeysExcept`: what it gave to the command that expires keys.
pub record Expires (kept : Text) (keys : List Text) (outcome : Bool × List Text) : Type 0 where
  pub spared : contains outcome.1 kept ≡ false
  pub known : (prefix : Text) → contains outcome.1 prefix ≡ true → contains keys prefix ≡ true
  pub others :
      outcome.0 ≡ true
      → (prefix : Text) → contains keys prefix ≡ true
      → is_skipped kept prefix ≡ false
      → contains outcome.1 prefix ≡ true

skip-Expires :
    (kept prefix : Text) (keys : List Text) (outcome : Bool × List Text)
    → is_skipped kept prefix ≡ true
    → Expires kept keys outcome
    → Expires kept (prefix ∷ keys) outcome
unfolding contains
skip-Expires kept prefix keys outcome skipped rest = record {
  spared = rest.spared;
  known = λ p h. ground (arith, rest.known p h);
  others = λ done p m o. elim (Bool-cases (text_eq prefix p)) [
    | inl same ↦
        let here : is_skipped kept p ≡ true =
          subst (λ q. is_skipped kept q ≡ true) (text_eq_sound prefix p same) skipped in
        cc
    | inr other ↦ rest.others done p (rw other at m) o
  ];
}

run-Expires :
    (kept prefix : Text) (keys expired : List Text) (done : Bool)
    → is_skipped kept prefix ≡ false
    → Expires kept keys (done, expired)
    → Expires kept (prefix ∷ keys) (done, prefix ∷ expired)
unfolding contains
run-Expires kept prefix keys expired done other rest = record {
  spared = ground (arith, other, rest.spared);
  known = λ p h. elim (Bool-cases (text_eq prefix p)) [
    | inl same ↦ rw same refl
    | inr differs ↦ rw (differs, rest.known p (rw differs at h)) refl
  ];
  others = λ d p m o. elim (Bool-cases (text_eq prefix p)) [
    | inl same ↦ rw same refl
    | inr differs ↦ rw (differs, rest.others d p (rw differs at m) o) refl
  ];
}

fail-Expires :
    (kept prefix : Text) (keys : List Text)
    → is_skipped kept prefix ≡ false
    → Expires kept (prefix ∷ keys) (false, prefix ∷ [])
unfolding contains
fail-Expires kept prefix keys other = record {
  spared = ground (arith, other);
  known = λ p h. elim (Bool-cases (text_eq prefix p)) [
    | inl same ↦ rw same refl
    | inr differs ↦ cc (rw differs at h)
  ];
  others = λ d p m o. cc;
}

module _ {World : Type 0} (server : Headscale World) where
  expire_others-Expires :
      (kept : Text) (keys : List Text) (w : World)
      → Expires kept keys (expire_others server kept keys w).0
  unfolding expire_others contains
  expire_others-Expires kept [] w = record {
    spared = refl;
    known = λ p h. h;
    others = λ h p m o. m;
  }
  expire_others-Expires kept (prefix ∷ keys) w = elim (Bool-cases (is_skipped kept prefix)) [
    | inl skipped ↦
        rw skipped (skip-Expires kept prefix keys _ skipped (expire_others-Expires kept keys w))
    | inr other ↦
        let next = (server.expire_key prefix w).1 in
        elim (Bool-cases (server.expire_key prefix w).0) [
          | inl ok ↦
              rw (other, ok)
                (run-Expires kept prefix keys _ _ other (expire_others-Expires kept keys next))
          | inr failed ↦ rw (other, failed) (fail-Expires kept prefix keys other)
        ]
  ]

  -- When the server lists the keys, `ExpireAPIKeysExcept` never gives the key that is kept to the
  -- command that expires keys, gives it listed keys only, and when it succeeds it has given it every
  -- other listed key that has a prefix.
  pub expire_api_keys_except-Expires :
      (kept : Text) (w : World) (keys : List Text)
      → server.api_keys w ≡ some keys
      → Expires kept keys (expire_api_keys_except server kept w).0
  unfolding expire_api_keys_except
  expire_api_keys_except-Expires kept w keys listed =
      rw (expire_api_keys_except, listed) (expire_others-Expires kept keys w)
