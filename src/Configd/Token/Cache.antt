-- ===== src/Configd/Token/Cache.antt =====
-- internal/configd/oidc.go: what `keyFor` does with the cache of keys.
use mksrv.Common.{
  ℕ, ◌-◌, ◌<◌, ◌≡◌, refl, sym, ◌∙◌, inl, inr, false, Option, some, List, arith, ltb, Bool-cases,
  Option-cases, Text, text_eq, text_eq_refl, lookup, keys, lookup-insert,
}
use mathlib.Core.Option.{some-ne-none}
use mksrv.Configd.Token.{CachedKeys, hour, cached_key, key_for}

-- The key stands in an entry of the cache that is younger than an hour.
pub record IsFreshKey {Key : Type 0} (clock : ℕ) (issuer kid : Text)
    (cache : List (Text × CachedKeys Key)) (key : Key) : Type 0 where
  pub entry : CachedKeys Key
  pub cached : lookup cache issuer ≡ some entry
  pub young : clock - entry.fetched < hour
  pub held : lookup entry.keys kid ≡ some key

-- A key and a cache that `keyFor` returns: the key is fresh, and other issuers keep their keys.
pub record KeepsCache {Key : Type 0} (clock : ℕ) (issuer kid : Text)
    (cache : List (Text × CachedKeys Key)) (outcome : Option Key × List (Text × CachedKeys Key))
    : Type 0 where
  pub fresh : (key : Key) → outcome.0 ≡ some key → IsFreshKey clock issuer kid outcome.1 key
  pub others :
      (other : Text) → text_eq issuer other ≡ false → lookup outcome.1 other ≡ lookup cache other

module _ {Key : Type 0} (fetch_jwks : Text → Option (List (Text × Key))) where
  cached_key_lem :
      (clock : ℕ) (issuer kid : Text) (cache : List (Text × CachedKeys Key)) (key : Key)
      → cached_key fetch_jwks clock issuer kid cache ≡ some key
      → IsFreshKey clock issuer kid cache key
  unfolding cached_key
  cached_key_lem clock issuer kid cache key e = elim (Option-cases (lookup cache issuer)) [
    | inl absent ↦ absurd (some-ne-none key (sym (rw (absent, cached_key) at e)))
    | inr (entry, found) ↦ elim (Bool-cases (ltb (clock - entry.fetched) hour)) [
      | inl y ↦ record {
        entry = entry;
        cached = found;
        young = ground (arith, y);
        held = rw (found, cached_key, y) at e;
      }
      | inr o ↦ absurd (some-ne-none key (sym (rw (found, cached_key, o) at e)))
    ]
  ]

  -- `keyFor` returns only keys that were fetched less than an hour ago, those of the cache that it
  -- leaves behind, and it keeps the keys of every other issuer.
  pub key_for-KeepsCache :
      (clock : ℕ) (issuer kid : Text) (cache : List (Text × CachedKeys Key))
      → KeepsCache clock issuer kid cache (key_for fetch_jwks clock issuer kid cache)
  unfolding key_for
  key_for-KeepsCache clock issuer kid cache =
      elim (Option-cases (cached_key fetch_jwks clock issuer kid cache)) [
        | inr (key, hit) ↦
            rw (hit, key_for)
              (record {
                fresh = λ k e. cached_key_lem clock issuer kid cache k (hit ∙ e);
                others = λ other ne. refl;
              })
        | inl miss ↦ elim (Option-cases (fetch_jwks issuer)) [
          | inl failed ↦
              rw (miss, key_for, failed) (record { fresh = λ k e. cc; others = λ other ne. refl })
          | inr (keys, fetched) ↦
              let entry : CachedKeys Key = record { keys = keys; fetched = clock } in
              rw (miss, key_for, fetched)
                (record {
                  fresh = λ k e. record {
                    entry = entry;
                    cached = rw (lookup-insert cache issuer entry issuer, text_eq_refl) refl;
                    young = omega arith;
                    held = e;
                  };
                  others = λ other ne. rw (lookup-insert cache issuer entry other, ne) refl;
                })
        ]
      ]
