-- ===== src/Configd/Token.antt =====
-- internal/configd/oidc.go: `Verify`, `keyFor` and `VPNEntitled`.
pub mod Cache
use mathlib.Core.Option.{some-injective, some-ne-none}
use mksrv.Common.{
  ℕ, ◌+◌, ◌-◌, ◌*◌, ◌≡◌, refl, sym, ap, ◌∙◌, subst, ◌↔◌, inl, inr, Bool, true, false, not, Option,
  none, some, List, [], ◌∷◌, ◌++◌, arith, ltb, leb, if◌then◌else◌, Bool-cases, Option-cases, ◌>>=◌,
  Text, txt, text_eq, split, contains, lookup, insert, keys, ℤ, pos, negsuc,
}

-- The fields of the claims that the broker reads. The expiry is a Unix time.
pub record Claims : Type 0 where
  pub issuer : Text
  pub subject : Text
  pub expiry : ℤ
  pub groups : List Text

pub record TokenHeader : Type 0 where
  pub alg : Text
  pub kid : Text

unfoldable pub vpn_groups : List Text
vpn_groups = txt "vpn" ∷ txt "dev" ∷ txt "admin" ∷ []

unfoldable pub has_vpn_group : List Text → Bool
has_vpn_group [] = false
has_vpn_group (g ∷ groups) = if contains vpn_groups g then true else has_vpn_group groups

-- `VPNEntitled`
unfoldable pub vpn_entitled : Claims → Bool
vpn_entitled claims = has_vpn_group claims.groups

-- `now.Unix() >= claims.Expiry`, for a clock past 1970.
pub is_expired : ℕ → ℤ → Bool
is_expired now (pos expiry) = leb expiry now
is_expired now (negsuc n) = true

-- An hour in nanoseconds, the unit of time.Duration.
abbrev pub hour : ℕ
hour = 3600 * 1000000000

pub record CachedKeys (Key : Type 0) : Type 0 where
  pub keys : List (Text × Key)
  pub fetched : ℕ

-- `Key` is an RSA key; `fetch_jwks` what `fetchJWKS` gets from the realm of an issuer.
module _ {Key : Type 0} (fetch_jwks : Text → Option (List (Text × Key))) where
  -- The cached key, while its entry is younger than an hour.
  unfoldable pub cached_key : ℕ → Text → Text → List (Text × CachedKeys Key) → Option Key
  cached_key clock issuer kid cache = do
    entry ← lookup cache issuer
    if ltb (clock - entry.fetched) hour then lookup entry.keys kid else none

  -- `keyFor`, and the cache that it leaves behind. `clock` is the time in nanoseconds.
  unfoldable pub key_for :
      ℕ → Text → Text → List (Text × CachedKeys Key) → Option Key × List (Text × CachedKeys Key)
  key_for clock issuer kid cache = elim (cached_key clock issuer kid cache) [
    | some key ↦ (some key, cache)
    | none ↦ elim (fetch_jwks issuer) [
      | none ↦ (none, cache)
      | some keys ↦ (lookup keys kid, insert cache issuer (record { keys = keys; fetched = clock }))
    ]
  ]

  -- `decode_header` and `decode_claims` are base64 and JSON decoding, `decode_signature` base64, and
  -- `is_signed` is the RS256 check of a signature under a key.
  module _ (decode_header : Text → Option TokenHeader) (decode_claims : Text → Option Claims)
      (decode_signature : Text → Option Text) (is_signed : Key → Text → Text → Bool) where
    abbrev Outcome : Type 0
    Outcome = Option Claims × List (Text × CachedKeys Key)

    -- From the call of `keyFor` on.
    pub verify_signature :
        Text → Text → Text → Claims → Option Key × List (Text × CachedKeys Key) → Outcome
    verify_signature header_part claims_part signature_part claims (none, cache) = (none, cache)
    verify_signature header_part claims_part signature_part claims (some key, cache) =
        elim (decode_signature signature_part) [
          | none ↦ (none, cache)
          | some signature ↦ (
            if is_signed key (header_part ++ (txt "." ++ claims_part)) signature
                then some claims
                else none,
            cache,
          )
        ]

    pub verify_claims :
        ℕ
        → ℕ
        → List Text
        → Text
        → Text
        → Text
        → TokenHeader
        → Claims
        → List (Text × CachedKeys Key)
        → Outcome
    verify_claims now clock allowed h c s header claims cache =
        if not (contains allowed claims.issuer)
        then (none, cache)
        else if is_expired now claims.expiry
        then (none, cache)
        else verify_signature h c s claims (key_for clock claims.issuer header.kid cache)

    pub verify_header :
        ℕ
        → ℕ
        → List Text
        → Text
        → Text
        → Text
        → TokenHeader
        → List (Text × CachedKeys Key)
        → Outcome
    verify_header now clock allowed h c s header cache =
        if not (text_eq header.alg (txt "RS256")) then (none, cache) else elim (decode_claims c) [
          | none ↦ (none, cache)
          | some claims ↦ verify_claims now clock allowed h c s header claims cache
        ]

    pub verify_parts : ℕ → ℕ → List Text → List Text → List (Text × CachedKeys Key) → Outcome
    verify_parts now clock allowed [] cache = (none, cache)
    verify_parts now clock allowed (h ∷ []) cache = (none, cache)
    verify_parts now clock allowed (h ∷ c ∷ []) cache = (none, cache)
    verify_parts now clock allowed (h ∷ c ∷ s ∷ []) cache = elim (decode_header h) [
      | none ↦ (none, cache)
      | some header ↦ verify_header now clock allowed h c s header cache
    ]
    verify_parts now clock allowed (h ∷ c ∷ s ∷ t ∷ rest) cache = (none, cache)

    -- `Verify`: `now` is the Unix time, and `allowed` the issuers that are known.
    pub verify : ℕ → ℕ → List Text → Text → List (Text × CachedKeys Key) → Outcome
    verify now clock allowed token cache = verify_parts now clock allowed (split token 46) cache

    -- A token of three parts, for these claims of a known issuer, that is not expired and that a key
    -- of the issuer signs.
    pub record IsAuthentic (now clock : ℕ) (allowed : List Text) (parts : List Text)
        (cache : List (Text × CachedKeys Key)) (claims : Claims) : Type 0 where
      pub header_part : Text
      pub claims_part : Text
      pub signature_part : Text
      pub three : parts ≡ header_part ∷ claims_part ∷ signature_part ∷ []
      pub header : TokenHeader
      pub header_decoded : decode_header header_part ≡ some header
      pub algorithm : text_eq header.alg (txt "RS256") ≡ true
      pub claims_decoded : decode_claims claims_part ≡ some claims
      pub known_issuer : contains allowed claims.issuer ≡ true
      pub current : is_expired now claims.expiry ≡ false
      pub key : Key
      pub key_found : (key_for clock claims.issuer header.kid cache).0 ≡ some key
      pub signature : Text
      pub signature_decoded : decode_signature signature_part ≡ some signature
      pub signed : is_signed key (header_part ++ (txt "." ++ claims_part)) signature ≡ true

    verify_authentic :
        (now clock : ℕ) (allowed parts : List Text) (cache : List (Text × CachedKeys Key))
        (claims : Claims)
        → IsAuthentic now clock allowed parts cache claims
        → (verify_parts now clock allowed parts cache).0 ≡ some claims
    unfolding verify_parts verify_header verify_claims verify_signature
    verify_authentic now clock allowed parts cache claims a =
        rw
          (
            a.three, verify_parts, a.header_decoded, verify_header, a.algorithm, a.claims_decoded,
            verify_claims, a.known_issuer, a.current, verify_signature, a.key_found,
            a.signature_decoded, a.signed,
          )
          refl

    abbrev Found : Outcome → Claims → Type 0
    Found outcome claims = outcome.0 ≡ some claims

    -- The last steps, for claims that were accepted.
    record IsSigned (h c s : Text) (claims found : Claims) (key : Option Key) : Type 0 where
      same : claims ≡ found
      good_key : Key
      key_found : key ≡ some good_key
      signature : Text
      signature_decoded : decode_signature s ≡ some signature
      signed : is_signed good_key (h ++ (txt "." ++ c)) signature ≡ true

    signature_sound :
        (h c s : Text) (claims found : Claims) (key : Option Key)
        (cache : List (Text × CachedKeys Key))
        → Found (verify_signature h c s claims (key, cache)) found
        → IsSigned h c s claims found key
    unfolding verify_signature
    signature_sound h c s claims found none cache e = cc
    signature_sound h c s claims found (some key) cache e =
        elim (Option-cases (decode_signature s)) [
          | inl d ↦ absurd (some-ne-none found (sym (rw (d, verify_signature) at e)))
          | inr (signature, d) ↦ elim (Bool-cases (is_signed key (h ++ (txt "." ++ c)) signature)) [
            | inl v ↦ record {
              same = some-injective claims found (rw (d, v, verify_signature) at e);
              good_key = key;
              key_found = refl;
              signature = signature;
              signature_decoded = d;
              signed = v;
            }
            | inr v ↦ absurd (some-ne-none found (sym (rw (d, v, verify_signature) at e)))
          ]
        ]

    parts_sound :
        (now clock : ℕ) (allowed parts : List Text) (cache : List (Text × CachedKeys Key))
        (found : Claims)
        → Found (verify_parts now clock allowed parts cache) found
        → IsAuthentic now clock allowed parts cache found
    unfolding verify_parts verify_header verify_claims
    parts_sound now clock allowed [] cache found e = cc
    parts_sound now clock allowed (h ∷ []) cache found e = cc
    parts_sound now clock allowed (h ∷ c ∷ []) cache found e = cc
    parts_sound now clock allowed (h ∷ c ∷ s ∷ t ∷ rest) cache found e = cc
    parts_sound now clock allowed (h ∷ c ∷ s ∷ []) cache found e =
        elim (Option-cases (decode_header h)) [
          | inl d ↦ absurd (some-ne-none found (sym (rw (d, verify_parts) at e)))
          | inr (header, d) ↦ elim (Bool-cases (text_eq header.alg (txt "RS256"))) [
            | inr alg ↦
                absurd (some-ne-none found (sym (rw (d, verify_parts, verify_header, alg) at e)))
            | inl alg ↦ elim (Option-cases (decode_claims c)) [
              | inl d2 ↦
                  absurd
                    (some-ne-none found (sym (rw (d, verify_parts, verify_header, alg, d2) at e)))
              | inr (claims, d2) ↦
                  let e2 : Found (verify_claims now clock allowed h c s header claims cache) found =
                    rw (d, verify_parts, verify_header, alg, d2) at e in
                  elim (Bool-cases (contains allowed claims.issuer)) [
                    | inr issuer ↦
                        absurd (some-ne-none found (sym (rw (verify_claims, issuer) at e2)))
                    | inl issuer ↦ elim (Bool-cases (is_expired now claims.expiry)) [
                      | inl expired ↦
                          absurd
                            (some-ne-none found (sym (rw (verify_claims, issuer, expired) at e2)))
                      | inr fresh ↦
                          let keyed = key_for clock claims.issuer header.kid cache in
                          let g =
                            signature_sound h c s claims found keyed.0 keyed.1
                              (rw (verify_claims, issuer, fresh) at e2) in
                          record {
                            header_part = h;
                            claims_part = c;
                            signature_part = s;
                            three = refl;
                            header = header;
                            header_decoded = d;
                            algorithm = alg;
                            claims_decoded = d2 ∙ ap some g.same;
                            known_issuer =
                                subst (λ x. contains allowed x.issuer ≡ true) g.same issuer;
                            current = subst (λ x. is_expired now x.expiry ≡ false) g.same fresh;
                            key = g.good_key;
                            key_found =
                                subst
                                  (λ x.
                                    (key_for clock x.issuer header.kid cache).0 ≡ some g.good_key)
                                  g.same g.key_found;
                            signature = g.signature;
                            signature_decoded = g.signature_decoded;
                            signed = g.signed;
                          }
                    ]
                  ]
            ]
          ]
        ]

    -- `Verify` returns these claims exactly when the token is authentic for them.
    pub verify_iff :
        (now clock : ℕ) (allowed : List Text) (token : Text) (cache : List (Text × CachedKeys Key))
        (claims : Claims)
        → ((verify now clock allowed token cache).0 ≡ some claims)
          ↔ IsAuthentic now clock allowed (split token 46) cache claims
    unfolding verify
    verify_iff now clock allowed token cache claims = (
      parts_sound now clock allowed (split token 46) cache claims,
      verify_authentic now clock allowed (split token 46) cache claims,
    )
