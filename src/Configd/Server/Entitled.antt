-- ===== src/Configd/Server/Entitled.antt =====
-- Whom the broker serves.
use mksrv.Common.{
  ℕ, ◌≡◌, refl, ap, ◌∙◌, ◌≢◌, ◌↔◌, inl, inr, true, false, Option, none, some, List, [], ◌∷◌, arith,
  if◌then◌else◌, Bool-cases, Option-cases, is_empty, Text, text_eq, trim_right, lookup, insert,
  keys, lookup-insert,
}
use mksrv.Configd.Token.{Claims, vpn_entitled}
use mksrv.Configd.Server.{
  TenantEntry, ClientConfig, refused, issued, Request, bearer_token, client_config_of, refuse,
  issue, answer_claims, client_config, add_entries, new_server,
}

issued-injective : (a b : Text) → issued a ≡ issued b → a ≡ b
issued-injective a b e = cc

refused-ne-issued : (status : ℕ) (a : Text) → refused status ≢ issued a
refused-ne-issued status a e = cc

-- The claims of a user who may enrol a device, and the tenant of the roster that they are for.
pub record IsEntitled (by_issuer : List (Text × TenantEntry)) (verified : Option Claims)
    (tenant : TenantEntry) : Type 0 where
  pub claims : Claims
  pub authentic : verified ≡ some claims
  pub roster : lookup by_issuer (trim_right claims.issuer 47) ≡ some tenant
  pub entitled : vpn_entitled claims ≡ true

module _ {Cache : Type 0} (verify : Text → List Text → Cache → Option Claims × Cache) where
  -- The claims that `Verify` finds for a request.
  abbrev pub verified_for : List (Text × TenantEntry) → Request → Cache → Option Claims
  verified_for by_issuer request cache =
      (verify (bearer_token request.authorization) (keys by_issuer) cache).0

module _ (sign : ClientConfig → Option Text) (preauth : Text → Option Text) where
  -- The signed configuration of an entitled user's tenant, with a key that was minted for it.
  pub record IsServed (now : ℕ) (device_name : Text) (by_issuer : List (Text × TenantEntry))
      (verified : Option Claims) (compact : Text) : Type 0 where
    pub tenant : TenantEntry
    pub who : IsEntitled by_issuer verified tenant
    pub key : Text
    pub minted_key : preauth tenant.headscale_user ≡ some key
    pub body : sign (client_config_of now tenant key device_name) ≡ some compact

  record IsIssued (now : ℕ) (device_name : Text) (tenant : TenantEntry) (compact : Text)
      : Type 0 where
    key : Text
    minted_key : preauth tenant.headscale_user ≡ some key
    body : sign (client_config_of now tenant key device_name) ≡ some compact

  issue_sound :
      (now : ℕ) (device_name : Text) (tenant : TenantEntry) (compact : Text)
      → (issue sign preauth now device_name tenant).response ≡ issued compact
      → IsIssued now device_name tenant compact
  unfolding issue
  issue_sound now device_name tenant compact e =
      elim (Option-cases (preauth tenant.headscale_user)) [
        | inl p ↦ absurd (refused-ne-issued 502 compact (rw (p, issue) at e))
        | inr (key, p) ↦ elim (Option-cases (sign (client_config_of now tenant key device_name))) [
          | inl s ↦ absurd (refused-ne-issued 500 compact (rw (p, issue, s) at e))
          | inr (signed, s) ↦ record {
            key = key;
            minted_key = p;
            body = s ∙ ap some (issued-injective signed compact (rw (p, issue, s) at e));
          }
        ]
      ]

  issue_mints :
      (now : ℕ) (device_name : Text) (tenant : TenantEntry)
      → (issue sign preauth now device_name tenant).minted ≡ tenant.headscale_user ∷ []
  unfolding issue
  issue_mints now device_name tenant = elim (Option-cases (preauth tenant.headscale_user)) [
    | inl p ↦ rw (p, issue) refl
    | inr (key, p) ↦ elim (Option-cases (sign (client_config_of now tenant key device_name))) [
      | inl s ↦ rw (p, issue, s) refl
      | inr (signed, s) ↦ rw (p, issue, s) refl
    ]
  ]

  answer_claims_sound :
      (now : ℕ) (device_name : Text) (by_issuer : List (Text × TenantEntry))
      (verified : Option Claims) (compact : Text)
      → (answer_claims sign preauth now device_name by_issuer verified).response ≡ issued compact
      → IsServed now device_name by_issuer verified compact
  unfolding answer_claims refuse
  answer_claims_sound now device_name by_issuer none compact e =
      absurd (refused-ne-issued 401 compact e)
  answer_claims_sound now device_name by_issuer (some claims) compact e =
      elim (Option-cases (lookup by_issuer (trim_right claims.issuer 47))) [
        | inl absent ↦ absurd (refused-ne-issued 403 compact (rw (absent, answer_claims) at e))
        | inr (tenant, found) ↦ elim (Bool-cases (vpn_entitled claims)) [
          | inr out ↦ absurd (refused-ne-issued 403 compact (rw (found, answer_claims, out) at e))
          | inl entitled ↦
              let i =
                issue_sound now device_name tenant compact
                  (rw (found, answer_claims, entitled) at e) in
              record {
                tenant = tenant;
                who = record {
                  claims = claims;
                  authentic = refl;
                  roster = found;
                  entitled = entitled;
                };
                key = i.key;
                minted_key = i.minted_key;
                body = i.body;
              }
        ]
      ]

  answer_claims_complete :
      (now : ℕ) (device_name : Text) (by_issuer : List (Text × TenantEntry))
      (verified : Option Claims) (compact : Text)
      → IsServed now device_name by_issuer verified compact
      → (answer_claims sign preauth now device_name by_issuer verified).response ≡ issued compact
  unfolding answer_claims issue
  answer_claims_complete now device_name by_issuer verified compact s =
      rw (s.who.authentic, answer_claims, s.who.roster, s.who.entitled, issue, s.minted_key, s.body)
        refl

  module _ {Cache : Type 0} (verify : Text → List Text → Cache → Option Claims × Cache) where
    -- `clientConfig` answers with a configuration exactly when the request bears a token that
    -- `Verify` accepts, for claims of a tenant of the roster and of one of its VPN groups, and both
    -- the key and the signature are made; the configuration is that tenant's.
    pub client_config_iff :
        (now : ℕ) (by_issuer : List (Text × TenantEntry)) (request : Request) (cache : Cache)
        (compact : Text)
        → ((client_config sign preauth verify now by_issuer request cache).0.response
            ≡ issued compact)
          ↔ ((is_empty (bearer_token request.authorization) ≡ false)
              × IsServed now request.device_name by_issuer
                  (verified_for verify by_issuer request cache)
                  compact)
    unfolding client_config refuse
    client_config_iff now by_issuer request cache compact =
        elim (Bool-cases (is_empty (bearer_token request.authorization))) [
          | inl bare ↦
              rw (bare, client_config)
                ((λ e. absurd (refused-ne-issued 401 compact e)), (λ h. cc (h.0)))
          | inr token ↦
              rw (token, client_config)
                (
                  (λ e. (refl, answer_claims_sound now request.device_name by_issuer _ compact e)),
                  (λ h. answer_claims_complete now request.device_name by_issuer _ compact h.1),
                )
        ]

  -- The keys that a request mints, for an answer to any claims.
  mints :
      (now : ℕ) (device_name : Text) (by_issuer : List (Text × TenantEntry))
      (verified : Option Claims)
      → (answer_claims sign preauth now device_name by_issuer verified).minted ≢ []
      → (tenant : TenantEntry) × IsEntitled by_issuer verified tenant
        × ((answer_claims sign preauth now device_name by_issuer verified).minted
            ≡ tenant.headscale_user ∷ [])
  unfolding answer_claims refuse
  mints now device_name by_issuer none h = absurd (h refl)
  mints now device_name by_issuer (some claims) h =
      elim (Option-cases (lookup by_issuer (trim_right claims.issuer 47))) [
        | inl absent ↦ absurd (h (rw (absent, answer_claims) refl))
        | inr (tenant, found) ↦ elim (Bool-cases (vpn_entitled claims)) [
          | inr out ↦ absurd (h (rw (found, answer_claims, out) refl))
          | inl entitled ↦ (
            tenant,
            record { claims = claims; authentic = refl; roster = found; entitled = entitled },
            rw (found, answer_claims, entitled) (issue_mints now device_name tenant),
          )
        ]
      ]

  module _ {Cache : Type 0} (verify : Text → List Text → Cache → Option Claims × Cache) where
    -- A request for which a mesh key is minted bears the verified token of an entitled user, and the
    -- one key is that user's tenant's.
    pub client_config-mints :
        (now : ℕ) (by_issuer : List (Text × TenantEntry)) (request : Request) (cache : Cache)
        → (client_config sign preauth verify now by_issuer request cache).0.minted ≢ []
        → (tenant : TenantEntry) × IsEntitled by_issuer
            (verified_for verify by_issuer request cache)
            tenant
          × ((client_config sign preauth verify now by_issuer request cache).0.minted
              ≡ tenant.headscale_user ∷ [])
    unfolding client_config refuse
    client_config-mints now by_issuer request cache h =
        elim (Bool-cases (is_empty (bearer_token request.authorization))) [
          | inl bare ↦ absurd (h (rw (bare, client_config) refl))
          | inr token ↦
              rw (token, client_config)
                (mints now request.device_name by_issuer
                  (verified_for verify by_issuer request cache) (rw (token, client_config) at h))
        ]

-- The last entry of the roster whose issuer, with no slash at its end, is the given one.
abbrev pub last_entry : List TenantEntry → Text → Option TenantEntry
last_entry [] issuer = none
last_entry (t ∷ tenants) issuer = elim (last_entry tenants issuer) [
  | some later ↦ some later
  | none ↦ if text_eq (trim_right t.issuer 47) issuer then some t else none
]

add_entries_lem :
    (by_issuer : List (Text × TenantEntry)) (tenants : List TenantEntry) (issuer : Text)
    → lookup (add_entries by_issuer tenants) issuer
      ≡ (elim (last_entry tenants issuer) [ none ↦ lookup by_issuer issuer | some t ↦ some t ])
unfolding add_entries
add_entries_lem by_issuer [] issuer = refl
add_entries_lem by_issuer (t ∷ tenants) issuer = ground (
  arith,
  add_entries_lem (insert by_issuer (trim_right t.issuer 47) t) tenants issuer,
  lookup-insert by_issuer (trim_right t.issuer 47) t issuer,
)

-- `NewServer` keeps, for each issuer, the last entry of the roster, whatever slashes end the issuer.
pub lookup-new_server :
    (tenants : List TenantEntry) (issuer : Text)
    → lookup (new_server tenants) issuer ≡ last_entry tenants issuer
unfolding new_server lookup
lookup-new_server tenants issuer = ground (arith, add_entries_lem [] tenants issuer)
