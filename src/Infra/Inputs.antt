-- ===== src/Infra/Inputs.antt =====
-- internal/infra/infra.go: `normalizeTenantsForTerraform`, `BackendConfig`, `BackendRegion` and
-- `BackendKey`.
use mksrv.Common.{
  ◌≡◌, refl, inl, inr, not, Option, none, some, List, [], ◌∷◌, ◌++◌, if◌then◌else◌, Bool-cases,
  Text, txt, text_eq, cut,
}
use mksrv.Model.Types.{Tenant, TenantWebEndpoint, Deployment}

-- The body of the loop over a tenant's endpoints.
pub normalize_endpoint : TenantWebEndpoint → TenantWebEndpoint
normalize_endpoint w = elim w.sso_groups [
  | none ↦ record w { sso_groups = some [] }
  | some groups ↦ w
]

-- A list of endpoints that is nil is the empty list here, which is what the code makes of it.
pub normalize_web : List TenantWebEndpoint → List TenantWebEndpoint
normalize_web [] = []
normalize_web (w ∷ web) = normalize_endpoint w ∷ normalize_web web

pub normalize_tenants : List (Text × Tenant) → List (Text × Tenant)
normalize_tenants [] = []
normalize_tenants ((id, t) ∷ tenants) =
    (id, record t { web = normalize_web t.web }) ∷ normalize_tenants tenants

pub backend_region : Deployment → Text
backend_region d = if not (text_eq d.backend.region []) then d.backend.region else d.aws.region

pub backend_key : Deployment → Text
backend_key d = if not (text_eq d.backend.key []) then d.backend.key else txt "mksrv.tfstate"

pub backend_config : Deployment → List Text
backend_config d =
    let entries =
      (txt "bucket=" ++ d.backend.bucket)
      ∷ (txt "key=" ++ backend_key d)
      ∷ (txt "region=" ++ backend_region d)
      ∷ (txt "dynamodb_table=" ++ d.backend.dynamodb_table)
      ∷ txt "encrypt=true"
      ∷ [] in
    if not (text_eq d.aws.profile [])
    then entries ++ (txt "profile=" ++ d.aws.profile) ∷ []
    else entries

-- A `key=value` entry of the list, as `cut` takes it apart.
abbrev entry : Text → Option (Text × Text)
entry text = cut text 61

pub cuts : List Text → List (Option (Text × Text))
cuts [] = []
cuts (t ∷ texts) = entry t ∷ cuts texts

-- Each setting that `BackendConfig` hands to Terraform is cut at its first equals sign into the name
-- and the value of the setting, whatever the values contain, and the profile stands among them only
-- when there is one.
pub cuts-backend_config :
    (d : Deployment)
    → cuts (backend_config d)
      ≡ some (txt "bucket", d.backend.bucket)
        ∷ some (txt "key", backend_key d)
        ∷ some (txt "region", backend_region d)
        ∷ some (txt "dynamodb_table", d.backend.dynamodb_table)
        ∷ some (txt "encrypt", txt "true")
        ∷ (if text_eq d.aws.profile [] then [] else some (txt "profile", d.aws.profile) ∷ [])
unfolding backend_config cuts cut txt
cuts-backend_config d = elim (Bool-cases (text_eq d.aws.profile [])) [
  | inl bare ↦ rw (bare, backend_config) refl
  | inr named ↦ rw (named, backend_config) refl
]
