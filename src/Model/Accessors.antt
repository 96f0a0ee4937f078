-- ===== src/Model/Accessors.antt =====
-- internal/model/model.go: the methods that read a tenant document with its defaults.
use mksrv.Common.{
  ℕ, Text, List, [], ◌∷◌, none, some, Bool, true, false, txt, text_eq, ◌||◌, not, if◌then◌else◌,
}
use mksrv.Model.Types.{Tenant, TenantWebEndpoint}

-- `PostgRESTEnabled`
unfoldable pub postgrest_enabled : Tenant → Bool
postgrest_enabled tenant = elim tenant.database [
  | none ↦ true
  | some database ↦ elim database.postgrest [ none ↦ true | some enabled ↦ enabled ]
]

-- `WebSSO`
any_sso : List TenantWebEndpoint → Bool
any_sso [] = false
any_sso (w ∷ web) = w.sso || any_sso web

unfoldable pub web_sso : Tenant → Bool
unfolding any_sso
web_sso tenant = any_sso tenant.web

-- `DBSchema`
unfoldable pub db_schema : Tenant → Text
db_schema tenant = elim tenant.database [
  | none ↦ txt "app"
  | some database ↦ if not (text_eq database.schema []) then database.schema else txt "app"
]

-- `DBExtensions`
unfoldable pub db_extensions : Tenant → List Text
db_extensions tenant = elim tenant.database [ none ↦ [] | some database ↦ database.extensions ]

-- `DBConnectionLimit`
unfoldable pub db_connection_limit : Tenant → ℕ
db_connection_limit tenant = elim tenant.database [
  | none ↦ 0
  | some database ↦ database.connection_limit
]
