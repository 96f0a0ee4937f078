-- ===== src/Workspace/Checks/Database.antt =====
-- `checkTenantDatabase`
use mksrv.Common.{
  ℕ, suc, ◌≡◌, inl, inr, Bool, true, false, ◌&&◌, ◌||◌, not, Option, none, some, List, [], ◌∷◌,
  ◌++◌, arith, if◌then◌else◌, Bool-cases, All, Text, txt, text_eq, has_prefix, itoa, contains,
}
use mksrv.Model.Types.{Tenant, TenantDatabase}
use mksrv.Model.Accessors.{postgrest_enabled}
use mksrv.Workspace.Report.{Report, semantic_error, semantic_warning}
use mksrv.Workspace.Report.Outcome.{
  Reports, Reports-refl, Reports-trans, Reports-iff, Reports-error, Reports-warning, error_if,
  Reports-error_if,
}

pub allowed_db_extensions : List Text
allowed_db_extensions =
    txt "pgcrypto"
    ∷ txt "uuid-ossp"
    ∷ txt "citext"
    ∷ txt "pg_trgm"
    ∷ txt "btree_gist"
    ∷ txt "btree_gin"
    ∷ txt "hstore"
    ∷ txt "unaccent"
    ∷ txt "ltree"
    ∷ txt "intarray"
    ∷ txt "tablefunc"
    ∷ txt "fuzzystrmatch"
    ∷ []

pub reserved_schemas : List Text
reserved_schemas = txt "public" ∷ txt "pg_catalog" ∷ txt "information_schema" ∷ txt "pg_toast" ∷ []

-- A schema that is set, and is reserved or begins like a system schema.
pub is_reserved_schema : Text → Bool
is_reserved_schema s =
    not (text_eq s []) && (contains reserved_schemas s || has_prefix s (txt "pg_"))

pub check_extensions : Text → ℕ → List Text → Report → Report
check_extensions file i [] report = report
check_extensions file i (ext ∷ extensions) report = check_extensions file (suc i) extensions (
    error_if (not (contains allowed_db_extensions ext)) report file
      (txt "$.database.extensions[" ++ (itoa i ++ txt "]")) (txt "tenant.database.extension"))

-- The warning at the end.
pub warn_unused_schema : Text → Bool → Report → Report
warn_unused_schema file unused report =
    if unused
    then semantic_warning report file (txt "$.database.schema")
        (txt "tenant.database.schema_unused")
    else report

-- The checks of a block, for a tenant with the given stacks; `enabled` is `PostgRESTEnabled()`.
pub check_database_block : Text → List Text → Bool → TenantDatabase → Report → Report
check_database_block file stacks enabled database report =
    if not (contains stacks (txt "database"))
    then semantic_error report file (txt "$.database") (txt "tenant.database.no_stack")
    else warn_unused_schema file (not enabled && not (text_eq database.schema [])) (
        check_extensions file 0 database.extensions (
          error_if (is_reserved_schema database.schema) report file (txt "$.database.schema")
            (txt "tenant.database.schema")))

pub check_database : Text → List Text → Bool → Option TenantDatabase → Report → Report
check_database file stacks enabled none report = report
check_database file stacks enabled (some database) report =
    check_database_block file stacks enabled database report

pub check_tenant_database : Text → Tenant → Report → Report
check_tenant_database file tenant =
    check_database file tenant.stacks (postgrest_enabled tenant) tenant.database

pub record HasValidDatabase (stacks : List Text) (database : TenantDatabase) : Type 0 where
  pub consumed : contains stacks (txt "database") ≡ true
  pub schema : is_reserved_schema database.schema ≡ false
  pub extensions : All (λ ext. contains allowed_db_extensions ext ≡ true) database.extensions

abbrev pub DatabaseIsValid : List Text → Option TenantDatabase → Type 0
DatabaseIsValid stacks none = Unit
DatabaseIsValid stacks (some database) = HasValidDatabase stacks database

check_extensions_lem :
    (file : Text) (i : ℕ) (extensions : List Text) (report : Report)
    → Reports report
        (check_extensions file i extensions report)
        (All (λ ext. contains allowed_db_extensions ext ≡ true) extensions)
unfolding check_extensions
check_extensions_lem file i [] report = Reports-refl report
check_extensions_lem file i (ext ∷ extensions) report =
    Reports-iff ((λ h. (ground arith, h.1)), (λ h. (ground arith, h.1)))
      (Reports-trans (Reports-error_if _ _ _ _ report)
        (check_extensions_lem file (suc i) extensions _))

warn_unused_schema_lem :
    (file : Text) (unused : Bool) (report : Report)
    → Reports report (warn_unused_schema file unused report) Unit
unfolding warn_unused_schema
warn_unused_schema_lem file true report = Reports-warning file _ _ report
warn_unused_schema_lem file false report = Reports-refl report

check_database_block_lem :
    (file : Text) (stacks : List Text) (enabled : Bool) (database : TenantDatabase)
    (report : Report)
    → Reports report
        (check_database_block file stacks enabled database report)
        (HasValidDatabase stacks database)
unfolding check_database_block
check_database_block_lem file stacks enabled database report =
    elim (Bool-cases (contains stacks (txt "database"))) [
      | inl e ↦
          rw (e, check_database_block)
            (Reports-iff
              (
                (λ h. record { consumed = e; schema = h.0.0; extensions = h.0.1 }),
                (λ h. ((h.schema, h.extensions), tt)),
              )
              (Reports-trans
                (Reports-trans (Reports-error_if _ _ _ _ report)
                  (check_extensions_lem file 0 database.extensions _))
                (warn_unused_schema_lem file _ _)))
      | inr e ↦
          rw (e, check_database_block)
            (Reports-iff ((λ h. absurd h), (λ h. cc (e, h.consumed)))
              (Reports-error file _ _ report))
    ]

check_database_lem :
    (file : Text) (stacks : List Text) (enabled : Bool) (database : Option TenantDatabase)
    (report : Report)
    → Reports report
        (check_database file stacks enabled database report)
        (DatabaseIsValid stacks database)
unfolding check_database
check_database_lem file stacks enabled none report = Reports-refl report
check_database_lem file stacks enabled (some database) report =
    check_database_block_lem file stacks enabled database report

-- `checkTenantDatabase` adds no error exactly when the block is missing, or the tenant consumes the
-- database stack, the schema is not a reserved one, and every extension is allowed. Whether
-- PostgREST runs makes no difference.
pub check_tenant_database_lem :
    (file : Text) (tenant : Tenant) (report : Report)
    → Reports report
        (check_tenant_database file tenant report)
        (DatabaseIsValid tenant.stacks tenant.database)
unfolding check_tenant_database
check_tenant_database_lem file tenant report =
    check_database_lem file tenant.stacks (postgrest_enabled tenant) tenant.database report
