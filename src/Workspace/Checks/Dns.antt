-- ===== src/Workspace/Checks/Dns.antt =====
-- `checkTenantDNS` and `checkTenantMeshRoutes`
use mksrv.Common.{
  ℕ, suc, ◌≡◌, refl, ◌≢◌, inl, inr, Bool, true, false, ◌&&◌, ◌||◌, not, Option, none, some, List,
  [], ◌∷◌, ◌++◌, arith, if◌then◌else◌, Bool-cases, is_empty, All, Text, txt, text_eq, trim_space,
  itoa, is_ip, is_cidr,
}
use mksrv.Model.Types.{Tenant, TenantDnsRecord, DnsOverride}
use mksrv.Workspace.Report.{Report, semantic_error}
use mksrv.Workspace.Report.Outcome.{
  Reports, Reports-refl, Reports-trans, Reports-iff, Reports-error, error_if, Reports-error_if,
}

-- The tenant has a hosted zone of its own. `checkTenantDNS`, `checkTenantWeb` and `checkTenantMail`
-- return early on the negation.
pub has_zone : Option DnsOverride → Bool
has_zone none = false
has_zone (some override) =
    text_eq override.provider (txt "route53") && not (text_eq (trim_space override.zone_id) [])

-- The `switch rec.Type`: whether the value does not fit the record's type.
pub is_bad_value : TenantDnsRecord → Bool
is_bad_value rec =
    if text_eq rec.type (txt "A") || text_eq rec.type (txt "AAAA")
    then not (is_ip rec.value)
    else text_eq rec.type (txt "CNAME") && is_ip rec.value

pub check_dns_records : Text → ℕ → List TenantDnsRecord → Report → Report
check_dns_records file i [] report = report
check_dns_records file i (rec ∷ records) report = check_dns_records file (suc i) records (
    error_if (is_bad_value rec) report file (txt "$.dns[" ++ (itoa i ++ txt "].value"))
      (txt "tenant.dns.value"))

-- `checkTenantDNS` over the two fields that it reads.
pub check_dns : Text → Option DnsOverride → List TenantDnsRecord → Report → Report
check_dns file override records report =
    if is_empty records
    then report
    else if not (has_zone override)
    then semantic_error report file (txt "$.dns") (txt "tenant.dns.no_zone")
    else check_dns_records file 0 records report

pub check_tenant_dns : Text → Tenant → Report → Report
check_tenant_dns file tenant report = check_dns file tenant.dns_override tenant.dns report

pub check_routes : Text → ℕ → List Text → Report → Report
check_routes file i [] report = report
check_routes file i (route ∷ routes) report = check_routes file (suc i) routes (
    error_if (not (is_cidr route)) report file (txt "$.mesh_routes[" ++ (itoa i ++ txt "]"))
      (txt "tenant.mesh_route"))

pub check_tenant_mesh_routes : Text → Tenant → Report → Report
check_tenant_mesh_routes file tenant report = check_routes file 0 tenant.mesh_routes report

-- Every record can be written: there is a zone, and no value has the wrong kind.
pub record HasValidDns (override : Option DnsOverride) (records : List TenantDnsRecord)
    : Type 0 where
  pub zone : records ≢ [] → has_zone override ≡ true
  pub values : All (λ rec. is_bad_value rec ≡ false) records

check_dns_records_lem :
    (file : Text) (i : ℕ) (records : List TenantDnsRecord) (report : Report)
    → Reports report
        (check_dns_records file i records report)
        (All (λ rec. is_bad_value rec ≡ false) records)
unfolding check_dns_records
check_dns_records_lem file i [] report = Reports-refl report
check_dns_records_lem file i (rec ∷ records) report =
    Reports-trans (Reports-error_if _ _ _ _ report) (check_dns_records_lem file (suc i) records _)

check_dns_lem :
    (file : Text) (override : Option DnsOverride) (records : List TenantDnsRecord) (report : Report)
    → Reports report (check_dns file override records report) (HasValidDns override records)
unfolding check_dns
check_dns_lem file override [] report =
    Reports-iff
      ((λ h. record { zone = λ some_record. absurd (some_record refl); values = tt }), (λ h. tt))
      (Reports-refl report)
check_dns_lem file override (rec ∷ records) report = elim (Bool-cases (has_zone override)) [
  | inl zone ↦ rw zone (
      Reports-iff ((λ h. record { zone = λ _. zone; values = h }), (λ h. h.values))
        (check_dns_records_lem file 0 (rec ∷ records) report))
  | inr absent ↦
      rw absent (
        Reports-iff ((λ h. absurd h), (λ h. cc (absent, h.zone cc)))
          (Reports-error file _ _ report))
]

-- `checkTenantDNS` adds no error exactly when a tenant with records has a Route 53 zone of its own,
-- and every A and AAAA value is an IP address and no CNAME value is one.
pub check_tenant_dns_lem :
    (file : Text) (tenant : Tenant) (report : Report)
    → Reports report
        (check_tenant_dns file tenant report)
        (HasValidDns tenant.dns_override tenant.dns)
unfolding check_tenant_dns
check_tenant_dns_lem file tenant report = check_dns_lem file tenant.dns_override tenant.dns report

check_routes_lem :
    (file : Text) (i : ℕ) (routes : List Text) (report : Report)
    → Reports report
        (check_routes file i routes report)
        (All (λ route. is_cidr route ≡ true) routes)
unfolding check_routes
check_routes_lem file i [] report = Reports-refl report
check_routes_lem file i (route ∷ routes) report =
    Reports-iff ((λ h. (ground arith, h.1)), (λ h. (ground arith, h.1)))
      (Reports-trans (Reports-error_if _ _ _ _ report) (check_routes_lem file (suc i) routes _))

-- `checkTenantMeshRoutes` adds no error exactly when every route is a CIDR.
pub check_tenant_mesh_routes_lem :
    (file : Text) (tenant : Tenant) (report : Report)
    → Reports report
        (check_tenant_mesh_routes file tenant report)
        (All (λ route. is_cidr route ≡ true) tenant.mesh_routes)
unfolding check_tenant_mesh_routes
check_tenant_mesh_routes_lem file tenant report = check_routes_lem file 0 tenant.mesh_routes report
