-- ===== src/Workspace/Checks/Web.antt =====
-- `checkTenantWeb`
pub mod Outcome
use mksrv.Common.{
  ◌||◌, ℕ, suc, ◌+◌, ◌≡◌, ◌≢◌, ◌⊎◌, Bool, true, false, ◌&&◌, not, Option, List, [], ◌∷◌, ◌++◌,
  arith, if◌then◌else◌, is_empty, All, Text, txt, text_eq, has_suffix, trim_space, to_lower,
  trim_suffix, itoa, contains, is_host_port,
}
use mksrv.Model.Types.{Tenant, TenantDnsRecord, TenantWebEndpoint, DnsOverride, items}
use mksrv.Workspace.Report.{Report, semantic_error}
use mksrv.Workspace.Report.Outcome.{error_if}
use mksrv.Workspace.Seen.{is_dup, note, Distinct}
use mksrv.Workspace.Checks.Dns.{has_zone}

-- The keys of `dnsNames`: the full names of the tenant's `dns:` records, in lower case.
pub dns_names : Text → List TenantDnsRecord → List Text
dns_names base_domain [] = []
dns_names base_domain (r ∷ records) =
    to_lower (if text_eq r.name (txt "@") then base_domain else r.name ++ (txt "." ++ base_domain))
    ∷ dns_names base_domain records

pub web_host : TenantWebEndpoint → Text
web_host w = trim_suffix (to_lower (trim_space w.hostname)) (txt ".")

-- `host != root && !strings.HasSuffix(host, "."+root)`
pub is_outside : Text → Text → Bool
is_outside host root = not (text_eq host root) && not (has_suffix host (txt "." ++ root))

pub is_realm_group : Text → Bool
is_realm_group g =
    text_eq g (txt "admin")
    || (text_eq g (txt "dev") || (text_eq g (txt "apps") || text_eq g (txt "vpn")))

pub check_sso_groups : Text → Text → List Text → Report → Report
check_sso_groups file path [] report = report
check_sso_groups file path (g ∷ groups) report = check_sso_groups file path groups (
    error_if (not (is_realm_group g)) report file (path ++ txt ".sso_groups")
      (txt "tenant.web.sso_groups"))

-- The body of the loop, for the endpoint at index `i`.
pub check_endpoint :
    Text → Text → List Text → ℕ → List (Text × ℕ) → TenantWebEndpoint → Report → Report
check_endpoint file base_domain names i seen w report =
    let path = txt "$.web[" ++ (itoa i ++ txt "]") in
    let host = web_host w in
    let r1 =
      error_if (is_outside host (trim_suffix (to_lower base_domain) (txt "."))) report file
        (path ++ txt ".hostname") (txt "tenant.web.outside_apex") in
    let r2 =
      error_if (is_dup seen host) r1 file (path ++ txt ".hostname") (txt "tenant.web.duplicate") in
    let r3 =
      error_if (contains names host) r2 file (path ++ txt ".hostname")
        (txt "tenant.web.dns_clash") in
    let r4 =
      error_if (not (is_host_port w.target)) r3 file (path ++ txt ".target")
        (txt "tenant.web.target") in
    let r5 =
      error_if (not (text_eq w.provider []) && not (text_eq w.provider (txt "edge"))) r4 file
        (path ++ txt ".provider") (txt "tenant.web.provider") in
    let r6 = error_if w.cdn r5 file (path ++ txt ".cdn") (txt "tenant.web.cdn_unimplemented") in
    let r7 = error_if (w.sso && w.cdn) r6 file (path ++ txt ".sso") (txt "tenant.web.sso_cdn") in
    let r8 =
      error_if (not (is_empty (items w.sso_groups)) && not w.sso) r7 file
        (path ++ txt ".sso_groups") (txt "tenant.web.sso_groups") in
    let r9 = check_sso_groups file path (items w.sso_groups) r8 in
    error_if (not (is_empty (items w.sso_bypass_paths)) && not w.sso) r9 file
      (path ++ txt ".sso_bypass_paths") (txt "tenant.web.sso_bypass_paths")

pub check_endpoints :
    Text → Text → List Text → ℕ → List (Text × ℕ) → List TenantWebEndpoint → Report → Report
check_endpoints file base_domain names i seen [] report = report
check_endpoints file base_domain names i seen (w ∷ web) report =
    check_endpoints file base_domain names (suc i) (note seen (web_host w) i) web
      (check_endpoint file base_domain names i seen w report)

-- `checkTenantWeb` over the fields that it reads.
pub check_web :
    Text
    → Text
    → Option DnsOverride
    → List TenantDnsRecord
    → List TenantWebEndpoint
    → Report
    → Report
check_web file base_domain override records web report =
    if is_empty web
    then report
    else if not (has_zone override)
    then semantic_error report file (txt "$.web") (txt "tenant.web.no_zone")
    else check_endpoints file base_domain (dns_names base_domain records) 0 [] web report

pub check_tenant_web : Text → Tenant → Report → Report
check_tenant_web file tenant report =
    check_web file tenant.base_domain tenant.dns_override tenant.dns tenant.web report

-- An endpoint that is right in itself, beside records of the given names.
pub record IsEndpointOk (base_domain : Text) (names : List Text) (w : TenantWebEndpoint)
    : Type 0 where
  pub in_apex : is_outside (web_host w) (trim_suffix (to_lower base_domain) (txt ".")) ≡ false
  pub unclashed : contains names (web_host w) ≡ false
  pub reachable : is_host_port w.target ≡ true
  pub edge : (w.provider ≡ []) ⊎ (w.provider ≡ txt "edge")
  pub no_cdn : w.cdn ≡ false
  pub groups : All (λ g. is_realm_group g ≡ true) (items w.sso_groups)
  pub gated : w.sso ≡ false → (items w.sso_groups ≡ []) × (items w.sso_bypass_paths ≡ [])

abbrev pub web_hosts : List TenantWebEndpoint → List Text
web_hosts [] = []
web_hosts (w ∷ web) = web_host w ∷ web_hosts web

pub record HasValidWeb (base_domain : Text) (override : Option DnsOverride)
    (records : List TenantDnsRecord) (web : List TenantWebEndpoint) : Type 0 where
  pub zone : web ≢ [] → has_zone override ≡ true
  pub each : All (IsEndpointOk base_domain (dns_names base_domain records)) web
  pub distinct : Distinct (web_hosts web)
