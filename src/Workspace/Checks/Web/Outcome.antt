-- ===== src/Workspace/Checks/Web/Outcome.antt =====
-- When `checkTenantWeb` adds no error.
use mksrv.Common.{
  ℕ, suc, ◌≡◌, refl, ◌↔◌, ◌⊎◌, inl, inr, Bool, true, false, ◌&&◌, not, Option, List, [], ◌∷◌, arith,
  Bool-cases, is_empty, All, Text, txt, text_eq, text_eq_iff, text_eq_sound,
}
use mksrv.Model.Types.{Tenant, TenantDnsRecord, TenantWebEndpoint, DnsOverride, items}
use mksrv.Workspace.Report.{Report}
use mksrv.Workspace.Report.Outcome.{
  Reports, Reports-refl, Reports-trans, Reports-iff, Reports-error, Reports-error_if,
  Reports-and_if,
}
use mksrv.Workspace.Seen.{is_dup, note, IsFresh, IsFresh-start, IsFresh-cons}
use mksrv.Workspace.Checks.Dns.{has_zone}
use mksrv.Workspace.Checks.Web.{
  dns_names, web_host, web_hosts, is_realm_group, check_sso_groups, check_endpoint, check_endpoints,
  check_web, check_tenant_web, IsEndpointOk, HasValidWeb,
}

check_sso_groups_lem :
    (file path : Text) (groups : List Text) (report : Report)
    → Reports report
        (check_sso_groups file path groups report)
        (All (λ g. is_realm_group g ≡ true) groups)
unfolding check_sso_groups
check_sso_groups_lem file path [] report = Reports-refl report
check_sso_groups_lem file path (g ∷ groups) report =
    Reports-iff ((λ h. (ground arith, h.1)), (λ h. (ground arith, h.1)))
      (Reports-trans (Reports-error_if _ _ _ _ report) (check_sso_groups_lem file path groups _))

edge_iff :
    (provider : Text)
    → (not (text_eq provider []) && not (text_eq provider (txt "edge")) ≡ false)
      ↔ ((provider ≡ []) ⊎ (provider ≡ txt "edge"))
edge_iff provider = (
  λ h. elim (Bool-cases (text_eq provider [])) [
    | inl e ↦ inl (text_eq_sound provider [] e)
    | inr e ↦ inr (text_eq_sound provider (txt "edge") (ground arith))
  ],
  λ h. ground (arith, text_eq_iff provider [], text_eq_iff provider (txt "edge")),
)

-- `len(texts) > 0 && !w.SSO`
gated_iff :
    (texts : List Text) (sso : Bool)
    → (not (is_empty texts) && not sso ≡ false) ↔ (sso ≡ false → texts ≡ [])
gated_iff [] sso = (λ h e. refl, λ h. refl)
gated_iff (t ∷ texts) true = (λ h e. cc, λ h. refl)
gated_iff (t ∷ texts) false = (λ h e. cc, λ h. cc (h refl))

check_endpoint_lem :
    (file base_domain : Text) (names : List Text) (i : ℕ) (seen : List (Text × ℕ))
    (w : TenantWebEndpoint) (report : Report)
    → Reports report
        (check_endpoint file base_domain names i seen w report)
        (IsEndpointOk base_domain names w × (is_dup seen (web_host w) ≡ false))
unfolding check_endpoint
check_endpoint_lem file base_domain names i seen w report =
    Reports-iff
      (
        (λ h. (
          record {
            in_apex = h.0.0.0.0.0.0.0.0.0;
            unclashed = h.0.0.0.0.0.0.0.1;
            reachable = ground arith;
            edge = (edge_iff w.provider).0 h.0.0.0.0.0.1;
            no_cdn = h.0.0.0.0.1;
            groups = h.0.1;
            gated = λ e. (
              (gated_iff (items w.sso_groups) w.sso).0 h.0.0.1 e,
              (gated_iff (items w.sso_bypass_paths) w.sso).0 h.1 e,
            );
          },
          h.0.0.0.0.0.0.0.0.1,
        )),
        (λ h. (
          (
            (
              (
                (
                  (
                    (((h.0.in_apex, h.1), h.0.unclashed), ground (arith, h.0.reachable)),
                    (edge_iff w.provider).1 h.0.edge,
                  ),
                  h.0.no_cdn,
                ),
                ground (arith, h.0.no_cdn),
              ),
              (gated_iff (items w.sso_groups) w.sso).1 (λ e. (h.0.gated e).0),
            ),
            h.0.groups,
          ),
          (gated_iff (items w.sso_bypass_paths) w.sso).1 (λ e. (h.0.gated e).1),
        )),
      )
      (Reports-and_if _ _ _ _ (
        Reports-trans
          (Reports-and_if _ _ _ _ (
            Reports-and_if _ _ _ _ (
              Reports-and_if _ _ _ _ (
                Reports-and_if _ _ _ _ (
                  Reports-and_if _ _ _ _ (
                    Reports-and_if _ _ _ _
                      (Reports-and_if _ _ _ _ (Reports-error_if _ _ _ _ report))))))))
          (check_sso_groups_lem file _ (items w.sso_groups) _)))

check_endpoints_lem :
    (file base_domain : Text) (names : List Text) (i : ℕ) (seen : List (Text × ℕ))
    (web : List TenantWebEndpoint) (report : Report)
    → Reports report
        (check_endpoints file base_domain names i seen web report)
        (All (IsEndpointOk base_domain names) web × IsFresh seen (web_hosts web))
unfolding check_endpoints
check_endpoints_lem file base_domain names i seen [] report =
    Reports-iff ((λ h. (tt, (tt, tt))), (λ h. tt)) (Reports-refl report)
check_endpoints_lem file base_domain names i seen (w ∷ web) report =
    Reports-iff
      (
        (λ h.
            ((h.0.0, h.1.0), (IsFresh-cons seen (web_host w) i (web_hosts web)).0 (h.0.1, h.1.1))),
        (λ h.
            let fresh = (IsFresh-cons seen (web_host w) i (web_hosts web)).1 h.1 in
            ((h.0.0, fresh.0), (h.0.1, fresh.1))),
      )
      (Reports-trans (check_endpoint_lem file base_domain names i seen w report) (
        check_endpoints_lem file base_domain names (suc i) (note seen (web_host w) i) web
          (check_endpoint file base_domain names i seen w report)))

check_web_lem :
    (file base_domain : Text) (override : Option DnsOverride) (records : List TenantDnsRecord)
    (web : List TenantWebEndpoint) (report : Report)
    → Reports report
        (check_web file base_domain override records web report)
        (HasValidWeb base_domain override records web)
unfolding check_web
check_web_lem file base_domain override records [] report =
    Reports-iff
      (
        (λ h. record { zone = λ some_web. absurd (some_web refl); each = tt; distinct = tt }),
        (λ h. tt),
      )
      (Reports-refl report)
check_web_lem file base_domain override records (w ∷ web) report =
    elim (Bool-cases (has_zone override)) [
      | inl zone ↦ rw zone (
          Reports-iff
            (
              (λ h. record { zone = λ _. zone; each = h.0; distinct = h.1.1 }),
              (λ h. (h.each, (IsFresh-start ℕ (web_hosts (w ∷ web))).1 h.distinct)),
            )
            (check_endpoints_lem file base_domain (dns_names base_domain records) 0 [] (w ∷ web)
              report))
      | inr absent ↦ rw absent (
          Reports-iff ((λ h. absurd h), (λ h. cc (absent, h.zone cc)))
            (Reports-error file _ _ report))
    ]

-- `checkTenantWeb` adds no error exactly when a tenant with endpoints has a Route 53 zone of its
-- own; every endpoint lies in the tenant's apex, has no name of a `dns:` record, a host:port target,
-- the edge provider or none, no CDN, known realm groups only, and neither groups nor bypass paths
-- without SSO; and no two endpoints have one host name, up to case, space and a final dot.
pub check_tenant_web_lem :
    (file : Text) (tenant : Tenant) (report : Report)
    → Reports report
        (check_tenant_web file tenant report)
        (HasValidWeb tenant.base_domain tenant.dns_override tenant.dns tenant.web)
unfolding check_tenant_web
check_tenant_web_lem file tenant report =
    check_web_lem file tenant.base_domain tenant.dns_override tenant.dns tenant.web report
