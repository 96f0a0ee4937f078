-- ===== src/Workspace/Tenants/Outcome.antt =====
-- When the loop over the tenants adds no error.
use mksrv.Common.{
  ℕ, suc, ◌≡◌, refl, inl, inr, true, false, not, some, List, [], ◌∷◌, arith, Bool-cases,
  Option-cases, is_some, is_empty, All, Text, txt, text_eq, trim_suffix, lookup, is_cidr,
}
use mksrv.Model.Types.{Tenant, Stack}
use mksrv.Workspace.Report.{Report}
use mksrv.Workspace.Report.Outcome.{
  Reports, Reports-refl, Reports-trans, Reports-iff, Reports-error, Reports-error_if,
  Reports-and_if,
}
use mksrv.Workspace.Seen.{is_dup, note, IsFresh, IsFresh-nil, IsFresh-cons}
use mksrv.Workspace.Domain.{IsWithin, normal_domain, check_domain_within_root_lem}
use mksrv.Workspace.Checks.Forwards.{HasValidForwards, check_tenant_forwards_lem}
use mksrv.Workspace.Checks.Dns.{HasValidDns, check_tenant_dns_lem, check_tenant_mesh_routes_lem}
use mksrv.Workspace.Checks.Web.{HasValidWeb}
use mksrv.Workspace.Checks.Web.Outcome.{check_tenant_web_lem}
use mksrv.Workspace.Checks.Mail.{MailIsValid}
use mksrv.Workspace.Checks.Mail.Outcome.{check_tenant_mail_lem}
use mksrv.Workspace.Checks.Database.{DatabaseIsValid, check_tenant_database_lem}
use mksrv.Workspace.Fleet.{assigned_to}
use mksrv.Workspace.Tenants.{
  base_name, file_of, realm_of, check_tenant_stack, check_tenant_stacks, check_tenant_identity,
  check_tenant_blocks, check_tenant, check_tenants,
}

-- `carried s` lists the hosts that carry the stack `s`.
module _ (catalog : List (Text × Stack)) (carried : Text → List Text) where
  -- A tenant may consume the stack, and a host carries it.
  pub record IsConsumable (stack_name : Text) : Type 0 where
    pub stack : Stack
    pub known : lookup catalog stack_name ≡ some stack
    pub scope : stack.per_tenant ≡ true
    pub assigned : is_empty (carried stack_name) ≡ false

  pub record TenantIsValid (root file : Text) (tenant : Tenant) : Type 0 where
    pub filename : text_eq tenant.id (trim_suffix (base_name file) (txt ".yaml")) ≡ true
    pub domain :
        is_some tenant.dns_override ≡ false
        → IsWithin (normal_domain tenant.base_domain) (normal_domain root)
    pub stacks : All IsConsumable tenant.stacks
    pub forwards : HasValidForwards tenant
    pub dns : HasValidDns tenant.dns_override tenant.dns
    pub mesh_routes : All (λ route. is_cidr route ≡ true) tenant.mesh_routes
    pub web : HasValidWeb tenant.base_domain tenant.dns_override tenant.dns tenant.web
    pub database : DatabaseIsValid tenant.stacks tenant.database
    pub mail : MailIsValid tenant.dns_override tenant.mail (not (is_empty (carried (txt "mail"))))

  module _ (root : Text) (files : List (Text × Text)) where
    abbrev pub EntryIsValid : Text × Tenant → Type 0
    EntryIsValid entry = TenantIsValid root (file_of files entry.0) entry.1

abbrev pub realms_of : List (Text × Tenant) → List Text
realms_of [] = []
realms_of (entry ∷ tenants) = realm_of entry.1 ∷ realms_of tenants

module _ (catalog : List (Text × Stack)) (assigned : List (Text × List Text)) where
  abbrev Consumable : Text → Type 0
  Consumable = IsConsumable catalog (assigned_to assigned)

  check_tenant_stack_lem :
      (file : Text) (index : ℕ) (s : Text) (report : Report)
      → Reports report (check_tenant_stack catalog assigned file index s report) (Consumable s)
  unfolding check_tenant_stack
  check_tenant_stack_lem file index s report = elim (Option-cases (lookup catalog s)) [
    | inl absent ↦
        rw (absent, check_tenant_stack)
          (Reports-iff ((λ h. absurd h), (λ h. cc (absent, h.known))) (Reports-error _ _ _ report))
    | inr (stack, found) ↦
        rw (found, check_tenant_stack)
          (Reports-iff
            (
              (λ h. record {
                stack = stack;
                known = found;
                scope = ground (arith, h.0);
                assigned = h.1;
              }),
              (λ h. (ground (arith, found, h.known, h.scope), h.assigned)),
            )
            (Reports-and_if _ _ _ _ (Reports-error_if _ _ _ _ report)))
  ]

  check_tenant_stacks_lem :
      (file : Text) (index : ℕ) (stacks : List Text) (report : Report)
      → Reports report
          (check_tenant_stacks catalog assigned file index stacks report)
          (All Consumable stacks)
  unfolding check_tenant_stacks
  check_tenant_stacks_lem file index [] report = Reports-refl report
  check_tenant_stacks_lem file index (s ∷ stacks) report =
      Reports-trans (check_tenant_stack_lem file index s report)
        (check_tenant_stacks_lem file (suc index) stacks _)

  abbrev IdentityIsValid : Text → Text → Tenant → Type 0
  IdentityIsValid root file tenant =
      (text_eq tenant.id (trim_suffix (base_name file) (txt ".yaml")) ≡ true)
      × (is_some tenant.dns_override ≡ false
          → IsWithin (normal_domain tenant.base_domain) (normal_domain root))

  check_tenant_identity_lem :
      (root file : Text) (tenant : Tenant) (report : Report)
      → Reports report
          (check_tenant_identity catalog assigned root file tenant report)
          (IdentityIsValid root file tenant)
  unfolding check_tenant_identity
  check_tenant_identity_lem root file tenant report =
      elim (Bool-cases (is_some tenant.dns_override)) [
        | inl e ↦
            rw (e, check_tenant_identity)
              (Reports-iff ((λ h. (ground arith, (λ d. cc))), (λ h. ground (arith, h.0)))
                (Reports-error_if _ _ _ _ report))
        | inr e ↦
            rw (e, check_tenant_identity)
              (Reports-iff
                ((λ h. (ground (arith, h.0), (λ _. h.1))), (λ h. (ground (arith, h.0), h.1 refl)))
                (Reports-trans (Reports-error_if _ _ _ _ report)
                  (check_domain_within_root_lem file _ tenant.base_domain root _)))
      ]

  check_tenant_lem :
      (root file : Text) (realms : List (Text × Text)) (tenant : Tenant) (report : Report)
      → Reports report (check_tenant catalog assigned root file realms tenant report) (
          TenantIsValid catalog (assigned_to assigned) root file tenant
          × (is_dup realms (realm_of tenant) ≡ false))
  unfolding check_tenant check_tenant_blocks
  check_tenant_lem root file realms tenant report =
      Reports-iff
        (
          (λ ((((((((id, fresh), stacks), forwards), dns), routes), web), database), mail). (
            record {
              filename = id.0;
              domain = id.1;
              stacks = stacks;
              forwards = forwards;
              dns = dns;
              mesh_routes = routes;
              web = web;
              database = database;
              mail = mail;
            },
            fresh,
          )),
          (λ (v, fresh). (
            (
              (
                ((((((v.filename, v.domain), fresh), v.stacks), v.forwards), v.dns), v.mesh_routes),
                v.web,
              ),
              v.database,
            ),
            v.mail,
          )),
        )
        (Reports-trans
          (Reports-trans
            (Reports-trans
              (Reports-trans
                (Reports-trans
                  (Reports-trans
                    (Reports-trans
                      (Reports-and_if _ _ _ _ (check_tenant_identity_lem root file tenant report))
                      (check_tenant_stacks_lem file 0 tenant.stacks _))
                    (check_tenant_forwards_lem file tenant _))
                  (check_tenant_dns_lem file tenant _))
                (check_tenant_mesh_routes_lem file tenant _))
              (check_tenant_web_lem file tenant _))
            (check_tenant_database_lem file tenant _))
          (check_tenant_mail_lem file tenant _ _))

  module _ (root : Text) (files : List (Text × Text)) where
    -- The loop over the tenants adds no error exactly when every tenant is valid, the realms of all
    -- are distinct, and none of them was noted before.
    pub check_tenants_lem :
        (realms : List (Text × Text)) (tenants : List (Text × Tenant)) (report : Report)
        → Reports report (check_tenants catalog assigned root files realms tenants report) (
            All (EntryIsValid catalog (assigned_to assigned) root files) tenants
            × IsFresh realms (realms_of tenants))
    unfolding check_tenants
    check_tenants_lem realms [] report =
        Reports-iff ((λ h. (tt, (IsFresh-nil realms).0 h)), (λ h. tt)) (Reports-refl report)
    check_tenants_lem realms ((tenant_id, tenant) ∷ tenants) report =
        let fresh = IsFresh-cons realms (realm_of tenant) tenant.id (realms_of tenants) in
        Reports-iff
          (
            (λ h. ((h.0.0, h.1.0), fresh.0 (h.0.1, h.1.1))),
            (λ h. let f = fresh.1 h.1 in ((h.0.0, f.0), (h.0.1, f.1))),
          )
          (Reports-trans (check_tenant_lem root (file_of files tenant_id) realms tenant report)
            (check_tenants_lem (note realms (realm_of tenant) tenant.id) tenants _))
