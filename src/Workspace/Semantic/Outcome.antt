-- ===== src/Workspace/Semantic/Outcome.antt =====
-- When a workspace is accepted.
use mksrv.Common.{
  ◌≡◌, refl, subst, ◌↔◌, ◌⊎◌, inl, inr, Bool, true, Option, some, List, [], ◌∷◌, arith, Bool-cases,
  Option-cases, All, Text, txt, text_eq, text_eq_iff, text_eq_sound, text_lt, lookup, keys,
  contains-keys, is_cidr, All-contains, contains-slice_stable,
}
use mathlib.Core.Option.{some-injective}
use mksrv.Model.Types.{Deployment, Host, Tenant, Lock}
use mksrv.Workspace.Report.{Report}
use mksrv.Workspace.Report.Outcome.{
  Reports, Reports-trans, Reports-iff, Reports-error_if, Reports-and_if,
}
use mksrv.Workspace.Seen.{Distinct, IsFresh, IsFresh-start}
use mksrv.Workspace.Engine.{ValidateOptions, EngineIsFit, check_engine_versions_lem}
use mksrv.Workspace.Domain.{IsWithin, normal_domain, check_domain_within_root_lem}
use mksrv.Workspace.Cycles.Graph.{IsAcyclic}
use mksrv.Workspace.Cycles.Theorem.{check_catalog_cycles_lem}
use mksrv.Workspace.Fleet.{assigned_to, check_hosts, sort_strings, start_fleet}
use mksrv.Workspace.Fleet.Carriers.{carriers}
use mksrv.Workspace.Fleet.HostLaws.{HostIsValid, check_hosts_lem}
use mksrv.Workspace.Fleet.Together.{IsWhole, assigned_to-check_hosts, check_fleet_lem}
use mksrv.Workspace.Tenants.{entries, check_tenants}
use mksrv.Workspace.Tenants.Outcome.{EntryIsValid, realms_of, check_tenants_lem}
use mksrv.Workspace.Users.{UsersEntryIsValid, check_users_lem}
use mksrv.Workspace.Semantic.{Data, timezone_of, check_deployment, visit_hosts, semantic_checks}

-- The hosts that carry a stack, in the order of their names.
abbrev pub carried_by : Data → Text → List Text
carried_by loaded =
    carriers loaded.catalog loaded.deployment.hosts (sort_strings (keys loaded.deployment.hosts))

-- The tenants in the order of their ids.
abbrev pub sorted_tenants : Data → List (Text × Tenant)
sorted_tenants loaded = entries loaded.tenants (sort_strings (keys loaded.tenants))

module _ (is_location : Text → Bool) where
  -- The deployment's own values.
  pub record DeploymentIsValid (deployment : Deployment) (lock : Option Lock)
      (options : ValidateOptions) : Type 0 where
    pub timezone : is_location (timezone_of deployment) ≡ true
    pub mgmt_cidr : (deployment.mgmt_cidr ≡ txt "auto") ⊎ (is_cidr deployment.mgmt_cidr ≡ true)
    pub engine : EngineIsFit deployment.engine lock options
    pub keycloak_domain :
        IsWithin
          (normal_domain deployment.identity.keycloak_domain)
          (normal_domain deployment.root_domain)
    pub headscale_domain :
        IsWithin
          (normal_domain deployment.identity.headscale_domain)
          (normal_domain deployment.root_domain)

  -- What a workspace must be to be accepted.
  pub record WorkspaceIsValid (loaded : Data) (options : ValidateOptions) : Type 0 where
    pub deployment : DeploymentIsValid loaded.deployment loaded.lock options
    pub hosts :
        (name : Text) (host : Host)
        → lookup loaded.deployment.hosts name ≡ some host
        → HostIsValid loaded.catalog host
    pub fleet : IsWhole loaded.catalog (carried_by loaded)
    pub catalog : IsAcyclic loaded.catalog
    pub tenants :
        (id : Text) (tenant : Tenant)
        → lookup loaded.tenants id ≡ some tenant
        → EntryIsValid loaded.catalog
            (carried_by loaded)
            loaded.deployment.root_domain
            loaded.tenant_files
            (id, tenant)
    pub realms : Distinct (realms_of (sorted_tenants loaded))
    pub users : All (UsersEntryIsValid loaded.tenants loaded.users_files) loaded.users

  check_deployment_lem :
      (deployment : Deployment) (lock : Option Lock) (options : ValidateOptions) (report : Report)
      → Reports report
          (check_deployment is_location deployment lock options report)
          (DeploymentIsValid deployment lock options)
  unfolding check_deployment
  check_deployment_lem deployment lock options report =
      let auto = text_eq_iff deployment.mgmt_cidr (txt "auto") in
      Reports-iff
        (
          (λ ((((zone, cidr), engine), keycloak), headscale). record {
            timezone = ground (arith, zone);
            mgmt_cidr = elim (Bool-cases (text_eq deployment.mgmt_cidr (txt "auto"))) [
              | inl e ↦ inl (text_eq_sound deployment.mgmt_cidr (txt "auto") e)
              | inr e ↦ inr (ground (arith, cidr, e))
            ];
            engine = engine;
            keycloak_domain = keycloak;
            headscale_domain = headscale;
          }),
          (λ v. (
            (
              (
                (
                  ground (arith, v.timezone),
                  elim v.mgmt_cidr [ inl e ↦ ground (arith, auto) | inr e ↦ ground arith ],
                ),
                v.engine,
              ),
              v.keycloak_domain,
            ),
            v.headscale_domain,
          )),
        )
        (Reports-trans
          (Reports-trans
            (Reports-trans (Reports-and_if _ _ _ _ (Reports-error_if _ _ _ _ report))
              (check_engine_versions_lem deployment.engine lock options _))
            (check_domain_within_root_lem _ _ deployment.identity.keycloak_domain
              deployment.root_domain _))
          (check_domain_within_root_lem _ _ deployment.identity.headscale_domain
            deployment.root_domain _))

-- A property of every entry that a loop over sorted keys visits is one of every entry.
module _ {V : Type 0} (P : Text × V → Type 0) (m : List (Text × V)) where
  entries_iff :
      (ks : List Text)
      → All P (entries m ks) ↔ All (λ k. (v : V) → lookup m k ≡ some v → P (k, v)) ks
  unfolding entries
  entries_iff [] = (λ h. h, λ h. h)
  entries_iff (k ∷ ks) = elim (Option-cases (lookup m k)) [
    | inl absent ↦
        rw (absent, entries)
          ((λ h. ((λ v e. cc), (entries_iff ks).0 h)), (λ h. (entries_iff ks).1 h.1))
    | inr (v, found) ↦
        rw (found, entries)
          (
            (λ h. (
              (λ w e. subst (λ x. P (k, x)) (some-injective v w e) h.0),
              (entries_iff ks).0 h.1,
            )),
            (λ h. (h.0 v refl, (entries_iff ks).1 h.1)),
          )
  ]

module _ {V : Type 0} (m : List (Text × V)) (P : Text → V → Type 0) where
  -- The same for a property of keys that asks something of their values alone.
  sorted_iff :
      All (λ k. (v : V) → lookup m k ≡ some v → P k v) (sort_strings (keys m))
      ↔ ((k : Text) (v : V) → lookup m k ≡ some v → P k v)
  unfolding sort_strings
  sorted_iff =
      let each =
        All-contains (λ k. (v : V) → lookup m k ≡ some v → P k v) (sort_strings (keys m)) in
      (
        λ h k v e.
            each.0 h k
              (ground (arith, e, contains-slice_stable text_lt (keys m) k, contains-keys m k)) v e,
        λ h. each.1 (λ k member v e. h k v e),
      )

funext : {f g : Text → List Text} → ((s : Text) → f s ≡ g s) → f ≡ g
funext h = λ i s. h s i

module _ (is_location : Text → Bool) (loaded : Data) where
  -- The loop over the tenants, whatever holds what the hosts carry.
  tenants_lem :
      (assigned : List (Text × List Text)) (carried : Text → List Text)
      → assigned_to assigned ≡ carried
      → (report : Report)
      → Reports report
          (check_tenants loaded.catalog assigned loaded.deployment.root_domain loaded.tenant_files
            []
            (sorted_tenants loaded)
            report)
          (All
              (EntryIsValid loaded.catalog carried loaded.deployment.root_domain
                loaded.tenant_files)
              (sorted_tenants loaded)
            × IsFresh {V = Text} [] (realms_of (sorted_tenants loaded)))
  tenants_lem assigned carried same report =
      subst
        (λ c.
          Reports report
            (check_tenants loaded.catalog assigned loaded.deployment.root_domain loaded.tenant_files
              [] (sorted_tenants loaded) report)
            (All (EntryIsValid loaded.catalog c loaded.deployment.root_domain loaded.tenant_files)
                (sorted_tenants loaded)
              × IsFresh {V = Text} [] (realms_of (sorted_tenants loaded))))
        same
        (check_tenants_lem loaded.catalog assigned loaded.deployment.root_domain loaded.tenant_files
          [] (sorted_tenants loaded) report)

  -- `semanticChecks` adds no error exactly when the workspace is valid.
  pub semantic_checks_lem :
      (options : ValidateOptions) (report : Report)
      → Reports report
          (semantic_checks is_location loaded options report)
          (WorkspaceIsValid is_location loaded options)
  unfolding semantic_checks visit_hosts start_fleet
  semantic_checks_lem options report =
      let d = loaded.deployment in
      let names = sort_strings (keys d.hosts) in
      let r0 = check_deployment is_location d loaded.lock options report in
      let fleet = check_hosts loaded.catalog d.hosts names (start_fleet r0) in
      let same : (assigned_to fleet.assigned ≡ carried_by loaded) =
        funext (assigned_to-check_hosts loaded.catalog d.hosts names r0) in
      let hosts = sorted_iff d.hosts (λ _ host. HostIsValid loaded.catalog host) in
      let valid =
        EntryIsValid loaded.catalog (carried_by loaded) d.root_domain loaded.tenant_files in
      let tenants = sorted_iff loaded.tenants (λ id tenant. valid (id, tenant)) in
      let visited = entries_iff valid loaded.tenants (sort_strings (keys loaded.tenants)) in
      let start = IsFresh-start Text (realms_of (sorted_tenants loaded)) in
      Reports-iff
        (
          (λ (((((dep, hs), whole), acyclic), (ts, realms)), us). record {
            deployment = dep;
            hosts = hosts.0 hs;
            fleet = whole;
            catalog = acyclic;
            tenants = tenants.0 (visited.0 ts);
            realms = start.0 realms;
            users = us;
          }),
          (λ v. (
            (
              (((v.deployment, hosts.1 v.hosts), v.fleet), v.catalog),
              (visited.1 (tenants.1 v.tenants), start.1 v.realms),
            ),
            v.users,
          )),
        )
        (Reports-trans
          (Reports-trans
            (Reports-trans
              (Reports-trans
                (Reports-trans (check_deployment_lem is_location d loaded.lock options report)
                  (check_hosts_lem loaded.catalog d.hosts names (start_fleet r0)))
                (check_fleet_lem loaded.catalog d.hosts names r0))
              (check_catalog_cycles_lem loaded.catalog _))
            (tenants_lem fleet.assigned (carried_by loaded) same _))
          (check_users_lem loaded.tenants loaded.users_files loaded.users _))
