-- ===== src/Cli/Tenants/Isolated.antt =====
-- The policy of the mesh for the tenants of a workspace.
use mathlib.Core.List.{Memᴰ}
use mathlib.Core.List.Memᴰ
use mksrv.Common.{
  ◌↔◌, sym, ap, subst, ◌∙◌, is_some, keys, contains-keys, contains-slice_stable, text_eq,
  text_eq_sound, ◌≡◌, refl, inl, inr, true, false, some, List, [], ◌∷◌, Bool-cases, Option-cases,
  is_empty, All, All-append, Text, txt, text_eq_refl, contains, lookup, join, arith,
}
use mksrv.Model.Types.{Tenant}
use mksrv.Headscale.Policy.{
  Rule, nodes, network, fleet_user, fleet_ports, any_port, route_rules, web_rules, tenant_rules,
  tenants_rules, policy_rules,
}
use mksrv.Cli.Tenants.Origins.{IsOriginPorts, web_origin_ports-IsOriginPorts, IsOriginPorts-unique}
use mksrv.Cli.Tenants.{
  web_origin_ports, policy_tenant, policy_of, policy_tenants, sorted_tenant_ids,
}

module _ (tenants : List (Text × Tenant)) where
  -- What the policy may allow: the fleet reaches itself, and the origin ports of the web endpoints of
  -- a tenant; a tenant reaches its own devices, the service ports of the fleet, and its own networks.
  pub data IsAllowed : Rule → Type 0 where
    fleet : IsAllowed (record { src = fleet_user; dst = nodes fleet_user any_port })
    origins :
        (id : Text) (t : Tenant) (ports : List Text)
        → lookup tenants id ≡ some t
        → IsOriginPorts t.web ports
        → is_empty ports ≡ false
        → IsAllowed (record { src = fleet_user; dst = nodes id (join ports (txt ",")) })
    own :
        (id : Text) (t : Tenant)
        → lookup tenants id ≡ some t
        → IsAllowed (record { src = id; dst = nodes id any_port })
    services :
        (id : Text) (t : Tenant)
        → lookup tenants id ≡ some t
        → IsAllowed (record { src = id; dst = nodes fleet_user fleet_ports })
    routes :
        (id cidr : Text) (t : Tenant)
        → lookup tenants id ≡ some t
        → contains t.mesh_routes cidr ≡ true
        → IsAllowed (record { src = id; dst = network cidr })

  module _ (id : Text) (t : Tenant) (known : lookup tenants id ≡ some t) where
    route_rules-IsAllowed :
        (cidrs : List Text)
        → ((cidr : Text) → contains cidrs cidr ≡ true → contains t.mesh_routes cidr ≡ true)
        → All IsAllowed (route_rules id cidrs)
    unfolding route_rules contains
    route_rules-IsAllowed [] listed = tt
    route_rules-IsAllowed (cidr ∷ cidrs) listed = (
      routes id cidr t known (listed cidr (rw text_eq_refl refl)),
      route_rules-IsAllowed cidrs (λ c h. listed c (ground (arith, h))),
    )

    web_rules-IsAllowed : All IsAllowed (web_rules (policy_tenant id t))
    unfolding web_rules policy_tenant
    web_rules-IsAllowed = elim (Bool-cases (is_empty (web_origin_ports t.web))) [
      | inl e ↦ rw (web_rules, e) tt
      | inr e ↦
          rw (web_rules, e)
            (
              origins id t (web_origin_ports t.web) known (web_origin_ports-IsOriginPorts t.web) e,
              tt,
            )
    ]

    tenant_rules-IsAllowed : All IsAllowed (tenant_rules (policy_tenant id t))
    unfolding tenant_rules policy_tenant
    tenant_rules-IsAllowed = (
      own id t known,
      (
        services id t known,
        All-append IsAllowed (route_rules id t.mesh_routes) (web_rules (policy_tenant id t))
            (route_rules-IsAllowed t.mesh_routes (λ c h. h)) web_rules-IsAllowed,
      ),
    )

  policy_of-IsAllowed : (ids : List Text) → All IsAllowed (tenants_rules (policy_of tenants ids))
  unfolding policy_of tenants_rules
  policy_of-IsAllowed [] = tt
  policy_of-IsAllowed (id ∷ ids) = elim (Option-cases (lookup tenants id)) [
    | inl e ↦ rw (policy_of, e) (policy_of-IsAllowed ids)
    | inr (t, e) ↦
        rw (policy_of, e)
          (All-append IsAllowed (tenant_rules (policy_tenant id t)) _
            (tenant_rules-IsAllowed id t e) (policy_of-IsAllowed ids))
  ]

  module _ (id : Text) (t : Tenant) (known : lookup tenants id ≡ some t) (r : Rule)
      (here : Memᴰ r (tenant_rules (policy_tenant id t))) where
    policy_of-Memᴰ :
        (ids : List Text) → contains ids id ≡ true → Memᴰ r (tenants_rules (policy_of tenants ids))
    unfolding policy_of tenants_rules contains
    policy_of-Memᴰ [] h = cc
    policy_of-Memᴰ (i ∷ ids) h = elim (Bool-cases (text_eq i id)) [
      | inl same ↦
          rw (policy_of, ap (lookup tenants) (text_eq_sound i id same) ∙ known)
            (Memᴰ.append_left _ (
              subst (λ j. Memᴰ r (tenant_rules (policy_tenant j t))) (sym (text_eq_sound i id same))
                here))
      | inr other ↦
          let rest = policy_of-Memᴰ ids (rw other at h) in
          elim (Option-cases (lookup tenants i)) [
            | inl e ↦ rw (policy_of, e) rest
            | inr (u, e) ↦ rw (policy_of, e) (Memᴰ.append_right _ rest)
          ]
    ]

    in_policy : Memᴰ r (policy_rules (policy_tenants tenants))
    unfolding policy_rules policy_tenants sorted_tenant_ids
    in_policy = Memᴰ.tail (
        policy_of-Memᴰ (sorted_tenant_ids tenants)
          (contains-slice_stable _ (keys tenants) id ∙ contains-keys tenants id ∙ ap is_some known))

  route_rules-Memᴰ :
      (id cidr : Text) (cidrs : List Text)
      → contains cidrs cidr ≡ true
      → Memᴰ (record { src = id; dst = network cidr }) (route_rules id cidrs)
  unfolding route_rules contains
  route_rules-Memᴰ id cidr [] h = cc
  route_rules-Memᴰ id cidr (c ∷ cidrs) h = elim (Bool-cases (text_eq c cidr)) [
    | inl same ↦
        Memᴰ.head (ap (λ n. record { src = id; dst = network n }) (sym (text_eq_sound c cidr same)))
    | inr other ↦ Memᴰ.tail (route_rules-Memᴰ id cidr cidrs (rw other at h))
  ]

  All-Memᴰ : (r : Rule) (rules : List Rule) → All IsAllowed rules → Memᴰ r rules → IsAllowed r
  All-Memᴰ r [] all m = elim m [ ]
  All-Memᴰ r (_ ∷ rules) (a, all) (Memᴰ.head e) = subst IsAllowed (sym e) a
  All-Memᴰ r (_ ∷ rules) (a, all) (Memᴰ.tail m) = All-Memᴰ r rules all m

  allowed-Memᴰ : (r : Rule) → IsAllowed r → Memᴰ r (policy_rules (policy_tenants tenants))
  unfolding tenant_rules policy_tenant web_rules policy_rules
  allowed-Memᴰ _ fleet = Memᴰ.head refl
  allowed-Memᴰ _ (origins id t ports known are some_port) =
      let same = IsOriginPorts-unique t.web ports are in
      let here : Memᴰ (record { src = fleet_user; dst = nodes id (join ports (txt ",")) })
          (web_rules (policy_tenant id t)) =
        rw (web_rules, subst (λ l. is_empty l ≡ false) same some_port)
          (Memᴰ.head
            (ap (λ l. record { src = fleet_user; dst = nodes id (join l (txt ",")) }) same)) in
      in_policy id t known _
        (Memᴰ.tail (Memᴰ.tail (Memᴰ.append_right (route_rules id t.mesh_routes) here)))
  allowed-Memᴰ _ (own id t known) = in_policy id t known _ (Memᴰ.head refl)
  allowed-Memᴰ _ (services id t known) = in_policy id t known _ (Memᴰ.tail (Memᴰ.head refl))
  allowed-Memᴰ _ (routes id cidr t known listed) =
      in_policy id t known _
        (Memᴰ.tail (Memᴰ.tail (Memᴰ.append_left _ (route_rules-Memᴰ id cidr t.mesh_routes listed))))

  -- A rule stands in the policy for a workspace exactly when it is one of these: the fleet reaches
  -- itself, and on the devices of each tenant with an origin port it reaches those ports: the ports of
  -- the targets of the tenant's web endpoints that are a host and a port, each once and in the order
  -- of their texts; each tenant reaches its own devices, the service ports of the fleet, and the
  -- networks that the workspace lists for that tenant.
  pub policy_tenants_iff : (r : Rule) → Memᴰ r (policy_rules (policy_tenants tenants)) ↔ IsAllowed r
  unfolding policy_rules policy_tenants
  policy_tenants_iff r = (
    All-Memᴰ r (policy_rules (policy_tenants tenants))
        (fleet, policy_of-IsAllowed (sorted_tenant_ids tenants)),
    allowed-Memᴰ r,
  )
