-- ===== src/Cli/Tenants/Origins.antt =====
-- The origin ports of a tenant's web endpoints, as an operator reads them off the workspace.
use mathlib.Core.List.{Memᴰ}
use mksrv.Common.{
  ℕ, ◌≤◌, ◌↔◌, ◌⊎◌, ◌≡◌, refl, sym, ap, ◌∙◌, subst, inl, inr, Bool, true, false, ◌&&◌, ◌||◌, not,
  List, [], ◌∷◌, is_empty, arith, Bool-cases, All, Text, text_eq, text_eq_sound, text_eq_refl,
  text_eq_iff, contains, contains-count_if, contains-keys, contains-slice_stable, All-contains,
  insert, lookup-insert, keys, slice_stable-IsSorted, IsSorted, count_if, count_if-slice_stable,
  text_lt, text_lt_irrefl, text_lt_asym, text_lt_neg_trans, text_lt_total, is_host_port,
}
use mksrv.Model.Types.{TenantWebEndpoint}
use mksrv.Cli.Tenants.{port_of, port_set, web_origin_ports}

-- Some endpoint's target is a host and the port.
pub record IsOriginPort (web : List TenantWebEndpoint) (port : Text) : Type 0 where
  pub endpoint : TenantWebEndpoint
  pub listed : Memᴰ endpoint web
  pub splits : is_host_port endpoint.target ≡ true
  pub named : port_of endpoint.target ≡ port
  pub some_text : is_empty port ≡ false

abbrev pub IsAscending : List Text → Type 0
IsAscending [] = Unit
IsAscending (p ∷ ports) = All (λ q. text_lt p q ≡ true) ports × IsAscending ports

-- The list has the ports of the endpoints and no others, each once and in the order of their texts.
pub record IsOriginPorts (web : List TenantWebEndpoint) (ports : List Text) : Type 0 where
  pub members : (p : Text) → (contains ports p ≡ true) ↔ IsOriginPort web p
  pub ascending : IsAscending ports

-- The number of times that a text is listed.
abbrev times : Text → List Text → ℕ
times k texts = count_if (λ t. text_eq t k) texts

module _ {V : Type 0} where
  times-insert_other :
      (m : List (Text × V)) (j : Text) (v : V) (k : Text)
      → text_eq j k ≡ false
      → times k (keys (insert m j v)) ≡ times k (keys m)
  unfolding count_if insert keys
  times-insert_other [] j v k h = ground arith
  times-insert_other ((i, w) ∷ m) j v k h =
      ground (arith, h, text_eq_iff i j, text_eq_iff i k, times-insert_other m j v k h)

  times-insert_le :
      (m : List (Text × V)) (j : Text) (v : V) (k : Text)
      → times k (keys m) ≤ 1
      → times k (keys (insert m j v)) ≤ 1
  unfolding count_if insert keys
  times-insert_le [] j v k h = ground arith
  times-insert_le ((i, w) ∷ m) j v k h = ground (
    arith,
    h,
    text_eq_iff i j,
    text_eq_iff i k,
    text_eq_iff j k,
    times-insert_other m j v k,
    times-insert_le m j v k,
  )

times-port_set :
    (web : List TenantWebEndpoint) (set : List (Text × Bool))
    → ((k : Text) → times k (keys set) ≤ 1)
    → (k : Text) → times k (keys (port_set web set)) ≤ 1
unfolding port_set
times-port_set [] set h k = h k
times-port_set (w ∷ web) set h k =
    elim (Bool-cases (is_host_port w.target && not (is_empty (port_of w.target)))) [
      | inl port ↦ rw port (
          times-port_set web (insert set (port_of w.target) true)
            (λ j. times-insert_le set (port_of w.target) true j (h j)) k)
      | inr other ↦ rw other (times-port_set web set h k)
    ]

-- A sorted list that has no text twice is ascending.
ascends :
    (ports : List Text)
    → IsSorted text_lt ports
    → ((k : Text) → times k ports ≤ 1)
    → IsAscending ports
unfolding count_if
ascends [] sorted once = tt
ascends (p ∷ ports) (not_before, sorted) once = (
  (All-contains (λ q. text_lt p q ≡ true) ports).1 (λ q listed. elim (Bool-cases (text_lt p q)) [
    | inl before ↦ before
    | inr behind ↦
        let same =
          text_lt_total p q behind
            ((All-contains (λ r. text_lt r p ≡ false) ports).0 not_before q listed) in
        ground (
          arith,
          once p,
          text_eq_refl p,
          contains-count_if ports p,
          subst (λ r. contains ports r ≡ true) (sym same) listed,
        )
  ]),
  ascends ports sorted (λ k. ground (arith, once k)),
)

contains-insert :
    (set : List (Text × Bool)) (port p : Text)
    → contains (keys (insert set port true)) p ≡ (text_eq port p || contains (keys set) p)
contains-insert set port p = ground (
  arith,
  contains-keys (insert set port true) p,
  contains-keys set p,
  lookup-insert set port true p,
)

IsOriginPort-more :
    (w : TenantWebEndpoint) (web : List TenantWebEndpoint) (p : Text)
    → IsOriginPort web p
    → IsOriginPort (w ∷ web) p
IsOriginPort-more w web p o = record {
  endpoint = o.endpoint;
  listed = Memᴰ.tail o.listed;
  splits = o.splits;
  named = o.named;
  some_text = o.some_text;
}

port_set-IsOriginPort :
    (web : List TenantWebEndpoint) (set : List (Text × Bool)) (p : Text)
    → contains (keys (port_set web set)) p ≡ true
    → (contains (keys set) p ≡ true) ⊎ IsOriginPort web p
unfolding port_set
port_set-IsOriginPort [] set p h = inl h
port_set-IsOriginPort (w ∷ web) set p h =
    elim (Bool-cases (is_host_port w.target && not (is_empty (port_of w.target)))) [
      | inr other ↦ elim (port_set-IsOriginPort web set p (rw other at h)) [
        | inl before ↦ inl before
        | inr o ↦ inr (IsOriginPort-more w web p o)
      ]
      | inl port ↦
          elim (port_set-IsOriginPort web (insert set (port_of w.target) true) p (rw port at h)) [
            | inr o ↦ inr (IsOriginPort-more w web p o)
            | inl listed ↦ elim (Bool-cases (text_eq (port_of w.target) p)) [
              | inr other ↦ inl (ground (arith, contains-insert set (port_of w.target) p))
              | inl same ↦
                  let named = text_eq_sound (port_of w.target) p same in
                  inr (record {
                    endpoint = w;
                    listed = Memᴰ.head refl;
                    splits = ground arith;
                    named = named;
                    some_text = subst (λ t. is_empty t ≡ false) named (ground arith);
                  })
            ]
          ]
    ]

-- What is in the set stays there.
port_set-keeps :
    (web : List TenantWebEndpoint) (set : List (Text × Bool)) (p : Text)
    → contains (keys set) p ≡ true
    → contains (keys (port_set web set)) p ≡ true
unfolding port_set
port_set-keeps [] set p h = h
port_set-keeps (w ∷ web) set p h =
    elim (Bool-cases (is_host_port w.target && not (is_empty (port_of w.target)))) [
      | inr other ↦ rw other (port_set-keeps web set p h)
      | inl port ↦ rw port (
          port_set-keeps web (insert set (port_of w.target) true) p
            (ground (arith, contains-insert set (port_of w.target) p)))
    ]

port_set-contains :
    (web : List TenantWebEndpoint) (set : List (Text × Bool)) (w : TenantWebEndpoint)
    → Memᴰ w web
    → is_host_port w.target ≡ true
    → is_empty (port_of w.target) ≡ false
    → contains (keys (port_set web set)) (port_of w.target) ≡ true
unfolding port_set
port_set-contains [] set w m splits some_text = elim m [ ]
port_set-contains (_ ∷ web) set w (Memᴰ.head e) splits some_text =
    subst (λ v. contains (keys (port_set (v ∷ web) set)) (port_of w.target) ≡ true) e
      (rw (port_set, splits, some_text)
        (port_set-keeps web (insert set (port_of w.target) true) (port_of w.target)
          (rw (contains-insert, text_eq_refl) refl)))
port_set-contains (v ∷ web) set w (Memᴰ.tail m) splits some_text =
    port_set-contains web _ w m splits some_text

-- An ascending list does not have its first text again.
not_later :
    (p r : Text) (ports : List Text)
    → ((q : Text) → contains ports q ≡ true → text_lt p q ≡ true)
    → p ≡ r
    → contains ports r ≡ false
not_later p r ports before e = elim (Bool-cases (contains ports r)) [
  | inr none ↦ none
  | inl listed ↦
      ground (arith, subst (λ q. text_lt p q ≡ true) (sym e) (before r listed), text_lt_irrefl p)
]

-- Two ascending lists with the same members are the same.
ascending_unique :
    (a b : List Text)
    → IsAscending a
    → IsAscending b
    → ((p : Text) → contains a p ≡ contains b p)
    → a ≡ b
unfolding contains
ascending_unique [] [] h k same = refl
ascending_unique [] (q ∷ b) h k same = ground (arith, same q, text_eq_refl q)
ascending_unique (p ∷ a) [] h k same = ground (arith, same p, text_eq_refl p)
ascending_unique (p ∷ a) (q ∷ b) (hp, h) (kq, k) same =
    let before = (All-contains (λ r. text_lt p r ≡ true) a).0 hp in
    let behind = (All-contains (λ r. text_lt q r ≡ true) b).0 kq in
    elim (Bool-cases (text_eq p q)) [
      | inr other ↦
          let later : text_lt q p ≡ true =
            behind p (ground (arith, same p, text_eq_refl p, text_eq_iff p q, text_eq_iff q p)) in
          let sooner : text_lt p q ≡ true =
            before q (ground (arith, same q, text_eq_refl q, text_eq_iff p q, text_eq_iff q p)) in
          ground (arith, text_lt_asym p q sooner)
      | inl one ↦
          let head = text_eq_sound p q one in
          rw head (
            ap (λ ports. q ∷ ports)
              (ascending_unique a b h k (λ r. elim (Bool-cases (text_eq p r)) [
                | inr other ↦ ground (arith, same r, head)
                | inl here ↦
                    let e = text_eq_sound p r here in
                    not_later p r a before e ∙ sym (not_later q r b behind (sym head ∙ e))
              ])))
    ]

-- The ports of the policy are those of the endpoints.
pub web_origin_ports-IsOriginPorts :
    (web : List TenantWebEndpoint) → IsOriginPorts web (web_origin_ports web)
unfolding web_origin_ports keys contains count_if
web_origin_ports-IsOriginPorts web = record {
  members = λ p. (
    λ listed.
        elim (port_set-IsOriginPort web [] p
          (sym (contains-slice_stable text_lt (keys (port_set web [])) p) ∙ listed)) [
            | inl before ↦ cc
            | inr o ↦ o
          ],
    λ o.
        contains-slice_stable text_lt (keys (port_set web [])) p
        ∙ subst (λ t. contains (keys (port_set web [])) t ≡ true) o.named
            (port_set-contains web [] o.endpoint o.listed o.splits
              (subst (λ t. is_empty t ≡ false) (sym o.named) o.some_text)),
  );
  ascending =
      ascends (web_origin_ports web)
        (slice_stable-IsSorted text_lt
          (record { asym = text_lt_asym; neg_trans = text_lt_neg_trans }) (keys (port_set web [])))
        (λ k. ground (
          arith,
          times-port_set web [] no_port k,
          count_if-slice_stable text_lt (λ t. text_eq t k) (keys (port_set web [])),
        ));
}
  where
    no_port : (k : Text) → times k (keys {V = Bool} []) ≤ 1
    no_port k = omega arith

-- No other list is.
pub IsOriginPorts-unique :
    (web : List TenantWebEndpoint) (ports : List Text)
    → IsOriginPorts web ports
    → ports ≡ web_origin_ports web
IsOriginPorts-unique web ports is =
    let code = web_origin_ports-IsOriginPorts web in
    ascending_unique ports (web_origin_ports web) is.ascending code.ascending
      (λ p. ground (arith, is.members p, code.members p))
