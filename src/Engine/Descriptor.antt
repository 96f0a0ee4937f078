-- ===== src/Engine/Descriptor.antt =====
-- internal/engine/engine.go: `validateDescriptor`
use mksrv.Common.{
  ◌≡◌, refl, sym, ap, ◌∙◌, subst, ◌≢◌, ◌↔◌, inl, inr, Bool, true, false, ◌&&◌, ◌||◌, not, Option,
  none, some, List, [], ◌∷◌, arith, ◌==◌, if◌then◌else◌, Bool-cases, Option-cases, All, Text, txt,
  text_eq, text_eq_iff, contains, lookup, lookup-insert,
}
use mksrv.Model.Types.{Stack, StackApp, StackTemplate, StackHealth}
use mksrv.Workspace.Seen.{is_dup, note, Distinct, IsFresh, IsFresh-nil, IsFresh-cons, IsFresh-start}

pub data DescriptorError : Type 0 where
  duplicate_app : Text → DescriptorError
  unknown_app : Text → DescriptorError
  missing_path : Text → DescriptorError
  missing_port : Text → DescriptorError
  foreign_template : Text → DescriptorError

-- The loop over the apps: the first name that was seen before, or the set of all names.
unfoldable pub collect_apps :
    List (Text × Unit {0}) → List StackApp → Option DescriptorError × List (Text × Unit {0})
collect_apps seen [] = (none, seen)
collect_apps seen (app ∷ apps) =
    let rest = collect_apps (note seen app.name tt) apps in
    if is_dup seen app.name then (some (duplicate_app app.name), seen) else rest

unfoldable pub check_health : List (Text × Unit {0}) → List StackHealth → Option DescriptorError
check_health apps [] = none
check_health apps (check ∷ health) =
    let rest = check_health apps health in
    if not (is_dup apps check.app)
    then some (unknown_app check.app)
    else if text_eq check.type (txt "http") && text_eq check.path []
    then some (missing_path check.app)
    else if (text_eq check.type (txt "http") || text_eq check.type (txt "tcp")) && check.port == 0
    then some (missing_port check.app)
    else rest

unfoldable pub check_templates : Bool → List StackTemplate → Option DescriptorError
check_templates per_tenant [] = none
check_templates per_tenant (template ∷ templates) =
    let rest = check_templates per_tenant templates in
    if text_eq template.scope (txt "per_tenant") && not per_tenant
    then some (foreign_template template.src)
    else rest

-- The checks of the health and the templates, behind the loop over the apps.
unfoldable pub check_rest :
    Stack → Option DescriptorError × List (Text × Unit {0}) → Option DescriptorError
check_rest stack (some error, apps) = some error
check_rest stack (none, apps) = elim (check_health apps stack.health) [
  | some error ↦ some error
  | none ↦ check_templates stack.per_tenant stack.templates
]

unfoldable pub validate_descriptor : Stack → Option DescriptorError
validate_descriptor stack = check_rest stack (collect_apps [] stack.apps)

abbrev pub app_names : List StackApp → List Text
app_names [] = []
app_names (app ∷ apps) = app.name ∷ app_names apps

pub record HealthIsValid (names : List Text) (check : StackHealth) : Type 0 where
  pub app : contains names check.app ≡ true
  pub path : text_eq check.type (txt "http") ≡ true → text_eq check.path [] ≡ false
  pub port :
      (text_eq check.type (txt "http") || text_eq check.type (txt "tcp")) ≡ true → check.port ≢ 0

pub record DescriptorIsValid (stack : Stack) : Type 0 where
  pub distinct : Distinct (app_names stack.apps)
  pub health : All (HealthIsValid (app_names stack.apps)) stack.health
  pub templates :
      All
        (λ template. text_eq template.scope (txt "per_tenant") ≡ true → stack.per_tenant ≡ true)
        stack.templates

-- What the loop over the apps ends with: the set of all names, when none is found twice.
record Collected (seen : List (Text × Unit {0})) (apps : List StackApp)
    (result : Option DescriptorError × List (Text × Unit {0})) : Type 0 where
  ok : (result.0 ≡ none) ↔ IsFresh seen (app_names apps)
  names :
      result.0 ≡ none
      → (name : Text) → is_dup result.1 name ≡ (is_dup seen name || contains (app_names apps) name)

note_dup :
    (seen : List (Text × Unit {0})) (k j : Text)
    → is_dup (note seen k tt) j ≡ (is_dup seen j || text_eq k j)
unfolding is_dup note
note_dup seen k j = ground (arith, lookup-insert seen k tt j, text_eq_iff k j)

collect_apps_lem :
    (seen : List (Text × Unit {0})) (apps : List StackApp)
    → Collected seen apps (collect_apps seen apps)
unfolding collect_apps contains
collect_apps_lem seen [] = record {
  ok = ((λ _. (IsFresh-nil seen).0 tt), (λ _. refl));
  names = λ _ name. ground arith;
}
collect_apps_lem seen (app ∷ apps) =
    let rest = collect_apps_lem (note seen app.name tt) apps in
    let fresh = IsFresh-cons seen app.name tt (app_names apps) in
    elim (Bool-cases (is_dup seen app.name)) [
      | inl dup ↦
          let same : (collect_apps seen (app ∷ apps) ≡ (some (duplicate_app app.name), seen)) =
            rw (dup, collect_apps) refl in
          subst (Collected seen (app ∷ apps)) (sym same)
            (record { ok = ((λ h. cc), (λ h. cc (dup, (fresh.1 h).0))); names = λ h. cc })
      | inr new ↦
          let same : (collect_apps seen (app ∷ apps) ≡ collect_apps (note seen app.name tt) apps) =
            rw (new, collect_apps) refl in
          subst (Collected seen (app ∷ apps)) (sym same) (record {
            ok = ((λ h. fresh.0 (new, rest.ok.0 h)), (λ h. rest.ok.1 (fresh.1 h).1));
            names = λ h name. ground (arith, rest.names h name, note_dup seen app.name name);
          })
    ]

check_health_lem :
    (apps : List (Text × Unit {0})) (names : List Text)
    → ((name : Text) → is_dup apps name ≡ contains names name)
    → (health : List StackHealth)
    → (check_health apps health ≡ none) ↔ All (HealthIsValid names) health
unfolding check_health
check_health_lem apps names same [] = ((λ _. tt), (λ _. refl))
check_health_lem apps names same (check ∷ health) =
    let rest = check_health_lem apps names same health in
    let known = same check.app in
    (
      λ h. (
        record {
          app = ground (arith, h, known);
          path = λ e. ground (arith, h, e);
          port = λ e z. ground (arith, h, e, z);
        },
        rest.0 (ground (arith, h)),
      ),
      λ (v, others). ground (arith, known, v.app, v.path, v.port, rest.1 others),
    )

check_templates_lem :
    (per_tenant : Bool) (templates : List StackTemplate)
    → (check_templates per_tenant templates ≡ none)
      ↔ All (λ t. text_eq t.scope (txt "per_tenant") ≡ true → per_tenant ≡ true) templates
unfolding check_templates
check_templates_lem per_tenant [] = ((λ _. tt), (λ _. refl))
check_templates_lem per_tenant (t ∷ templates) =
    let rest = check_templates_lem per_tenant templates in
    (
      λ h. ((λ e. ground (arith, h, e)), rest.0 (ground (arith, h))),
      λ (scope, others). ground (arith, scope, rest.1 others),
    )

no_name_seen : (name : Text) → is_dup {V = Unit {0}} [] name ≡ false
unfolding is_dup lookup
no_name_seen name = refl

check_rest_lem :
    (stack : Stack) (result : Option DescriptorError × List (Text × Unit {0}))
    → Collected [] stack.apps result
    → (check_rest stack result ≡ none) ↔ DescriptorIsValid stack
unfolding check_rest
check_rest_lem stack (some error, apps) c =
    let start = IsFresh-start (Unit {0}) (app_names stack.apps) in
    ((λ h. cc), (λ v. cc (c.ok.1 (start.1 v.distinct))))
check_rest_lem stack (none, apps) c =
    let start = IsFresh-start (Unit {0}) (app_names stack.apps) in
    let health =
      check_health_lem apps (app_names stack.apps)
        (λ name.
          c.names refl name
          ∙ ap (λ b. b || contains (app_names stack.apps) name) (no_name_seen name))
        stack.health in
    let templates = check_templates_lem stack.per_tenant stack.templates in
    elim (Option-cases (check_health apps stack.health)) [
      | inl quiet ↦
          rw (quiet, check_rest)
            (
              (λ h. record {
                distinct = start.0 (c.ok.0 refl);
                health = health.0 quiet;
                templates = templates.0 h;
              }),
              (λ v. templates.1 v.templates),
            )
      | inr (error, found) ↦
          rw (found, check_rest) ((λ h. cc), (λ v. cc (found, health.1 v.health)))
    ]

-- `validateDescriptor` accepts a stack exactly when its app names are distinct, every health check
-- names an app and has the path and the port that its type needs, and no template is per tenant
-- unless the stack is.
pub validate_descriptor_iff :
    (stack : Stack) → (validate_descriptor stack ≡ none) ↔ DescriptorIsValid stack
unfolding validate_descriptor
validate_descriptor_iff stack =
    check_rest_lem stack (collect_apps [] stack.apps) (collect_apps_lem [] stack.apps)
