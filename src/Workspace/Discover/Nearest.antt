-- ===== src/Workspace/Discover/Nearest.antt =====
-- Which folder `Discover` finds.
use mksrv.Common.{
  ◌≡◌, refl, sym, ap, subst, ◌⊎◌, inl, inr, true, false, Option, none, some, List, [], ◌∷◌, ◌++◌,
  if◌then◌else◌, Bool-cases, Option-cases, is_empty, Text, trim_space,
}
use mathlib.Core.Option.{some-injective, some-ne-none}
use mksrv.Workspace.Discover.{
  Entry, is_workspace_root, climb, candidate_folder, resolve_candidate, discover_from, discover,
}

-- The path itself, or a folder above it.
abbrev pub IsAbove : List Text → List Text → Type 0
IsAbove root path = (below : List Text) × (path ≡ below ++ root)

IsAbove-cons :
    (root : List Text) (name : Text) (path : List Text)
    → IsAbove root path
    → IsAbove root (name ∷ path)
IsAbove-cons root name path (below, e) = (name ∷ below, ap (λ p. name ∷ p) e)

IsAbove-inv :
    (root : List Text) (name : Text) (path : List Text)
    → IsAbove root (name ∷ path)
    → (root ≡ name ∷ path) ⊎ IsAbove root path
IsAbove-inv root name path ([], e) = inl (sym e)
IsAbove-inv root name path (n ∷ below, e) = inr (below, cc e)

module _ (stat : List Text → Entry) where
  -- The nearest workspace at or above a path: every other one is above it too.
  pub record IsNearest (path root : List Text) : Type 0 where
    pub above : IsAbove root path
    pub marked : is_workspace_root stat root ≡ true
    pub nearest :
        (other : List Text)
        → IsAbove other path
        → is_workspace_root stat other ≡ true
        → IsAbove other root

  -- What the walk upward ends with.
  abbrev pub Climbed : List Text → Option (List Text) → Type 0
  Climbed path (some root) = IsNearest path root
  Climbed path none =
      (other : List Text) → IsAbove other path → is_workspace_root stat other ≡ false

  IsAbove-nil : (other : List Text) → IsAbove other [] → other ≡ []
  IsAbove-nil other ([], e) = sym e
  IsAbove-nil other (n ∷ below, e) = cc e

  climb_up :
      (name : Text) (path : List Text) (result : Option (List Text))
      → is_workspace_root stat (name ∷ path) ≡ false
      → Climbed path result
      → Climbed (name ∷ path) result
  climb_up name path none bare up = λ other above. elim (IsAbove-inv other name path above) [
    | inl same ↦ subst (λ o. is_workspace_root stat o ≡ false) (sym same) bare
    | inr higher ↦ up other higher
  ]
  climb_up name path (some root) bare up = record {
    above = IsAbove-cons root name path up.above;
    marked = up.marked;
    nearest = λ other above marked. elim (IsAbove-inv other name path above) [
      | inl same ↦ cc (bare, subst (λ o. is_workspace_root stat o ≡ true) same marked)
      | inr higher ↦ up.nearest other higher marked
    ];
  }

  -- The walk upward finds the nearest workspace at or above the folder that it starts from, and finds
  -- nothing only when there is none.
  pub climb_lem : (path : List Text) → Climbed path (climb stat path)
  unfolding climb
  climb_lem [] = elim (Bool-cases (is_workspace_root stat [])) [
    | inl e ↦
        rw (e, climb)
          (record { above = ([], refl); marked = e; nearest = λ other above marked. above })
    | inr e ↦
        rw (e, climb)
          (λ other above.
            subst (λ o. is_workspace_root stat o ≡ false) (sym (IsAbove-nil other above)) e)
  ]
  climb_lem (name ∷ path) = elim (Bool-cases (is_workspace_root stat (name ∷ path))) [
    | inl e ↦
        rw (e, climb)
          (record { above = ([], refl); marked = e; nearest = λ other above marked. above })
    | inr e ↦ rw (e, climb) (climb_up name path (climb stat path) e (climb_lem path))
  ]

  climb-marked :
      (path root : List Text) → climb stat path ≡ some root → is_workspace_root stat root ≡ true
  climb-marked path root e = marked_of (climb stat path) (climb_lem path) e
    where
      marked_of :
          (result : Option (List Text))
          → Climbed path result
          → result ≡ some root
          → is_workspace_root stat root ≡ true
      marked_of none up h = absurd (some-ne-none root (sym h))
      marked_of (some found) up h =
          subst (λ r. is_workspace_root stat r ≡ true) (some-injective found root h) up.marked

  module _ (absolute : Text → Option (List Text)) where
    resolve_candidate-marked :
        (candidate : Text) (root : List Text)
        → resolve_candidate stat absolute candidate ≡ some root
        → is_workspace_root stat root ≡ true
    unfolding resolve_candidate
    resolve_candidate-marked candidate root e = elim (Option-cases (absolute candidate)) [
      | inl a ↦ absurd (some-ne-none root (sym (rw (resolve_candidate, a) at e)))
      | inr (path, a) ↦ elim (Option-cases (candidate_folder (stat path) path)) [
        | inl c ↦ absurd (some-ne-none root (sym (rw (resolve_candidate, a, c) at e)))
        | inr (found, c) ↦ elim (Bool-cases (is_workspace_root stat found)) [
          | inl marked ↦
              subst (λ r. is_workspace_root stat r ≡ true)
                (some-injective found root (rw (resolve_candidate, a, c, marked) at e)) marked
          | inr bare ↦ absurd (some-ne-none root (sym (rw (resolve_candidate, a, c, bare) at e)))
        ]
      ]
    ]

    discover_from-marked :
        (start : Text) (root : List Text)
        → discover_from stat absolute start ≡ some root
        → is_workspace_root stat root ≡ true
    unfolding discover_from
    discover_from-marked start root e = elim (Option-cases (absolute start)) [
      | inl a ↦ absurd (some-ne-none root (sym (rw (discover_from, a) at e)))
      | inr (path, a) ↦ climb-marked _ root (rw (discover_from, a) at e)
    ]

    -- Whichever way it goes, by a path that is given, by MKSRV_WORKSPACE or by walking upward,
    -- `Discover` returns only a folder that is marked as a workspace.
    pub discover-marked :
        (workspace_variable : Text) (working_folder : Option Text) (start explicit : Text)
        (root : List Text)
        → discover stat absolute workspace_variable working_folder start explicit ≡ some root
        → is_workspace_root stat root ≡ true
    unfolding discover
    discover-marked workspace_variable working_folder start explicit root e =
        let candidate : Text =
          if is_empty (trim_space explicit)
          then trim_space workspace_variable
          else trim_space explicit in
        elim (Bool-cases (is_empty candidate)) [
          | inr given ↦ resolve_candidate-marked candidate root (rw (discover, given) at e)
          | inl bare ↦ elim (Bool-cases (is_empty (trim_space start))) [
            | inr from ↦ discover_from-marked start root (rw (discover, bare, from) at e)
            | inl here ↦ elim (Option-cases working_folder) [
              | inl w ↦ absurd (some-ne-none root (sym (rw (discover, bare, here, w) at e)))
              | inr (name, w) ↦ discover_from-marked name root (rw (discover, bare, here, w) at e)
            ]
          ]
        ]
