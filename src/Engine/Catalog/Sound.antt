-- ===== src/Engine/Catalog/Sound.antt =====
-- What the embedded catalog is once it is loaded.
use mksrv.Common.{
  ◌≡◌, refl, sym, ap, ◌∙◌, subst, inl, inr, true, none, some, List, [], ◌∷◌, if◌then◌else◌,
  Bool-cases, Option-cases, List-cases, All, Text, text_eq, text_eq_refl, text_eq_sound, text_lt,
  contains, lookup, insert, lookup-insert, slice_stable, All-contains, contains-slice_stable,
}
use mathlib.Core.Option.{some-injective, some-ne-none}
use mksrv.Model.Types.{Stack}
use mksrv.Workspace.Seen.{is_dup}
use mksrv.Engine.Descriptor.{validate_descriptor, DescriptorIsValid, validate_descriptor_iff}
use mksrv.Engine.Catalog.{
  DescriptorFile, unreadable, malformed, invalid, decoded, directory_name, add_stack,
  load_descriptor, load_descriptors, catalog_of,
}

-- Every stack stands under its own name, and its descriptor is valid.
abbrev pub CatalogIsValid : List (Text × Stack) → Type 0
CatalogIsValid catalog =
    (name : Text) (stack : Stack)
    → lookup catalog name ≡ some stack
    → (stack.name ≡ name) × DescriptorIsValid stack

-- What is added to a catalog, and that nothing else changes.
record IsAdded (path : Text) (stack : Stack) (before after : List (Text × Stack)) : Type 0 where
  named : stack.name ≡ directory_name path
  valid : DescriptorIsValid stack
  new : lookup before stack.name ≡ none
  inserted : after ≡ insert before stack.name stack

add_stack-IsAdded :
    (path : Text) (stack : Stack) (before after : List (Text × Stack))
    → add_stack path stack before ≡ some after
    → IsAdded path stack before after
unfolding add_stack is_dup
add_stack-IsAdded path stack before after e =
    elim (Bool-cases (text_eq stack.name (directory_name path))) [
      | inr other ↦ absurd (some-ne-none after (sym (rw (add_stack, other) at e)))
      | inl same ↦ elim (Option-cases (lookup before stack.name)) [
        | inr (old, dup) ↦ absurd (some-ne-none after (sym (rw (add_stack, same, dup) at e)))
        | inl fresh ↦ elim (Option-cases (validate_descriptor stack)) [
          | inr (error, bad) ↦
              absurd (some-ne-none after (sym (rw (add_stack, same, fresh, bad) at e)))
          | inl good ↦ record {
            named = text_eq_sound stack.name (directory_name path) same;
            valid = (validate_descriptor_iff stack).0 good;
            new = fresh;
            inserted = sym (some-injective _ after (rw (add_stack, same, fresh, good) at e));
          }
        ]
      ]
    ]

module _ (path : Text) (stack : Stack) (before after : List (Text × Stack))
    (added : IsAdded path stack before after) where
  lookup-added :
      (name : Text)
      → lookup after name ≡ (if text_eq stack.name name then some stack else lookup before name)
  lookup-added name =
      ap (λ c. lookup c name) added.inserted ∙ lookup-insert before stack.name stack name

  added_kept : (name : Text) (s : Stack) → lookup before name ≡ some s → lookup after name ≡ some s
  added_kept name s h = elim (Bool-cases (text_eq stack.name name)) [
    | inl same ↦ cc (h, added.new, text_eq_sound stack.name name same)
    | inr other ↦ rw (lookup-added name, other) h
  ]

  added_listed : lookup after (directory_name path) ≡ some stack
  added_listed =
      subst (λ name. lookup after name ≡ some stack) added.named
        (rw (lookup-added stack.name, text_eq_refl) refl)

  added-CatalogIsValid : CatalogIsValid before → CatalogIsValid after
  added-CatalogIsValid v name s h = elim (Bool-cases (text_eq stack.name name)) [
    | inl same ↦
        let is_it : (stack ≡ s) = some-injective stack s (rw (lookup-added name, same) at h) in
        subst (λ x. (x.name ≡ name) × DescriptorIsValid x) is_it
          (text_eq_sound stack.name name same, added.valid)
    | inr other ↦ v name s (rw (lookup-added name, other) at h)
  ]

-- The file of a path is decoded, and its stack is in the catalog.
pub record IsListed (read : Text → DescriptorFile) (catalog : List (Text × Stack)) (path : Text)
    : Type 0 where
  pub stack : Stack
  pub file : read path ≡ decoded stack
  pub listed : lookup catalog (directory_name path) ≡ some stack

load_descriptor-IsAdded :
    (path : Text) (file : DescriptorFile) (before after : List (Text × Stack))
    → load_descriptor path file before ≡ some after
    → (stack : Stack) × (file ≡ decoded stack) × IsAdded path stack before after
unfolding load_descriptor
load_descriptor-IsAdded path unreadable before after e = cc
load_descriptor-IsAdded path malformed before after e = cc
load_descriptor-IsAdded path invalid before after e = cc
load_descriptor-IsAdded path (decoded stack) before after e =
    (stack, refl, add_stack-IsAdded path stack before after e)

module _ (read : Text → DescriptorFile) where
  -- What the loop over the paths keeps and adds.
  record Extends (paths : List Text) (before after : List (Text × Stack)) : Type 0 where
    kept : (name : Text) (s : Stack) → lookup before name ≡ some s → lookup after name ≡ some s
    valid : CatalogIsValid before → CatalogIsValid after
    listed : All (IsListed read after) paths

  load_descriptors-Extends :
      (paths : List Text) (before after : List (Text × Stack))
      → load_descriptors read paths before ≡ some after
      → Extends paths before after
  unfolding load_descriptors
  load_descriptors-Extends [] before after e =
      let same = some-injective before after e in
      subst (Extends [] before) same (record { kept = λ name s h. h; valid = λ v. v; listed = tt })
  load_descriptors-Extends (path ∷ paths) before after e =
      elim (Option-cases (load_descriptor path (read path) before)) [
        | inl failed ↦ absurd (some-ne-none after (sym (rw (load_descriptors, failed) at e)))
        | inr (next, loaded) ↦
            let (stack, file, added) =
              load_descriptor-IsAdded path (read path) before next loaded in
            let rest =
              load_descriptors-Extends paths next after (rw (load_descriptors, loaded) at e) in
            record {
              kept =
                  λ name s h. rest.kept name s (added_kept path stack before next added name s h);
              valid = λ v. rest.valid (added-CatalogIsValid path stack before next added v);
              listed = (
                record {
                  stack = stack;
                  file = file;
                  listed =
                      rest.kept (directory_name path) stack
                        (added_listed path stack before next added);
                },
                rest.listed,
              );
            }
      ]

  -- A catalog that `Catalog` returns holds the decoded stack of every embedded file, under the name
  -- of the file's folder, and every stack in it has a valid descriptor and stands under its own name.
  pub catalog_of_lem :
      (paths : List Text) (catalog : List (Text × Stack))
      → catalog_of read paths ≡ some catalog
      → CatalogIsValid catalog
        × ((path : Text) → contains paths path ≡ true → IsListed read catalog path)
  unfolding catalog_of lookup
  catalog_of_lem paths catalog e = elim (List-cases paths) [
    | inl none_listed ↦ cc (none_listed, e)
    | inr (some_listed, not_empty) ↦
        let sorted = slice_stable text_lt paths in
        let all = load_descriptors-Extends sorted [] catalog (rw (catalog_of, not_empty) at e) in
        (
          all.valid (λ name stack h. cc),
          λ path member.
              (All-contains (IsListed read catalog) sorted).0 all.listed path
                (contains-slice_stable text_lt paths path ∙ member),
        )
  ]
