-- ===== src/Engine/Catalog.antt =====
-- internal/engine/engine.go: `Catalog`, over what the embedded files hold. Every error is `none`.
pub mod Sound
pub mod Examples
use mksrv.Common.{
  not, Option, none, some, List, [], ◌∷◌, arith, if◌then◌else◌, is_empty, take, Text, txt, text_eq,
  text_lt, last_index, insert, slice_stable,
}
use mksrv.Model.Types.{Stack}
use mksrv.Workspace.Seen.{is_dup}
use mksrv.Workspace.Tenants.{base_name}
use mksrv.Engine.Descriptor.{validate_descriptor}

-- What reading, the schema and the decoder make of one descriptor.
pub data DescriptorFile : Type 0 where
  unreadable : DescriptorFile
  malformed : DescriptorFile
  invalid : DescriptorFile
  decoded : Stack → DescriptorFile

-- filepath.Dir, of a path that has a folder.
folder_of : Text → Text
folder_of path = elim (last_index path 47) [ none ↦ txt "." | some i ↦ take i path ]

-- The name that the folder of a descriptor gives its stack.
pub directory_name : Text → Text
directory_name path = base_name (folder_of path)

-- The end of the loop's body, for a stack that is decoded.
pub add_stack : Text → Stack → List (Text × Stack) → Option (List (Text × Stack))
add_stack path stack catalog =
    if not (text_eq stack.name (directory_name path))
    then none
    else if is_dup catalog stack.name
    then none
    else elim (validate_descriptor stack) [
      | some error ↦ none
      | none ↦ some (insert catalog stack.name stack)
    ]

pub load_descriptor : Text → DescriptorFile → List (Text × Stack) → Option (List (Text × Stack))
load_descriptor path unreadable catalog = none
load_descriptor path malformed catalog = none
load_descriptor path invalid catalog = none
load_descriptor path (decoded stack) catalog = add_stack path stack catalog

module _ (read : Text → DescriptorFile) where
  pub load_descriptors : List Text → List (Text × Stack) → Option (List (Text × Stack))
  load_descriptors [] catalog = some catalog
  load_descriptors (path ∷ paths) catalog = elim (load_descriptor path (read path) catalog) [
    | none ↦ none
    | some next ↦ load_descriptors paths next
  ]

  -- `Catalog`, of the paths that fs.Glob lists.
  pub catalog_of : List Text → Option (List (Text × Stack))
  catalog_of paths =
      if is_empty paths then none else load_descriptors (slice_stable text_lt paths) []
