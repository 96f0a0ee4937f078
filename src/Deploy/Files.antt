-- ===== src/Deploy/Files.antt =====
-- internal/deploy/stack.go and internal/render/render.go: the rendered files, `dropEmpty`,
-- `SortedPaths`, `quadletUnits` and `fileMode`.
use mksrv.Common.{
  ℕ, ◌+◌, none, some, List, [], ◌∷◌, ◌++◌, if◌then◌else◌, is_empty, Text, txt, text_lt, has_suffix,
  trim_space, trim_right, trim_suffix, drop, last_index, keys, slice_stable,
}

-- path.Base
unfoldable pub base_name : Text → Text
base_name p =
    let kept = trim_right p 47 in
    if is_empty p
    then txt "."
    else if is_empty kept
    then txt "/"
    else elim (last_index kept 47) [ none ↦ kept | some i ↦ drop (i + 1) kept ]

unfoldable pub drop_empty : List (Text × Text) → List (Text × Text)
drop_empty [] = []
drop_empty ((dst, content) ∷ files) =
    if is_empty (trim_space content) then drop_empty files else (dst, content) ∷ drop_empty files

unfoldable pub sorted_paths : List (Text × Text) → List Text
sorted_paths files = slice_stable text_lt (keys files)

-- The loop of `quadletUnits`.
unfoldable pub units_in : List Text → List Text
units_in [] = []
units_in (dst ∷ paths) =
    let base = base_name dst in
    if has_suffix base (txt ".container")
    then (trim_suffix base (txt ".container") ++ txt ".service") ∷ units_in paths
    else units_in paths

unfoldable pub quadlet_units : List (Text × Text) → List Text
quadlet_units files = slice_stable text_lt (units_in (keys files))

unfoldable pub file_mode : Text → ℕ
file_mode dst = if has_suffix dst (txt ".sh") then 488 else 420
