-- ===== src/Workspace/Discover.antt =====
-- internal/workspace/workspace.go: `Discover`, `resolveCandidate` and `isWorkspaceRoot`. An absolute
-- path is the list of its components, the last one first; every error is `none`.
pub mod Nearest
pub mod Examples
use mksrv.Common.{
  ◌||◌, Bool, true, false, not, Option, none, some, List, [], ◌∷◌, arith, if◌then◌else◌, ◌>>=◌,
  is_empty, Text, txt, text_eq, trim_space,
}

-- What os.Stat finds at a path.
pub data Entry : Type 0 where
  absent : Entry
  file : Entry
  folder : Entry

is_file : Entry → Bool
is_file absent = false
is_file file = true
is_file folder = false

is_folder : Entry → Bool
is_folder absent = false
is_folder file = false
is_folder folder = true

-- filepath.Dir
pub parent : List Text → List Text
parent [] = []
parent (name ∷ path) = path

-- The folder that a candidate stands for.
pub candidate_folder : Entry → List Text → Option (List Text)
candidate_folder absent path = none
candidate_folder folder path = some path
candidate_folder file [] = none
candidate_folder file (name ∷ path) =
    if text_eq name (txt "deployment.yaml") then some path else none

module _ (stat : List Text → Entry) where
  pub is_workspace_root : List Text → Bool
  is_workspace_root root =
      is_file (stat (txt "deployment.yaml" ∷ root)) || is_folder (stat (txt ".mksrv" ∷ root))

  -- The loop that walks upward.
  pub climb : List Text → Option (List Text)
  climb [] = if is_workspace_root [] then some [] else none
  climb (name ∷ path) =
      let up = climb path in if is_workspace_root (name ∷ path) then some (name ∷ path) else up

  -- `absolute` is filepath.Abs.
  module _ (absolute : Text → Option (List Text)) where
    pub resolve_candidate : Text → Option (List Text)
    resolve_candidate candidate = do
      path ← absolute candidate
      root ← candidate_folder (stat path) path
      if is_workspace_root root then some root else none

    pub discover_from : Text → Option (List Text)
    discover_from start = do
      path ← absolute start
      climb (if is_file (stat path) then parent path else path)

    -- `Discover`: `workspace_variable` is MKSRV_WORKSPACE, and `working_folder` what os.Getwd returns.
    pub discover : Text → Option Text → Text → Text → Option (List Text)
    discover workspace_variable working_folder start explicit =
        let candidate =
          if is_empty (trim_space explicit)
          then trim_space workspace_variable
          else trim_space explicit in
        if not (is_empty candidate)
        then resolve_candidate candidate
        else if is_empty (trim_space start)
        then (do folder_name ← working_folder; discover_from folder_name)
        else discover_from start
