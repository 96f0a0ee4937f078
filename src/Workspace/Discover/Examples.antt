-- ===== src/Workspace/Discover/Examples.antt =====
-- Discovering a concrete workspace.
use mksrv.Common.{Option, some, List, [], ◌∷◌, if◌then◌else◌, Text, txt, text_eq}
use mksrv.Workspace.Discover.{Entry, absent, file, folder, climb}
use mksrv.Workspace.Discover.Nearest.{Climbed, climb_lem}

abbrev workspace : List Text
workspace = txt "ws" ∷ txt "srv" ∷ []

-- One file, deployment.yaml in /srv/ws; every other path is a folder but for `.mksrv`.
abbrev stat : List Text → Entry
stat [] = folder
stat (name ∷ path) =
    if text_eq name (txt "deployment.yaml")
    then file
    else if text_eq name (txt ".mksrv")
    then absent
    else folder

abbrev absolute : Text → Option (List Text)
absolute path = some (txt "ws" ∷ txt "srv" ∷ [])

climb_example : Climbed stat (txt "tenants" ∷ workspace) (climb stat (txt "tenants" ∷ workspace))
climb_example = climb_lem stat (txt "tenants" ∷ workspace)
