-- ===== src/Workspace/Load/Examples.antt =====
-- The loading of concrete files.
use mksrv.Common.{Bool, true, false, none, some, [], ◌∷◌, Text, txt}
use mksrv.Model.Types.{UsersFile}
use mksrv.Workspace.Report.{Report}
use mksrv.Workspace.Load.{FileState, checked, report_schema, count_file, Loaded, store, count_users}

abbrev clean : Report
clean = record {
  valid = false;
  workspace = txt "/ws";
  files_checked = 1;
  hosts = 0;
  tenants = 0;
  users = 0;
  catalog_stacks = 0;
  issues = [];
}

abbrev users_file : UsersFile
users_file = record {
  tenant = txt "acme";
  users = record { email = txt "ann@acme.org"; name = txt "Ann"; groups = []; enabled = none } ∷ [];
}

abbrev wanted : Text → Bool
wanted path = true

abbrev key : UsersFile → Text
key users = users.tenant

abbrev read : Text → FileState UsersFile
read path = checked [] (some users_file)

abbrev start : Loaded UsersFile
start = record { values = []; files = []; report = clean }

abbrev storing : Loaded UsersFile
storing =
    store wanted key count_users (txt "$.tenant") (txt "users.tenant.duplicate") read
      (txt "a.users.yaml") (some users_file) start
      (report_schema (txt "a.users.yaml") [] (count_file clean))
