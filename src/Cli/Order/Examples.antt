-- ===== src/Cli/Order/Examples.antt =====
-- A small catalog, the stacks of a host, and some hosts.
use mksrv.Common.{
  ◌≡◌, refl, false, List, [], ◌∷◌, Text, txt, slice_stable, text_lt, contains, text_eq, lookup,
  keys,
}
use mksrv.Model.Types.{Host, Stack}
use mksrv.Workspace.Report.{Report}
use mksrv.Workspace.Report.Laws.{errors}
use mksrv.Workspace.Cycles.{
  mark, visit_dependency, visit_white, visit_roots, check_catalog_cycles, depends_on,
}
use mksrv.Cli.Order.{visit_all, visit, is_settled, visit_new, push, see, ordered_stacks, base_first}
use mksrv.Cli.Order.Sorted.{IsTopological, ordered_stacks-IsTopological}
use mksrv.Cli.Order.Hosts.{before, base_first_eq}

abbrev clean : Report
clean = record {
  valid = false;
  workspace = txt "/ws";
  files_checked = 1;
  hosts = 1;
  tenants = 0;
  users = 0;
  catalog_stacks = 3;
  issues = [];
}

abbrev stack : Text → List Text → Stack
stack name depends_on = record {
  name = name;
  targets = txt "cloud" ∷ [];
  kind = txt "single";
  per_tenant = false;
  depends_on = depends_on;
  apps = [];
  min_ram_mb = 256;
  storage = [];
  templates = [];
  health = [];
}

abbrev catalog : List (Text × Stack)
catalog =
    (txt "app", stack (txt "app") (txt "identity" ∷ txt "base" ∷ []))
    ∷ (txt "base", stack (txt "base") [])
    ∷ (txt "identity", stack (txt "identity") (txt "base" ∷ []))
    ∷ []

abbrev assigned : List Text
assigned = txt "identity" ∷ txt "base" ∷ txt "app" ∷ []

ordered_stacks_test : ordered_stacks catalog assigned ≡ txt "base" ∷ txt "identity" ∷ txt "app" ∷ []
unfolding ordered_stacks visit_all slice_stable text_lt txt visit is_settled contains text_eq
    visit_new push depends_on lookup see
ordered_stacks_test = refl

-- A stack that the host does not carry breaks the chain: `a` stands before `c`, on which it depends
-- through `b`.
ordered_stacks_gap :
    ordered_stacks
      ((txt "a", stack (txt "a") (txt "b" ∷ []))
        ∷ (txt "b", stack (txt "b") (txt "c" ∷ []))
        ∷ (txt "c", stack (txt "c") [])
        ∷ [])
      (txt "c" ∷ txt "a" ∷ [])
    ≡ txt "a" ∷ txt "c" ∷ []
unfolding ordered_stacks visit_all slice_stable text_lt txt visit is_settled contains text_eq
    visit_new push depends_on lookup see
ordered_stacks_gap = refl

no_cycle : errors (check_catalog_cycles catalog clean) ≡ errors clean
unfolding txt check_catalog_cycles visit_roots keys visit_white mark text_eq depends_on lookup
    visit_dependency errors mksrv.Workspace.Cycles.visit mksrv.Workspace.Cycles.visit_all
no_cycle = refl

ordered_stacks-IsTopological_example :
    IsTopological catalog assigned (ordered_stacks catalog assigned)
ordered_stacks-IsTopological_example = ordered_stacks-IsTopological catalog assigned clean no_cycle

abbrev host : List Text → Host
host stacks = record {
  provider = txt "aws";
  instance_type = txt "t3.small";
  root_gb = 20;
  data_gb = 0;
  address = [];
  ssh_user = [];
  ssh_port = 22;
  advertise_exitnode = false;
  stacks = stacks;
}

abbrev two_hosts : List (Text × Host)
two_hosts = (txt "db", host (txt "database" ∷ [])) ∷ (txt "edge", host assigned) ∷ []

base_first_eq_example : base_first two_hosts ≡ slice_stable before two_hosts
base_first_eq_example = base_first_eq two_hosts
