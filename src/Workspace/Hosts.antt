-- ===== src/Workspace/Hosts.antt =====
-- internal/workspace/semantic.go: `normalizeImplicitStacks`, `checkHostCapacity` and
-- `checkHostStorage`.
pub mod Implicit
pub mod CapacityLaws
pub mod StorageLaws
use mksrv.Common.{
  ℕ, ◌+◌, Bool, true, false, not, none, some, List, [], ◌∷◌, ◌++◌, arith, ltb, leb, if◌then◌else◌,
  Text, txt, text_eq, contains, lookup,
}
use mksrv.Model.Types.{Host, Stack, StackVolume}
use mksrv.Model.Capacity.{instance_ram_mb, add_min_ram}
use mksrv.Workspace.Report.{Report, semantic_warning}
use mksrv.Workspace.Report.Outcome.{error_if}
use mksrv.Workspace.Seen.{is_dup, note}

-- The first loop of `normalizeImplicitStacks`, with its break.
pub has_monitor : List (Text × Host) → Bool
has_monitor [] = false
has_monitor ((name, host) ∷ hosts) =
    if contains host.stacks (txt "monitor") then true else has_monitor hosts

pub add_agent : Host → Host
add_agent host =
    if not (contains host.stacks (txt "agent"))
    then record host { stacks = txt "agent" ∷ host.stacks }
    else host

pub add_agents : List (Text × Host) → List (Text × Host)
add_agents [] = []
add_agents ((name, host) ∷ hosts) = (name, add_agent host) ∷ add_agents hosts

-- On the map of hosts, which is all of the deployment that the function changes.
pub normalize_implicit_stacks : List (Text × Host) → List (Text × Host)
normalize_implicit_stacks hosts = if not (has_monitor hosts) then hosts else add_agents hosts

deployment_file : Text
deployment_file = txt "deployment.yaml"

host_path : Text → Text
host_path host_name = txt "$.hosts." ++ host_name

-- `itype`, with its default.
pub capacity_type : Host → Text
capacity_type host = if text_eq host.instance_type [] then txt "t4g.small" else host.instance_type

-- The swap size in the message is not modelled with it.
pub check_host_capacity : List (Text × Stack) → Text → Host → Report → Report
check_host_capacity catalog host_name host report =
    if not (text_eq host.provider (txt "aws"))
    then report
    else elim (instance_ram_mb (capacity_type host)) [
      | none ↦ report
      | some have ↦
          if leb (add_min_ram catalog host.stacks 0) have
          then report
          else semantic_warning report deployment_file (host_path host_name)
              (txt "capacity.overcommit")
    ]

-- The variables of the loops of `checkHostStorage`.
pub record Storage : Type 0 where
  pub seen : List (Text × Text)
  pub total : ℕ
  pub report : Report

pub check_volume : Text → Text → Text → Storage → Storage
check_volume host_name stack_name volume_name state = record {
  seen = note state.seen volume_name stack_name;
  total = state.total + 1;
  report =
      error_if (is_dup state.seen volume_name) state.report deployment_file (host_path host_name)
        (txt "storage.name.collision");
}

pub check_volumes : Text → Text → List StackVolume → Storage → Storage
check_volumes host_name stack_name [] state = state
check_volumes host_name stack_name (v ∷ volumes) state =
    check_volumes host_name stack_name volumes (check_volume host_name stack_name v.name state)

-- `data.Catalog[stackName].Storage`
pub storage_of : List (Text × Stack) → Text → List StackVolume
storage_of catalog stack_name = elim (lookup catalog stack_name) [
  | none ↦ []
  | some stack ↦ stack.storage
]

pub check_storage : List (Text × Stack) → Text → List Text → Storage → Storage
check_storage catalog host_name [] state = state
check_storage catalog host_name (stack_name ∷ stacks) state =
    check_storage catalog host_name stacks
      (check_volumes host_name stack_name (storage_of catalog stack_name) state)

pub check_host_storage : List (Text × Stack) → Text → Host → Report → Report
check_host_storage catalog host_name host report =
    if text_eq host.provider (txt "existing")
    then report
    else let start : Storage = record { seen = []; total = 0; report = report } in
      let end = check_storage catalog host_name host.stacks start in
      error_if (ltb 10 end.total) end.report deployment_file (host_path host_name)
        (txt "storage.count")
