-- ===== src/Workspace/Fleet.antt =====
-- internal/workspace/semantic.go: the part of `semanticChecks` that visits the hosts, and the checks
-- of what they carry together: the base and identity stacks, the clusters, the dependencies.
pub mod Carriers
pub mod HostLaws
pub mod Together
use mksrv.Common.{
  ◌||◌, ℕ, suc, ◌+◌, ◌%◌, Bool, false, not, none, some, List, [], ◌∷◌, ◌++◌, arith, ltb, ◌==◌,
  if◌then◌else◌, length, is_empty, Text, txt, text_eq, text_lt, itoa, contains, lookup, insert,
  keys, keep, slice_stable,
}
use mksrv.Model.Types.{Host, Stack}
use mksrv.Workspace.Report.{Report, semantic_error}
use mksrv.Workspace.Report.Outcome.{error_if}
use mksrv.Workspace.Hosts.{check_host_capacity, check_host_storage}
use mksrv.Workspace.Cycles.{depends_on}

-- The variables of the loop over the hosts.
pub record Fleet : Type 0 where
  pub assigned : List (Text × List Text)
  pub base_hosts : List Text
  pub identity_hosts : List Text
  pub report : Report

-- `assigned[name]`, the empty slice for a missing key.
pub assigned_to : List (Text × List Text) → Text → List Text
assigned_to assigned name = elim (lookup assigned name) [ none ↦ [] | some hosts ↦ hosts ]

deployment_file : Text
deployment_file = txt "deployment.yaml"

stack_path : Text → ℕ → Text
stack_path host_name index =
    txt "$.hosts." ++ (host_name ++ (txt ".stacks[" ++ (itoa index ++ txt "]")))

-- `if stackName == wanted { names = append(names, hostName) }`
pub append_if : Bool → List Text → Text → List Text
append_if condition names host_name = if condition then names ++ host_name ∷ [] else names

-- The body of the loop over a host's stacks, for a stack of the catalog.
pub assign_stack : Text → Text → ℕ → Text → Stack → Fleet → Fleet
assign_stack host_name target index stack_name stack fleet = record {
  assigned =
      insert fleet.assigned stack_name (assigned_to fleet.assigned stack_name ++ host_name ∷ []);
  base_hosts = append_if (text_eq stack_name (txt "base")) fleet.base_hosts host_name;
  identity_hosts = append_if (text_eq stack_name (txt "identity")) fleet.identity_hosts host_name;
  report =
      error_if (not (contains stack.targets target)) fleet.report deployment_file
        (stack_path host_name index) (txt "stack.target");
}

pub check_stack : List (Text × Stack) → Text → Text → ℕ → Text → Fleet → Fleet
check_stack catalog host_name target index stack_name fleet = elim (lookup catalog stack_name) [
  | none ↦ record fleet {
    report =
        semantic_error fleet.report deployment_file (stack_path host_name index)
          (txt "stack.unknown");
  }
  | some stack ↦ assign_stack host_name target index stack_name stack fleet
]

pub check_stacks : List (Text × Stack) → Text → Text → ℕ → List Text → Fleet → Fleet
check_stacks catalog host_name target index [] fleet = fleet
check_stacks catalog host_name target index (stack_name ∷ stacks) fleet =
    check_stacks catalog host_name target (suc index) stacks
      (check_stack catalog host_name target index stack_name fleet)

pub target_of : Host → Text
target_of host = if text_eq host.provider (txt "existing") then txt "local" else txt "cloud"

-- The body of the loop over the hosts.
pub check_host : List (Text × Stack) → Text → Host → Fleet → Fleet
check_host catalog host_name host fleet =
    let walked = check_stacks catalog host_name (target_of host) 0 host.stacks fleet in
    record walked {
      report =
          check_host_storage catalog host_name host
            (check_host_capacity catalog host_name host walked.report);
    }

pub check_named_host : List (Text × Stack) → List (Text × Host) → Text → Fleet → Fleet
check_named_host catalog hosts host_name fleet = elim (lookup hosts host_name) [
  | none ↦ fleet
  | some host ↦ check_host catalog host_name host fleet
]

pub check_hosts : List (Text × Stack) → List (Text × Host) → List Text → Fleet → Fleet
check_hosts catalog hosts [] fleet = fleet
check_hosts catalog hosts (host_name ∷ names) fleet =
    check_hosts catalog hosts names (check_named_host catalog hosts host_name fleet)

-- sort.Strings
unfoldable pub sort_strings : List Text → List Text
sort_strings names = slice_stable text_lt names

unfoldable pub start_fleet : Report → Fleet
start_fleet report = record { assigned = []; base_hosts = []; identity_hosts = []; report = report }

-- `data.Catalog[name].Kind == "cluster"`
pub is_cluster : List (Text × Stack) → Text → Bool
is_cluster catalog name = elim (lookup catalog name) [
  | none ↦ false
  | some stack ↦ text_eq stack.kind (txt "cluster")
]

-- `n < 3 || n%2 == 0`
pub is_bad_quorum : ℕ → Bool
is_bad_quorum n = ltb n 3 || n % 2 == 0

pub check_clusters : List (Text × List Text) → List Text → Report → Report
check_clusters assigned [] report = report
check_clusters assigned (name ∷ names) report = check_clusters assigned names (
    error_if (is_bad_quorum (length (assigned_to assigned name))) report deployment_file
      (txt "$.hosts") (txt "stack.cluster.count"))

pub check_dependencies : List (Text × List Text) → List Text → Report → Report
check_dependencies assigned [] report = report
check_dependencies assigned (dependency ∷ rest) report = check_dependencies assigned rest (
    error_if (is_empty (assigned_to assigned dependency)) report deployment_file (txt "$.hosts")
      (txt "stack.dependency"))

pub check_all_dependencies :
    List (Text × Stack) → List (Text × List Text) → List Text → Report → Report
check_all_dependencies catalog assigned [] report = report
check_all_dependencies catalog assigned (name ∷ names) report =
    check_all_dependencies catalog assigned names
      (check_dependencies assigned (depends_on catalog name) report)

-- From the end of the loop over the hosts to the search for cycles.
pub check_fleet : List (Text × Stack) → Fleet → Report
check_fleet catalog fleet =
    let r1 =
      error_if (not (length fleet.base_hosts == 1)) fleet.report deployment_file (txt "$.hosts")
        (txt "stack.base.count") in
    let r2 =
      error_if (not (length fleet.identity_hosts == 1)) r1 deployment_file (txt "$.hosts")
        (txt "stack.identity.count") in
    let clusters = sort_strings (keep (is_cluster catalog) (keys fleet.assigned)) in
    let r3 = check_clusters fleet.assigned clusters r2 in
    check_all_dependencies catalog fleet.assigned (keys fleet.assigned) r3
