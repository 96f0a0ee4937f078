-- ===== src/Workspace/Hosts/CapacityLaws.antt =====
-- When `checkHostCapacity` warns.
use mksrv.Common.{
  ℕ, ◌+◌, ◌<◌, ◌≡◌, refl, inl, inr, true, some, List, arith, leb, Bool-cases, Option-cases, Text,
  txt, text_eq,
}
use mksrv.Model.Types.{Host, Stack}
use mksrv.Model.Capacity.{instance_ram_mb, add_min_ram}
use mksrv.Model.Capacity.Bounds.{total_min_ram, add_min_ram-eq-total}
use mksrv.Workspace.Report.{Report}
use mksrv.Workspace.Report.Laws.{
  errors, warnings, errors-semantic_warning, warnings-semantic_warning,
}
use mksrv.Workspace.Hosts.{capacity_type, check_host_capacity}

-- The stacks of an AWS host of a known type want more memory than it has.
pub record IsOvercommitted (catalog : List (Text × Stack)) (host : Host) : Type 0 where
  pub on_aws : text_eq host.provider (txt "aws") ≡ true
  pub have : ℕ
  pub known : instance_ram_mb (capacity_type host) ≡ some have
  pub short : have < total_min_ram catalog host.stacks

-- `checkHostCapacity` adds no error, and at most one warning: none if the stacks fit.
pub record CapacityOutcome (catalog : List (Text × Stack)) (host : Host) (before after : Report)
    : Type 0 where
  pub no_error : errors after ≡ errors before
  pub warned : IsOvercommitted catalog host → warnings after ≡ warnings before + 1
  pub quiet : ¬ IsOvercommitted catalog host → after ≡ before

capacity_fits :
    (catalog : List (Text × Stack)) (host : Host) (report : Report)
    → ¬ IsOvercommitted catalog host
    → CapacityOutcome catalog host report report
capacity_fits catalog host report fits = record {
  no_error = refl;
  warned = λ over. absurd (fits over);
  quiet = λ _. refl;
}

-- `checkHostCapacity` never adds an error. It adds one warning if the host is an AWS host of a known
-- type whose stacks want more memory than it has, and leaves the report alone otherwise.
pub check_host_capacity_lem :
    (catalog : List (Text × Stack)) (host_name : Text) (host : Host) (report : Report)
    → CapacityOutcome catalog host report (check_host_capacity catalog host_name host report)
unfolding check_host_capacity
check_host_capacity_lem catalog host_name host report =
    elim (Bool-cases (text_eq host.provider (txt "aws"))) [
      | inr e ↦
          rw (e, check_host_capacity)
            (capacity_fits catalog host report (λ over. cc (e, over.on_aws)))
      | inl aws ↦ elim (Option-cases (instance_ram_mb (capacity_type host))) [
        | inl unknown ↦
            rw (aws, unknown, check_host_capacity)
              (capacity_fits catalog host report (λ over. cc (unknown, over.known)))
        | inr (have, known) ↦ elim (Bool-cases (leb (add_min_ram catalog host.stacks 0) have)) [
          | inl e ↦
              rw (aws, known, check_host_capacity, e)
                (capacity_fits catalog host report (λ over. ground (
                  arith,
                  known,
                  over.known,
                  over.short,
                  add_min_ram-eq-total catalog host.stacks 0,
                )))
          | inr e ↦
              rw (aws, known, check_host_capacity, e)
                (record {
                  no_error = errors-semantic_warning report _ _ _;
                  warned = λ over. warnings-semantic_warning report _ _ _;
                  quiet = λ fits. absurd (
                      fits (record {
                        on_aws = aws;
                        have = have;
                        known = known;
                        short = ground (arith, add_min_ram-eq-total catalog host.stacks 0);
                      }));
                })
        ]
      ]
    ]
