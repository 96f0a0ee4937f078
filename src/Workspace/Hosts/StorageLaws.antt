-- ===== src/Workspace/Hosts/StorageLaws.antt =====
-- When `checkHostStorage` adds no error.
use mksrv.Common.{
  ◌+◌, ◌≤◌, ◌≡◌, refl, sym, ◌∙◌, inl, inr, false, List, [], ◌∷◌, arith, Bool-cases, length, Text,
  txt, text_eq,
}
use mksrv.Model.Types.{Host, Stack, StackVolume}
use mksrv.Workspace.Report.{Report}
use mksrv.Workspace.Report.Outcome.{
  Reports, Reports-refl, Reports-trans, Reports-iff, Reports-error_if, Reports-and_if,
}
use mksrv.Workspace.Seen.{Distinct, IsFresh, IsFresh-start, IsFresh-cons}
use mksrv.Workspace.Hosts.{
  Storage, check_volume, check_volumes, storage_of, check_storage, check_host_storage,
}

-- The volumes that the stacks of a host want, each beside the stack that wants it.
pub volume_claims : Text → List StackVolume → List (Text × Text) → List (Text × Text)
volume_claims stack_name [] rest = rest
volume_claims stack_name (v ∷ volumes) rest =
    (stack_name, v.name) ∷ volume_claims stack_name volumes rest

pub host_claims : List (Text × Stack) → List Text → List (Text × Text)
host_claims catalog [] = []
host_claims catalog (stack_name ∷ stacks) =
    volume_claims stack_name (storage_of catalog stack_name) (host_claims catalog stacks)

abbrev pub claim_names : List (Text × Text) → List Text
claim_names [] = []
claim_names ((stack_name, volume_name) ∷ claims) = volume_name ∷ claim_names claims

pub record HasValidStorage (catalog : List (Text × Stack)) (host : Host) : Type 0 where
  pub distinct : Distinct (claim_names (host_claims catalog host.stacks))
  pub few : length (host_claims catalog host.stacks) ≤ 10

-- The two loops, as one over all the volumes of the host.
check_claims : Text → List (Text × Text) → Storage → Storage
check_claims host_name [] state = state
check_claims host_name ((stack_name, volume_name) ∷ claims) state =
    check_claims host_name claims (check_volume host_name stack_name volume_name state)

check_volumes-claims :
    (host_name stack_name : Text) (volumes : List StackVolume) (rest : List (Text × Text))
    (state : Storage)
    → check_claims host_name (volume_claims stack_name volumes rest) state
      ≡ check_claims host_name rest (check_volumes host_name stack_name volumes state)
unfolding check_claims volume_claims check_volumes
check_volumes-claims host_name stack_name [] rest state = refl
check_volumes-claims host_name stack_name (v ∷ volumes) rest state =
    check_volumes-claims host_name stack_name volumes rest
      (check_volume host_name stack_name v.name state)

check_storage-claims :
    (catalog : List (Text × Stack)) (host_name : Text) (stacks : List Text) (state : Storage)
    → check_storage catalog host_name stacks state
      ≡ check_claims host_name (host_claims catalog stacks) state
unfolding check_claims host_claims check_storage
check_storage-claims catalog host_name [] state = refl
check_storage-claims catalog host_name (s ∷ stacks) state =
    check_storage-claims catalog host_name stacks _
    ∙ sym
        (check_volumes-claims host_name s (storage_of catalog s) (host_claims catalog stacks) state)

check_claims_lem :
    (host_name : Text) (claims : List (Text × Text)) (state : Storage)
    → Reports state.report
        (check_claims host_name claims state).report
        (IsFresh state.seen (claim_names claims))
unfolding check_claims check_volume
check_claims_lem host_name [] state =
    Reports-iff ((λ h. (tt, tt)), (λ h. tt)) (Reports-refl state.report)
check_claims_lem host_name ((s, v) ∷ claims) state =
    Reports-iff (IsFresh-cons state.seen v s (claim_names claims)) (
      Reports-trans (Reports-error_if _ _ _ _ state.report)
        (check_claims_lem host_name claims (check_volume host_name s v state)))

check_claims-total :
    (host_name : Text) (claims : List (Text × Text)) (state : Storage)
    → (check_claims host_name claims state).total ≡ state.total + length claims
unfolding check_claims check_volume
check_claims-total host_name [] state = omega arith
check_claims-total host_name ((s, v) ∷ claims) state =
    omega (arith, check_claims-total host_name claims (check_volume host_name s v state))

-- `checkHostStorage` adds no error exactly when the host is not one that exists already (which has
-- no volumes of its own to attach), or its stacks want at most ten volumes, all with different
-- names. The host's provider decides.
pub check_host_storage_lem :
    (catalog : List (Text × Stack)) (host_name : Text) (host : Host) (report : Report)
    → Reports report
        (check_host_storage catalog host_name host report)
        (text_eq host.provider (txt "existing") ≡ false → HasValidStorage catalog host)
unfolding check_host_storage
check_host_storage_lem catalog host_name host report =
    elim (Bool-cases (text_eq host.provider (txt "existing"))) [
      | inl e ↦
          rw (e, check_host_storage) (Reports-iff ((λ h k. cc), (λ h. tt)) (Reports-refl report))
      | inr e ↦
          let start : Storage = record { seen = []; total = 0; report = report } in
          let claims = host_claims catalog host.stacks in
          rw (e, check_host_storage, check_storage-claims)
            (Reports-iff
              (
                (λ h _. record {
                  distinct = h.0.1;
                  few = ground (arith, check_claims-total host_name claims start);
                }),
                (λ h. (
                  (IsFresh-start Text (claim_names claims)).1 (h refl).distinct,
                  ground (arith, check_claims-total host_name claims start, (h refl).few),
                )),
              )
              (Reports-and_if _ _ _ _ (check_claims_lem host_name claims start)))
    ]
