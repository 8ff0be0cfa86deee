-- ===== src/Facility/Run/Memory/Chain.antt =====
-- The submissions and the reconciliations of the repository in memory confirm no funding, but for
-- those that say so: apps/api/src/modules/facility/adapters/in-memory-saga-repository.ts.
use jejak.Prelude.{Bool, true, false, ◌&&◌, ◌≡◌, refl, Option, none, some, arith}
use jejak.Prelude.Text.{Text}
use jejak.Shared.Action.{Action}
use jejak.Shared.Action.Triple.{Triple, Keeps, given, bind_triple, then_triple, give_triple, imply}
use jejak.Facility.Types.{
  asset_issuance, facility_funding, StepStatus, waiting, FundingSagaContext, FundingSagaRecord,
  FundingChainAction, issue, fund, issue_and_fund, compensate, compensation_required,
  submission_result, reconciliation_result, same_action, FundingChainReconciliation, Outcome,
  reconciled, mismatch, ChainActionRequest, ChainActionReceipt, FundingSagaStatus,
}
use jejak.Facility.Repository.{
  SagaState, Submission, same_step, step_for_action, funding_compensated, record_step,
}
use jejak.Facility.Repository.Chain.{
  prepare_at, prepare_chain, write_submission, commit_chain, with_status, write_audit, write_outbox,
  mark_status, mark_compensation_required, assert_submitted, compensate_item, end_compensated,
  confirm_steps, refute_step, reconcile_steps, record_chain_reconciliation, in_memory, when,
  is_issue_and_fund,
}
use jejak.Facility.Action.{succeeded}
use jejak.Facility.Run.{is_funding, is_reconciled}
use jejak.Facility.Run.Unfunded.{IsUnfunded, KeepsUnfunded}
use jejak.Facility.Run.Memory.{
  AllUnfunded, item_of_triple, save_keeps, update_keeps, record_step_keeps, same_records,
  begin_triple, load_triple, ensure_preconditions_keeps, commit_issuer_keeps,
}

when_keeps :
    (b : Bool) (m : Action SagaState (Unit {0}))
    → Keeps AllUnfunded m
    → Keeps AllUnfunded (when b m)
when_keeps true m h = h
when_keeps false m h = give_triple λ s i. i

not_succeeded : (b : Bool) → (b && false) ≡ false
not_succeeded b = ground arith

commit_chain_keeps :
    (c : FundingSagaContext) (id : Text) (receipt : ChainActionReceipt) (submission : Text)
    → Keeps AllUnfunded (commit_chain c id receipt submission)
unfolding commit_chain write_submission
commit_chain_keeps c id receipt submission =
    let name = step_for_action receipt.action in
    let whole = some (submission_result receipt.receipt_hash (some receipt.transaction_hash)) in
    let part = some (submission_result receipt.receipt_hash none) in
    let test = not_succeeded (same_step name facility_funding) in
    then_triple (same_records (write_submission submission receipt) λ s. refl) λ u.
      then_triple (record_step_keeps c whole waiting name test) λ v.
        when_keeps (is_issue_and_fund receipt.action) (record_step c part waiting asset_issuance)
          (record_step_keeps c part waiting asset_issuance refl)

mark_status_keeps :
    (c : FundingSagaContext) (id : Text) (status : FundingSagaStatus) (reason : Option Text)
    → Keeps AllUnfunded (mark_status c id status reason)
unfolding mark_status write_audit succeeded
mark_status_keeps c id status reason =
    then_triple (update_keeps c (with_status status) λ r u. u)
      λ v. same_records (write_audit status reason) λ s. refl

mark_required_keeps :
    (c : FundingSagaContext) (id : Text) (reason : Text)
    → Keeps AllUnfunded (mark_compensation_required c id reason)
unfolding mark_compensation_required
mark_required_keeps c id reason = mark_status_keeps c id compensation_required (some reason)

prepare_at_records :
    (request : ChainActionRequest) (s : SagaState) (o : Option Submission)
    → (prepare_at request s o).1.records ≡ s.records
unfolding prepare_at
prepare_at_records request s none = refl
prepare_at_records request s (some existing) = refl

prepare_chain_keeps :
    (c : FundingSagaContext) (id : Text) (request : ChainActionRequest)
    → Keeps AllUnfunded (prepare_chain c id request)
unfolding prepare_chain
prepare_chain_keeps c id request =
    same_records (prepare_chain c id request) λ s. prepare_at_records request s _

-- The compensation of a saga leaves its steps.
compensate_item_keeps : (c : FundingSagaContext) → Keeps AllUnfunded (compensate_item c)
unfolding compensate_item write_outbox succeeded
compensate_item_keeps c =
    bind_triple (λ item s. IsUnfunded item.saga × AllUnfunded s) (item_of_triple c)
      λ item. given λ u.
        then_triple (save_keeps c (end_compensated item) u)
          λ v. same_records (write_outbox (funding_compensated none)) λ s. refl

other_step :
    (action : FundingChainAction)
    → is_funding action ≡ false
    → (same_step (step_for_action action) facility_funding && true) ≡ false
other_step issue h = refl
other_step fund h = cc
other_step issue_and_fund h = cc
other_step compensate h = refl

confirm_steps_keeps :
    (c : FundingSagaContext) (r : FundingChainReconciliation)
    → is_funding r.action ≡ false
    → Keeps AllUnfunded (confirm_steps c r)
unfolding confirm_steps
confirm_steps_keeps c r h =
    let name = step_for_action r.action in
    let result = some (reconciliation_result r) in
    then_triple (record_step_keeps c result StepStatus.succeeded name (other_step r.action h)) λ u.
      then_triple
        (when_keeps (is_issue_and_fund r.action)
          (record_step c result StepStatus.succeeded asset_issuance)
          (record_step_keeps c result StepStatus.succeeded asset_issuance refl))
        λ v.
          when_keeps (same_action r.action compensate) (compensate_item c) (compensate_item_keeps c)

refute_step_keeps :
    (c : FundingSagaContext) (r : FundingChainReconciliation) → Keeps AllUnfunded (refute_step c r)
unfolding refute_step succeeded
refute_step_keeps c r =
    let name = step_for_action r.action in
    let test = not_succeeded (same_step name facility_funding) in
    then_triple (update_keeps c (with_status FundingSagaStatus.failed) λ s u. u)
      λ u. record_step_keeps c (some (reconciliation_result r)) StepStatus.failed name test

reconcile_steps_keeps :
    (outcome : Outcome) (c : FundingSagaContext) (r : FundingChainReconciliation)
    → (is_reconciled outcome && is_funding r.action) ≡ false
    → Keeps AllUnfunded (reconcile_steps outcome c r)
reconcile_steps_keeps reconciled c r h = confirm_steps_keeps c r h
reconcile_steps_keeps mismatch c r h = refute_step_keeps c r

loaded :
    {m : Action SagaState FundingSagaRecord}
    → Triple AllUnfunded m (λ r s. IsUnfunded r × AllUnfunded s) AllUnfunded
    → Keeps AllUnfunded m
loaded h = imply h λ r s i. i.1

record_chain_reconciliation_keeps :
    (c : FundingSagaContext) (id : Text) (r : FundingChainReconciliation)
    → (is_reconciled r.outcome && is_funding r.action) ≡ false
    → Keeps AllUnfunded (record_chain_reconciliation c id r)
unfolding record_chain_reconciliation assert_submitted
record_chain_reconciliation_keeps c id r h =
    bind_triple (λ item s. IsUnfunded item.saga × AllUnfunded s) (item_of_triple c)
      λ item. given λ u.
        then_triple (same_records (assert_submitted r) λ s. refl)
          λ v. then_triple (reconcile_steps_keeps r.outcome c r h) λ x. loaded (load_triple c id)

-- The repository in memory, with the invariant that no stored saga has its funding confirmed.
pub in_memory-KeepsUnfunded : (valid : Bool) → KeepsUnfunded AllUnfunded (in_memory valid)
in_memory-KeepsUnfunded valid = record {
  begin = begin_triple;
  load = load_triple;
  commit_chain = commit_chain_keeps;
  mark_status = mark_status_keeps;
  ensure_preconditions = ensure_preconditions_keeps valid;
  commit_issuer = commit_issuer_keeps;
  mark_compensation_required = λ c id reason. mark_required_keeps c id reason;
  reconcile = record_chain_reconciliation_keeps;
  prepare_chain = prepare_chain_keeps;
}
