-- ===== src/Facility/Run/Memory.antt =====
-- The repository in memory hands out no funded saga until a reconciliation confirms the funding:
-- apps/api/src/modules/facility/adapters/in-memory-saga-repository.ts.
pub mod Chain
use jejak.Prelude.{
  ℕ, ◌+◌, Bool, true, false, not, ◌&&◌, ◌≡◌, refl, Option, none, some, List, [], ◌∷◌, ◌++◌, inl,
  inr, arith,
}
use jejak.Prelude.Tests.{if◌then◌else◌, Bool-cases, Option-cases}
use jejak.Prelude.Text.{Text, text_eq}
use jejak.Shared.Errors.{Result, throw_if, failure, ok, err}
use jejak.Shared.Action.{Action, ◌>>=◌, ◌>>◌, give, lift}
use jejak.Shared.Action.Triple.{
  Triple, Ends, Keeps, given, bind_triple, then_triple, give_triple, keeps_after, lift_keeps,
  if_triple, imply,
}
use jejak.Anchor.Journal.{next_id}
use jejak.Issuer.Receipt.{IssuerApprovalReceipt}
use jejak.Facility.Types.{
  FundingStepName, issuer_approval, asset_issuance, facility_funding, preconditions, compensation,
  StepStatus, waiting, FundingStep, FundingSagaContext, FundingSagaRecord, SafeResult,
  FundingChainAction, issue, fund, issue_and_fund, compensate, compensation_required, issuer_result,
  submission_result, reconciliation_result, same_action, is_succeeded, FundingChainReconciliation,
  Outcome, reconciled, mismatch, ChainActionRequest, ChainActionReceipt, FundingSagaStatus,
  FundingSagaResult,
}
use jejak.Facility.Ports.{BeginFundingDecision}
use jejak.Facility.Repository.{
  SagaState, Item, Submission, scope, set_item, same_step, with_step, step_for_action,
  funding_compensated, item_of, save, item_at, update, record_step, begin_at, begin, load,
  ensure_preconditions, commit_issuer, new_item, decide, decide_result,
}
use jejak.Facility.Repository.Chain.{
  prepare_at, prepare_chain, write_submission, commit_chain, with_status, write_audit, write_outbox,
  mark_status, mark_compensation_required, assert_submitted, compensate_item, end_compensated,
  confirm_steps, refute_step, reconcile_steps, record_chain_reconciliation, in_memory, when,
  is_issue_and_fund, find_submission,
}
use jejak.Facility.Action.{step_succeeded, succeeded}
use jejak.Facility.Run.{is_funding, is_reconciled}
use jejak.Facility.Run.Unfunded.{IsUnfunded, UnfundedDecision, KeepsUnfunded}

abbrev pub funded_at : Option Item → Bool
funded_at none = false
funded_at (some item) = step_succeeded (item.saga.steps facility_funding)

-- No saga that is stored has its funding confirmed.
pub record AllUnfunded (s : SagaState) : Type 0 where
  pub unfunded : (key : Text) → funded_at (s.records key) ≡ false

-- A change of a record that does not confirm its funding.
abbrev pub IsSafe : (FundingSagaRecord → FundingSagaRecord) → Type 0
IsSafe change = (r : FundingSagaRecord) → IsUnfunded r → IsUnfunded (change r)

item_at_triple :
    (o : Option Item) (s : SagaState)
    → funded_at o ≡ false
    → AllUnfunded s
    → Ends (λ item t. IsUnfunded item.saga × AllUnfunded t) AllUnfunded (item_at o s)
unfolding succeeded
item_at_triple none s u i = i
item_at_triple (some item) s u i = (u, i)

pub item_of_triple :
    (c : FundingSagaContext)
    → Triple AllUnfunded (item_of c) (λ item s. IsUnfunded item.saga × AllUnfunded s) AllUnfunded
unfolding item_of
item_of_triple c = record {
  ends = λ s i. item_at_triple (s.records (scope c)) s (i.unfunded (scope c)) i;
}

pub save_keeps :
    (c : FundingSagaContext) (item : Item) → IsUnfunded item.saga → Keeps AllUnfunded (save c item)
unfolding save set_item succeeded
save_keeps c item u =
    keeps_after AllUnfunded (save c item)
      λ s i. record { unfunded = λ key. ground (arith, u, i.unfunded key) }

pub update_keeps :
    (c : FundingSagaContext) (change : FundingSagaRecord → FundingSagaRecord)
    → IsSafe change
    → Keeps AllUnfunded (update c change)
unfolding update
update_keeps c change h =
    bind_triple (λ item s. IsUnfunded item.saga × AllUnfunded s) (item_of_triple c)
      λ item. given λ u. save_keeps c (record item { saga = change item.saga }) (h item.saga u)

-- A step is safe when it is another one, or does not succeed.
with_step-IsSafe :
    (name : FundingStepName) (status : StepStatus) (safe_result : Option SafeResult)
    → (same_step name facility_funding && is_succeeded status) ≡ false
    → IsSafe (with_step name status safe_result)
unfolding with_step succeeded
with_step-IsSafe name status safe_result h r u = ground arith

pub record_step_keeps :
    (c : FundingSagaContext) (safe_result : Option SafeResult) (status : StepStatus)
    (name : FundingStepName)
    → (same_step name facility_funding && is_succeeded status) ≡ false
    → Keeps AllUnfunded (record_step c safe_result status name)
unfolding record_step
record_step_keeps c safe_result status name h =
    update_keeps c (with_step name status safe_result) (with_step-IsSafe name status safe_result h)

decide_result_unfunded :
    (item : Item) (result : Option FundingSagaResult)
    → funded_at (some item) ≡ false
    → UnfundedDecision (decide_result item result)
unfolding succeeded
decide_result_unfunded item none u = u
decide_result_unfunded item (some result) u = tt

decide_unfunded :
    (item : Item) (hash : Text)
    → funded_at (some item) ≡ false
    → UnfundedDecision (decide item hash)
decide_unfunded item hash u = elim (Bool-cases (text_eq item.payload_hash hash)) [
  | inl same ↦ rw same (decide_result_unfunded item item.result u)
  | inr other ↦ rw other tt
]

begin_at_triple :
    (c : FundingSagaContext) (hash : Text) (s : SagaState) (o : Option Item)
    → funded_at o ≡ false
    → AllUnfunded s
    → Ends (λ d t. UnfundedDecision d × AllUnfunded t) AllUnfunded (begin_at c hash s o)
unfolding begin_at set_item succeeded
begin_at_triple c hash s none u i =
    (refl, record { unfunded = λ key. ground (arith, i.unfunded key) })
begin_at_triple c hash s (some existing) u i = (decide_unfunded existing hash u, i)

-- A write that leaves the records.
pub same_records :
    {B : Type 0} (m : Action SagaState B)
    → ((s : SagaState) → (m s).1.records ≡ s.records)
    → Keeps AllUnfunded m
same_records m h =
    keeps_after AllUnfunded m λ s i. record { unfunded = λ key. rw (h s) (i.unfunded key) }

pub begin_triple :
    (c : FundingSagaContext) (hash : Text)
    → Triple AllUnfunded (begin c hash) (λ d s. UnfundedDecision d × AllUnfunded s) AllUnfunded
unfolding begin
begin_triple c hash = record {
  ends = λ s i. begin_at_triple c hash s (s.records (scope c)) (i.unfunded (scope c)) i;
}

pub load_triple :
    (c : FundingSagaContext) (id : Text)
    → Triple AllUnfunded (load c id) (λ r s. IsUnfunded r × AllUnfunded s) AllUnfunded
unfolding load
load_triple c id =
    bind_triple (λ item s. IsUnfunded item.saga × AllUnfunded s) (item_of_triple c)
      λ item. give_triple λ s i. i

pub ensure_preconditions_keeps :
    (valid : Bool) (c : FundingSagaContext) (id : Text)
    → Keeps AllUnfunded (ensure_preconditions valid c id)
unfolding ensure_preconditions
ensure_preconditions_keeps valid c id =
    then_triple (lift_keeps (throw_if (not valid) failure))
      λ u. record_step_keeps c none StepStatus.succeeded preconditions refl

pub commit_issuer_keeps :
    (c : FundingSagaContext) (id : Text) (receipt : IssuerApprovalReceipt)
    → Keeps AllUnfunded (commit_issuer c id receipt)
unfolding commit_issuer
commit_issuer_keeps c id receipt =
    record_step_keeps c (some (issuer_result receipt))
      (if receipt.approved then StepStatus.succeeded else waiting) issuer_approval refl
