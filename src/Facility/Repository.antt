-- ===== src/Facility/Repository.antt =====
-- apps/api/src/modules/facility/adapters/in-memory-saga-repository.ts. The Map of the submissions
-- is the list of its entries in the order of their insertion; what is stored is a copy, so that
-- nothing outside changes it. `preconditionsValid` is a parameter.
pub mod Chain
use jejak.Prelude.{
  ℕ, suc, ◌+◌, Bool, true, false, not, ◌||◌, Option, none, some, List, [], ◌∷◌, ◌++◌,
}
use jejak.Prelude.Tests.{if◌then◌else◌}
use jejak.Prelude.Text.{Text, codes, text_eq}
use jejak.Shared.Errors.{Result, ok, err, failure, throw_if}
use jejak.Shared.Action.{Action, ◌>>=◌, ◌>>◌, give, throw, lift, continue_with}
use jejak.Issuer.Receipt.{IssuerApprovalReceipt}
use jejak.Anchor.Payout.{AnchorPayoutReceipt}
use jejak.Anchor.Journal.{next_id}
use jejak.Facility.Types.{
  FundingStepName, preconditions, issuer_approval, asset_issuance, facility_funding, anchor_payout,
  compensation, FundingSagaStatus, compensation_required, compensated, completed,
  FundingChainAction, issue, fund, issue_and_fund, compensate, FundingSagaContext, Outcome,
  reconciled, mismatch, FundingChainReconciliation, SafeResult, issuer_result, anchor_result,
  submission_result, reconciliation_result, StepStatus, succeeded, waiting, FundingStep,
  FundingSagaRecord, ChainActionRequest, ChainActionReceipt, FundingSagaResult, same_action,
}
use jejak.Facility.Ports.{
  BeginFundingDecision, started, resumed, replayed, conflicting, PreparedChain,
}

pub record Submission : Type 0 where
  pub id : Text
  pub receipt : Option ChainActionReceipt

pub record Item : Type 0 where
  pub payload_hash : Text
  pub saga : FundingSagaRecord
  pub result : Option FundingSagaResult

pub record AuditEntry : Type 0 where
  pub reason : Option Text
  pub status : FundingSagaStatus

-- The events of the outbox, less the fields that are constant.
pub data OutboxEvent : Type 0 where
  funding_compensated : Option Text → OutboxEvent
  position_funded : OutboxEvent

pub record SagaState : Type 0 where
  pub audit : List AuditEntry
  pub outbox : List OutboxEvent
  pub submissions : List (Text × Submission)
  pub records : Text → Option Item
  pub sequence : ℕ

abbrev pub empty_state : SagaState
empty_state = record {
  audit = [];
  outbox = [];
  submissions = [];
  records = λ key. none;
  sequence = 0;
}

unfoldable pub scope : FundingSagaContext → Text
scope c = c.tenant_id ++ b':' ∷ (c.actor_id ++ b':' ∷ (c.operation_id ++ b':' ∷ c.idempotency_key))

unfoldable pub set_item : (Text → Option Item) → Text → Item → Text → Option Item
set_item items key item other = if text_eq key other then some item else items other

abbrev pub same_step : FundingStepName → FundingStepName → Bool
same_step preconditions preconditions = true
same_step issuer_approval issuer_approval = true
same_step asset_issuance asset_issuance = true
same_step facility_funding facility_funding = true
same_step anchor_payout anchor_payout = true
same_step compensation compensation = true
same_step _ _ = false

abbrev next_attempt : Option FundingStep → ℕ
next_attempt none = 1
next_attempt (some prior) = prior.attempt_count + 1

-- The record with a step that `recordStep` writes.
unfoldable pub with_step :
    FundingStepName → StepStatus → Option SafeResult → FundingSagaRecord → FundingSagaRecord
with_step name status safe_result r = record r {
  steps = λ other. if same_step name other then some step else r.steps other;
}
  where
    step : FundingStep
    step = record {
      attempt_count = next_attempt (r.steps name);
      name = name;
      safe_result = safe_result;
      status = status;
    }

abbrev pub step_for_action : FundingChainAction → FundingStepName
step_for_action issue = asset_issuance
step_for_action fund = facility_funding
step_for_action issue_and_fund = facility_funding
step_for_action compensate = compensation

-- `#item`
abbrev pub item_at : Option Item → Action SagaState Item
item_at none s = (err failure, s)
item_at (some item) s = (ok item, s)

unfoldable pub item_of : FundingSagaContext → Action SagaState Item
unfolding scope
item_of context s = item_at (s.records (scope context)) s

unfoldable pub save : FundingSagaContext → Item → Action SagaState (Unit {0})
unfolding scope set_item
save context item s = (ok tt, record s { records = set_item s.records (scope context) item })

-- A change of the record of a saga.
unfoldable pub update :
    FundingSagaContext → (FundingSagaRecord → FundingSagaRecord) → Action SagaState (Unit {0})
unfolding item_of save
update context change = do
  item ← item_of context
  save context (record item { saga = change item.saga })

unfoldable pub record_step :
    FundingSagaContext
    → Option SafeResult
    → StepStatus
    → FundingStepName
    → Action SagaState (Unit {0})
unfolding update with_step
record_step context safe_result status name = update context (with_step name status safe_result)

abbrev new_record : Text → FundingSagaRecord
new_record id = record {
  operation_record_id = id;
  status = FundingSagaStatus.pending;
  steps = λ name. none;
}

abbrev pub new_item : Text → Text → Item
new_item id payload_hash = record {
  payload_hash = payload_hash;
  saga = new_record id;
  result = none;
}

abbrev pub decide_result : Item → Option FundingSagaResult → BeginFundingDecision
decide_result item none = resumed item.saga
decide_result item (some result) = replayed result

abbrev pub decide : Item → Text → BeginFundingDecision
decide item payload_hash =
    if text_eq item.payload_hash payload_hash then decide_result item item.result else conflicting

unfoldable pub begin_at :
    FundingSagaContext → Text → SagaState → Option Item → Result BeginFundingDecision × SagaState
unfolding scope set_item next_id text_eq
begin_at context payload_hash s none = (
  ok (started (new_record (next_id s.sequence))),
  record s {
    records = set_item s.records (scope context) (new_item (next_id s.sequence) payload_hash);
    sequence = s.sequence + 1;
  },
)
begin_at context payload_hash s (some existing) = (ok (decide existing payload_hash), s)

unfoldable pub begin : FundingSagaContext → Text → Action SagaState BeginFundingDecision
unfolding begin_at scope
begin context payload_hash s = begin_at context payload_hash s (s.records (scope context))

unfoldable pub load : FundingSagaContext → Text → Action SagaState FundingSagaRecord
unfolding item_of
load context id = do item ← item_of context; give item.saga

unfoldable pub ensure_preconditions : Bool → FundingSagaContext → Text → Action SagaState (Unit {0})
unfolding record_step
ensure_preconditions preconditions_valid context id = do
  lift (throw_if (not preconditions_valid) failure)
  record_step context none succeeded preconditions

unfoldable pub commit_issuer :
    FundingSagaContext → Text → IssuerApprovalReceipt → Action SagaState (Unit {0})
unfolding record_step
commit_issuer context id receipt =
    record_step context (some (issuer_result receipt))
      (if receipt.approved then succeeded else waiting) issuer_approval

unfoldable pub commit_anchor :
    FundingSagaContext → Text → AnchorPayoutReceipt → Action SagaState (Unit {0})
unfolding record_step
commit_anchor context id receipt =
    record_step context (some (anchor_result receipt)) succeeded anchor_payout
