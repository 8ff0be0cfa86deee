-- ===== src/Facility/Repository/Chain.antt =====
-- apps/api/src/modules/facility/adapters/in-memory-saga-repository.ts: the submissions to the chain,
-- the status of a saga and its end.
use jejak.Prelude.{◌+◌, Bool, true, false, not, Option, none, some, List, [], ◌∷◌, ◌++◌}
use jejak.Prelude.Tests.{if◌then◌else◌}
use jejak.Prelude.Text.{Text, text_eq}
use jejak.Shared.Errors.{Result, ok, failure, throw_if}
use jejak.Shared.Action.{Action, ◌>>=◌, ◌>>◌, give, lift}
use jejak.Anchor.Journal.{next_id}
use jejak.Facility.Types.{
  asset_issuance, FundingSagaStatus, compensation_required, compensated, completed,
  FundingChainAction, issue_and_fund, compensate, FundingSagaContext, Outcome, reconciled, mismatch,
  FundingChainReconciliation, submission_result, reconciliation_result, StepStatus, succeeded,
  waiting, FundingSagaRecord, ChainActionRequest, ChainActionReceipt, FundingSagaResult,
  same_action,
}
use jejak.Facility.Ports.{PreparedChain, FundingSagaRepository}
use jejak.Facility.Repository.{
  SagaState, Submission, Item, OutboxEvent, funding_compensated, position_funded, item_of, save,
  record_step, update, step_for_action, begin, load, ensure_preconditions, commit_issuer,
  commit_anchor,
}

-- `submissions.get(key)`
unfoldable pub find_submission : Text → List (Text × Submission) → Option Submission
find_submission key [] = none
find_submission key ((k, s) ∷ entries) =
    let rest = find_submission key entries in if text_eq k key then some s else rest

abbrev prepared : Submission → PreparedChain
prepared s = record { receipt = s.receipt; submission_id = s.id }

abbrev new_submission : Text → Submission
new_submission id = record { id = id; receipt = none }

unfoldable pub prepare_at :
    ChainActionRequest → SagaState → Option Submission → Result PreparedChain × SagaState
unfolding next_id
prepare_at request s (some existing) = (ok (prepared existing), s)
prepare_at request s none =
    let submission = new_submission (next_id s.sequence) in
    (
      ok (prepared submission),
      record s {
        submissions = s.submissions ++ ((request.idempotency_key, submission) ∷ []);
        sequence = s.sequence + 1;
      },
    )

unfoldable pub prepare_chain :
    FundingSagaContext → Text → ChainActionRequest → Action SagaState PreparedChain
unfolding prepare_at find_submission
prepare_chain context id request s =
    prepare_at request s (find_submission request.idempotency_key s.submissions)

-- The receipt at the first submission of that id.
unfoldable pub commit_submission :
    Text → ChainActionReceipt → List (Text × Submission) → List (Text × Submission)
unfolding text_eq
commit_submission id receipt [] = []
commit_submission id receipt ((k, s) ∷ entries) =
    let rest = commit_submission id receipt entries in
    if text_eq s.id id
    then (k, record { id = id; receipt = some receipt }) ∷ entries
    else (k, s) ∷ rest

abbrev pub is_issue_and_fund : FundingChainAction → Bool
is_issue_and_fund action = same_action action issue_and_fund

abbrev pub when : Bool → Action SagaState (Unit {0}) → Action SagaState (Unit {0})
when true m = m
when false m = give tt

unfoldable pub write_submission : Text → ChainActionReceipt → Action SagaState (Unit {0})
unfolding commit_submission
write_submission id receipt s =
    (ok tt, record s { submissions = commit_submission id receipt s.submissions })

unfoldable pub commit_chain :
    FundingSagaContext → Text → ChainActionReceipt → Text → Action SagaState (Unit {0})
unfolding write_submission record_step
commit_chain context id receipt submission_id = do
  write_submission submission_id receipt
  record_step context
      (some (submission_result receipt.receipt_hash (some receipt.transaction_hash))) waiting
      (step_for_action receipt.action)
  when (is_issue_and_fund receipt.action) (
      record_step context (some (submission_result receipt.receipt_hash none)) waiting
        asset_issuance)

abbrev pub with_status : FundingSagaStatus → FundingSagaRecord → FundingSagaRecord
with_status status r = record r { status = status }

unfoldable pub write_audit : FundingSagaStatus → Option Text → Action SagaState (Unit {0})
write_audit status reason s =
    (ok tt, record s { audit = s.audit ++ (record { reason = reason; status = status } ∷ []) })

unfoldable pub write_outbox : OutboxEvent → Action SagaState (Unit {0})
write_outbox event s = (ok tt, record s { outbox = s.outbox ++ (event ∷ []) })

unfoldable pub mark_status :
    FundingSagaContext → Text → FundingSagaStatus → Option Text → Action SagaState (Unit {0})
unfolding update write_audit
mark_status context id status reason = do
  update context (with_status status)
  write_audit status reason

unfoldable pub mark_compensation_required :
    FundingSagaContext → Text → Text → Action SagaState (Unit {0})
unfolding mark_status
mark_compensation_required context id reason =
    mark_status context id compensation_required (some reason)

abbrev compensated_result : Text → FundingSagaResult
compensated_result id = record {
  anchor_receipt = none;
  issuer_receipt = none;
  operation_record_id = id;
  sandbox = true;
  status = compensated;
}

abbrev pub end_compensated : Item → Item
end_compensated item = record item {
  saga = with_status compensated item.saga;
  result = some (compensated_result item.saga.operation_record_id);
}

unfoldable pub mark_compensated :
    FundingSagaContext → Text → ChainActionReceipt → Action SagaState (Unit {0})
unfolding item_of save write_outbox
mark_compensated context id receipt = do
  item ← item_of context
  save context (end_compensated item)
  write_outbox (funding_compensated (some receipt.receipt_hash))

unfoldable pub complete :
    FundingSagaContext → Text → FundingSagaResult → Action SagaState FundingSagaResult
unfolding item_of save write_outbox
complete context id result = do
  item ← item_of context
  save context (record item { saga = with_status completed item.saga; result = some result })
  write_outbox position_funded
  give result

-- The receipt of the first submission whose receipt has that transaction.
abbrev has_transaction : Text → Option ChainActionReceipt → Bool
has_transaction hash none = false
has_transaction hash (some receipt) = text_eq receipt.transaction_hash hash

unfoldable pub find_transaction : Text → List (Text × Submission) → Option ChainActionReceipt
unfolding text_eq
find_transaction hash [] = none
find_transaction hash ((k, s) ∷ entries) =
    let rest = find_transaction hash entries in
    if has_transaction hash s.receipt then s.receipt else rest

abbrev matches : FundingChainAction → Option ChainActionReceipt → Bool
matches action none = false
matches action (some receipt) = same_action receipt.action action

unfoldable pub assert_submitted : FundingChainReconciliation → Action SagaState (Unit {0})
unfolding find_transaction
assert_submitted r s =
    let found = find_transaction r.transaction_hash s.submissions in
    lift (throw_if (not (matches r.action found)) failure) s

unfoldable pub compensate_item : FundingSagaContext → Action SagaState (Unit {0})
unfolding item_of save write_outbox
compensate_item context = do
  item ← item_of context
  save context (end_compensated item)
  write_outbox (funding_compensated none)

unfoldable pub confirm_steps :
    FundingSagaContext → FundingChainReconciliation → Action SagaState (Unit {0})
unfolding record_step compensate_item
confirm_steps context r = do
  record_step context (some (reconciliation_result r)) succeeded (step_for_action r.action)
  when (is_issue_and_fund r.action)
      (record_step context (some (reconciliation_result r)) succeeded asset_issuance)
  when (same_action r.action compensate) (compensate_item context)

unfoldable pub refute_step :
    FundingSagaContext → FundingChainReconciliation → Action SagaState (Unit {0})
unfolding update record_step
refute_step context r = do
  update context (with_status FundingSagaStatus.failed)
  record_step context (some (reconciliation_result r)) StepStatus.failed (step_for_action r.action)

abbrev pub reconcile_steps :
    Outcome → FundingSagaContext → FundingChainReconciliation → Action SagaState (Unit {0})
reconcile_steps reconciled context r = confirm_steps context r
reconcile_steps mismatch context r = refute_step context r

unfoldable pub record_chain_reconciliation :
    FundingSagaContext → Text → FundingChainReconciliation → Action SagaState FundingSagaRecord
unfolding item_of assert_submitted load confirm_steps refute_step
record_chain_reconciliation context id r = do
  item ← item_of context
  assert_submitted r
  reconcile_steps r.outcome context r
  load context id

-- `InMemoryFundingSagaRepository`
abbrev pub in_memory : Bool → FundingSagaRepository SagaState
in_memory preconditions_valid = record {
  begin = begin;
  commit_anchor = commit_anchor;
  commit_chain = commit_chain;
  commit_issuer = commit_issuer;
  complete = complete;
  ensure_preconditions = ensure_preconditions preconditions_valid;
  load = load;
  mark_compensation_required = mark_compensation_required;
  mark_status = mark_status;
  prepare_chain = prepare_chain;
  record_chain_reconciliation = record_chain_reconciliation;
}
