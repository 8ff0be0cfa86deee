-- ===== src/Facility/Tests.antt =====
-- A claim that is funded by one action on the chain of the sandbox.
use jejak.Prelude.{ℕ, ◌+◌, true, ◌≡◌, refl, Option, none, some, List, [], ◌∷◌}
use jejak.Prelude.Int.{pos}
use jejak.Prelude.Text.{Text, codes, text_eq, decimal}
use jejak.Shared.Errors.{Result, ok, err}
use jejak.Shared.Action.{Action, give}
use jejak.Shared.Number.{int}
use jejak.Shared.Json.{Platform, canonical_hash, canonical_json, sort_entries, insert_entry}
use jejak.Shared.Sample.{sample_platform, rupiah}
use jejak.Issuer.Transaction.{IssuerTransactionPayload, issue}
use jejak.Issuer.Receipt.{IssuerApprovalReceipt}
use jejak.Issuer.Ports.{IssuerOperationContext}
use jejak.Anchor.Payout.{AnchorPayoutContext, AnchorPayoutReceipt}
use jejak.Anchor.Journal.{next_id, pad_start}
use jejak.Facility.Saga.{
  fund_failed, chain_phase, chain_failed, finish, pay, pay_failed, payout, after_chain, move_funds,
  after_issuer, approve, run_record, follow_decision, execute, after_reconciliation,
  reconcile_record, resume_decision, resume_after_chain_reconciliation,
}
use jejak.Facility.Action.{succeeded, find_or_submit, follow_prepared, chain_action, submit}
use jejak.Facility.Request.{
  issuer_context, anchor_context, funding_payload_hash, action_key, compensation_key,
}
use jejak.Facility.Repository.{
  scope, set_item, with_step, item_of, save, update, record_step, begin_at, begin, load,
  ensure_preconditions, commit_issuer, commit_anchor,
}
use jejak.Facility.Repository.Chain.{
  find_submission, prepare_at, prepare_chain, commit_submission, write_submission, commit_chain,
  write_audit, write_outbox, mark_status, mark_compensation_required, mark_compensated, complete,
  find_transaction, assert_submitted, compensate_item, confirm_steps, refute_step,
  record_chain_reconciliation,
}
use jejak.Facility.Receipt.{chain_action_request_hash, validate_chain_action_receipt}
use jejak.Facility.Sandbox.{
  count_attempt, store_action, find_action, sign_action, keep_action, submit_new, submit_action,
}
use jejak.Facility.Types.{safe_error, is_retryable_error}
use jejak.Facility.Types.{
  FundingChainIntent, FundingSagaContext, FundingSagaStatus, completed, FundingChainReconciliation,
  issue_and_fund, reconciled, mismatch, atomic, FundingSagaResult,
}
use jejak.Facility.Repository.{empty_state}
use jejak.Facility.Sandbox.{ChainState, no_actions, sandbox_chain, success}
use jejak.Facility.Run.{
  World, Command, funding, reconciliation, compensation, resume_in_memory, run,
}
use jejak.Facility.Run.Payout.{no_payout_without_funding}

abbrev zero_hash : Text
zero_hash = codes "0000000000000000000000000000000000000000000000000000000000000000"

abbrev platform : Platform
platform = record sample_platform { sha256 = λ t. zero_hash }

abbrev transaction : IssuerTransactionPayload
transaction = record {
  amount_minor = codes "1000";
  asset_code = codes "RCLM";
  claim_id = codes "claim";
  destination = codes "holder";
  envelope_hash = zero_hash;
  network_passphrase = codes "testnet";
  operation = issue;
  sequence = codes "1";
  source = codes "issuer";
}

abbrev intent : FundingChainIntent
intent = record {
  accepted_terms_hash = codes "terms";
  asset_controller_contract_id = codes "controller";
  claim_key = codes "key";
  control_evidence_hash = codes "evidence";
  control_evidence_id = codes "evidence-1";
  facility_contract_id = codes "facility-contract";
  facility_holder = codes "holder";
  facility_id = codes "facility";
  facility_operator = codes "operator";
  facility_treasury = codes "treasury";
  first_loss_amount_minor = codes "100";
  attestation_envelope_hash = codes "attestation";
  attestation_id = codes "attestation-1";
  issuer_operator = codes "issuer-operator";
  payout_reference = codes "payout";
  result_hash = codes "result";
  seller_payout_account = codes "seller";
}

abbrev context : FundingSagaContext
context = record {
  actor_id = codes "actor";
  chain_mode = atomic;
  claim_id = codes "claim";
  compensation_envelope_hash = codes "compensate";
  correlation_id = codes "correlation";
  expected_claim_version = int (pos 3);
  facility_position_id = codes "position";
  fund_envelope_hash = codes "fund";
  idempotency_key = codes "key";
  issue_envelope_hash = codes "issue";
  issuer_transaction = transaction;
  network = codes "testnet";
  offer_id = codes "offer";
  operation_id = codes "fundClaim";
  request_id = codes "request";
  requested_at = codes "20260102";
  source = rupiah (codes "1000");
  tenant_id = codes "tenant";
  chain_intent = intent;
}

abbrev approval : IssuerApprovalReceipt
approval = record {
  adapter_mode = jejak.Issuer.Receipt.sandbox;
  approved = true;
  correlation_id = codes "correlation";
  decided_at = codes "20260102";
  partner_reference = codes "partner";
  reason_codes = [];
  receipt_hash = zero_hash;
  request_hash = zero_hash;
  sandbox = true;
  status = codes "APPROVED";
  action = none;
  approved_payload_hash = some zero_hash;
  revised_transaction = none;
  revision_hash = none;
}

abbrev paid : AnchorPayoutReceipt
paid = record {
  adapter_mode = jejak.Anchor.Payout.sandbox;
  completed_at = codes "20260102";
  fee = rupiah (codes "0");
  fee_bps = int (pos 0);
  partner_reference = codes "anchor";
  rate = record {
    denominator = codes "1";
    numerator = codes "1";
    source_currency = codes "IDR";
    target_currency = codes "IDR";
  };
  receipt_hash = zero_hash;
  request_hash = zero_hash;
  rounding_mode = codes "DOWN";
  sandbox = true;
  source = rupiah (codes "1000");
  status = codes "PAID";
  target_gross = rupiah (codes "1000");
  target_net = rupiah (codes "1000");
}

-- An issuer that approves, and an anchor that counts its payouts.
abbrev issuer : IssuerOperationContext → Action (Unit {0}) IssuerApprovalReceipt
issuer c = give approval

abbrev anchor : AnchorPayoutContext → Action ℕ AnchorPayoutReceipt
anchor c count = (ok paid, count + 1)

abbrev fresh : World (Unit {0}) ChainState ℕ
fresh = record { saga = empty_state; issuer = tt; chain = no_actions; anchor = 0 }

abbrev confirmed : FundingChainReconciliation
confirmed = record {
  action = issue_and_fund;
  canonical_event_id = codes "event";
  ledger_sequence = int (pos 1000001);
  outcome = reconciled;
  transaction_hash = zero_hash;
}

abbrev refuted : FundingChainReconciliation
refuted = record confirmed { outcome = mismatch }

abbrev after : List Command → World (Unit {0}) ChainState ℕ
after commands = run platform true issuer (sandbox_chain platform success) anchor commands fresh

no_payout_without_funding_example :
    (after (funding context ∷ reconciliation context refuted ∷ compensation context ∷ [])).anchor
    ≡ 0
no_payout_without_funding_example =
    no_payout_without_funding platform true issuer (sandbox_chain platform success) anchor
      (funding context ∷ reconciliation context refuted ∷ compensation context ∷ []) tt no_actions 0
      refl

abbrev status_of : Result FundingSagaResult → Option FundingSagaStatus
status_of (ok r) = some r.status
status_of (err e) = none

abbrev confirm :
    World (Unit {0}) ChainState ℕ → Result FundingSagaResult × World (Unit {0}) ChainState ℕ
confirm =
    resume_in_memory platform true issuer (sandbox_chain platform success) anchor context confirmed

-- The payout of a funding that the chain confirms, and of one that it does not.
paid_when_confirmed : (confirm (after (funding context ∷ []))).1.anchor ≡ 1
unfolding run fund_failed chain_phase chain_failed finish pay pay_failed payout after_chain
    move_funds after_issuer approve run_record follow_decision execute after_reconciliation
    reconcile_record resume_decision resume_after_chain_reconciliation succeeded find_or_submit
    follow_prepared chain_action submit issuer_context anchor_context funding_payload_hash
    action_key compensation_key scope set_item with_step item_of save update record_step begin_at
    begin load ensure_preconditions commit_issuer commit_anchor find_submission prepare_at
    prepare_chain commit_submission write_submission commit_chain write_audit write_outbox
    mark_status mark_compensation_required mark_compensated complete find_transaction
    assert_submitted compensate_item confirm_steps refute_step record_chain_reconciliation
    chain_action_request_hash validate_chain_action_receipt count_attempt store_action find_action
    sign_action keep_action submit_new submit_action safe_error is_retryable_error next_id pad_start
    text_eq decimal canonical_hash canonical_json sort_entries insert_entry
paid_when_confirmed = refl

completed_when_confirmed : status_of (confirm (after (funding context ∷ []))).0 ≡ some completed
unfolding run fund_failed chain_phase chain_failed finish pay pay_failed payout after_chain
    move_funds after_issuer approve run_record follow_decision execute after_reconciliation
    reconcile_record resume_decision resume_after_chain_reconciliation succeeded find_or_submit
    follow_prepared chain_action submit issuer_context anchor_context funding_payload_hash
    action_key compensation_key scope set_item with_step item_of save update record_step begin_at
    begin load ensure_preconditions commit_issuer commit_anchor find_submission prepare_at
    prepare_chain commit_submission write_submission commit_chain write_audit write_outbox
    mark_status mark_compensation_required mark_compensated complete find_transaction
    assert_submitted compensate_item confirm_steps refute_step record_chain_reconciliation
    chain_action_request_hash validate_chain_action_receipt count_attempt store_action find_action
    sign_action keep_action submit_new submit_action safe_error is_retryable_error next_id pad_start
    text_eq decimal canonical_hash canonical_json sort_entries insert_entry
completed_when_confirmed = refl
