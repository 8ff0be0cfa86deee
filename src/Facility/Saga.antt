-- ===== src/Facility/Saga.antt =====
-- apps/api/src/modules/facility/application/funding-saga.ts: `FacilityFundingSagaService`, over any
-- repository, issuer, chain and anchor. What the `try` block returns is an optional result: with
-- none, the saga goes on to the payout.
use jejak.Prelude.{not, Option, none, some}
use jejak.Prelude.Tests.{if◌then◌else◌}
use jejak.Prelude.Text.{Text, codes, text_eq}
use jejak.Shared.Errors.{Error}
use jejak.Shared.Action.{Action, ◌>>=◌, ◌>>◌, give, throw, lift, try_catch}
use jejak.Shared.Json.{Platform}
use jejak.Issuer.Receipt.{IssuerApprovalReceipt}
use jejak.Anchor.Payout.{AnchorPayoutReceipt}
use jejak.Facility.Types.{
  preconditions, issuer_approval, asset_issuance, facility_funding, anchor_payout,
  FundingSagaStatus, waiting_external, paused, issue, fund, issue_and_fund, compensate, same_action,
  FundingSagaContext, ChainMode, atomic, separate, Outcome, reconciled, mismatch,
  FundingChainReconciliation, FundingSagaRecord, FundingSagaResult, safe_error, is_retryable_error,
}
use jejak.Facility.Ports.{
  FundingChainPort, BeginFundingDecision, started, resumed, replayed, conflicting,
  FundingSagaRepository, IssuerApprovalExecutor, AnchorPayoutExecutor,
}
use jejak.Facility.Request.{funding_payload_hash, issuer_context, anchor_context}
use jejak.Facility.Action.{
  succeeded, safe_issuer_receipt, safe_anchor_receipt, waiting_result, completed_result,
  compensated_result, rejection, invalid_state, is_waiting, is_unconfigured, mark, submit,
}

module _ {W : Type 0} (platform : Platform) (repository : FundingSagaRepository W)
    (issuer : IssuerApprovalExecutor W) (chain : FundingChainPort W)
    (anchor : AnchorPayoutExecutor W) where
  module _ (context : FundingSagaContext) where
    unfoldable pub fund_failed : Text → Error → Action W (Option FundingSagaResult)
    unfolding safe_error is_retryable_error
    fund_failed id error = do
      (if is_retryable_error error
          then mark repository context id paused (safe_error error)
          else repository.mark_compensation_required context id (safe_error error))
      throw error

    unfoldable pub chain_phase :
        ChainMode
        → FundingSagaRecord
        → Option IssuerApprovalReceipt
        → Action W (Option FundingSagaResult)
    unfolding submit succeeded fund_failed
    chain_phase atomic r issuer_receipt =
        if succeeded r facility_funding
        then give none
        else submit platform repository chain context r.operation_record_id issue_and_fund
            context.fund_envelope_hash issuer_receipt
    chain_phase separate r issuer_receipt =
        if not (succeeded r asset_issuance)
        then submit platform repository chain context r.operation_record_id issue
            context.issue_envelope_hash issuer_receipt
        else if not (succeeded r facility_funding)
        then try_catch
            (submit platform repository chain context r.operation_record_id fund
              context.fund_envelope_hash issuer_receipt)
            (fund_failed r.operation_record_id)
        else give none

    unfoldable pub chain_failed :
        ChainMode → FundingSagaRecord → Error → Action W (Option FundingSagaResult)
    unfolding succeeded safe_error is_retryable_error
    chain_failed atomic r error = do
      mark repository context r.operation_record_id paused (safe_error error)
      throw error
    chain_failed separate r error = do
      (if not (succeeded r asset_issuance)
          then mark repository context r.operation_record_id
              (if is_retryable_error error then paused else FundingSagaStatus.failed)
              (safe_error error)
          else give tt)
      throw error

    unfoldable pub finish :
        FundingSagaRecord
        → Option IssuerApprovalReceipt
        → Option AnchorPayoutReceipt
        → Action W FundingSagaResult
    finish r issuer_receipt anchor_receipt =
        repository.complete context r.operation_record_id
          (completed_result r.operation_record_id issuer_receipt anchor_receipt)

    unfoldable pub pay : FundingSagaRecord → Action W AnchorPayoutReceipt
    unfolding anchor_context
    pay r = do
      receipt ← anchor (anchor_context context r.operation_record_id)
      repository.commit_anchor context r.operation_record_id receipt
      give receipt

    unfoldable pub pay_failed : FundingSagaRecord → Error → Action W AnchorPayoutReceipt
    unfolding safe_error
    pay_failed r error = do
      mark repository context r.operation_record_id paused (safe_error error)
      throw error

    unfoldable pub payout :
        FundingSagaRecord → Option IssuerApprovalReceipt → Action W FundingSagaResult
    unfolding succeeded pay pay_failed finish
    payout r issuer_receipt =
        if succeeded r anchor_payout
        then finish r issuer_receipt (safe_anchor_receipt r)
        else (do receipt ← try_catch (pay r) (pay_failed r); finish r issuer_receipt (some receipt))

    unfoldable pub after_chain :
        FundingSagaRecord
        → Option IssuerApprovalReceipt
        → Option FundingSagaResult
        → Action W FundingSagaResult
    unfolding payout
    after_chain r issuer_receipt (some result) = give result
    after_chain r issuer_receipt none = payout r issuer_receipt

    unfoldable pub move_funds :
        FundingSagaRecord → Option IssuerApprovalReceipt → Action W FundingSagaResult
    unfolding chain_phase chain_failed after_chain
    move_funds r issuer_receipt = do
      outcome ←
          try_catch (chain_phase context.chain_mode r issuer_receipt)
            (chain_failed context.chain_mode r)
      after_chain r issuer_receipt outcome

    -- What follows the answer of the issuer.
    unfoldable pub after_issuer :
        FundingSagaRecord → IssuerApprovalReceipt → Action W FundingSagaResult
    unfolding text_eq move_funds
    after_issuer r receipt =
        if is_waiting receipt
        then (do
          mark repository context r.operation_record_id waiting_external receipt.status
          give (waiting_result r.operation_record_id (some receipt)))
        else if not receipt.approved
        then (do
          mark repository context r.operation_record_id FundingSagaStatus.failed
              (codes "ISSUER_REJECTED")
          throw rejection)
        else (do
          loaded ← repository.load context r.operation_record_id
          move_funds loaded (some receipt))

    unfoldable pub approve : FundingSagaRecord → Action W FundingSagaResult
    unfolding succeeded issuer_context after_issuer move_funds
    approve r = if succeeded r issuer_approval then move_funds r (safe_issuer_receipt r) else (do
      receipt ← issuer (issuer_context context)
      repository.commit_issuer context r.operation_record_id receipt
      after_issuer r receipt)

    unfoldable pub run_record : FundingSagaRecord → Action W FundingSagaResult
    unfolding succeeded approve
    run_record r = if succeeded r preconditions then approve r else (do
      repository.ensure_preconditions context r.operation_record_id
      loaded ← repository.load context r.operation_record_id
      approve loaded)

    unfoldable pub follow_decision : BeginFundingDecision → Action W FundingSagaResult
    unfolding run_record
    follow_decision conflicting = throw invalid_state
    follow_decision (replayed result) = give result
    follow_decision (started r) = run_record r
    follow_decision (resumed r) = run_record r

    unfoldable pub execute : Action W FundingSagaResult
    unfolding funding_payload_hash follow_decision
    execute = if is_unconfigured chain.mode chain.configured then throw rejection else (do
      payload_hash ← lift (funding_payload_hash platform context)
      begun ← repository.begin context payload_hash
      follow_decision begun)

    unfoldable pub after_reconciliation :
        FundingChainReconciliation → FundingSagaRecord → Outcome → Action W FundingSagaResult
    unfolding execute
    after_reconciliation r saga mismatch = throw rejection
    after_reconciliation r saga reconciled =
        if same_action r.action compensate
        then give (compensated_result saga.operation_record_id)
        else execute

    unfoldable pub reconcile_record :
        FundingChainReconciliation → FundingSagaRecord → Action W FundingSagaResult
    unfolding after_reconciliation
    reconcile_record r saga = do
      updated ← repository.record_chain_reconciliation context saga.operation_record_id r
      after_reconciliation r updated r.outcome

    unfoldable pub resume_decision :
        FundingChainReconciliation → BeginFundingDecision → Action W FundingSagaResult
    unfolding reconcile_record
    resume_decision r conflicting = throw invalid_state
    resume_decision r (replayed result) = give result
    resume_decision r (started saga) = reconcile_record r saga
    resume_decision r (resumed saga) = reconcile_record r saga

    unfoldable pub resume_after_chain_reconciliation :
        FundingChainReconciliation → Action W FundingSagaResult
    unfolding funding_payload_hash resume_decision
    resume_after_chain_reconciliation r = do
      payload_hash ← lift (funding_payload_hash platform context)
      begun ← repository.begin context payload_hash
      resume_decision r begun
