-- ===== src/Facility/Run/Unfunded/Saga.antt =====
-- What the saga keeps while no reconciliation of the chain confirms the funding:
-- apps/api/src/modules/facility/application/funding-saga.ts.
use jejak.Prelude.{false, not, ◌&&◌, ◌≡◌, Option, none, some}
use jejak.Prelude.Text.{Text}
use jejak.Shared.Errors.{Error}
use jejak.Shared.Action.Triple.{
  Triple, Keeps, weaken, given, bind_triple, try_triple, then_triple, give_triple, throw_triple,
  lift_keeps, if_triple,
}
use jejak.Shared.Json.{Platform}
use jejak.Facility.Types.{
  asset_issuance, issuer_approval, preconditions, compensate, same_action, Outcome, reconciled,
  mismatch, ChainMode, atomic, separate, FundingSagaContext, FundingChainReconciliation,
  FundingSagaRecord, FundingSagaResult, ChainActionRequest, is_retryable_error,
}
use jejak.Facility.Ports.{
  FundingChainPort, FundingSagaRepository, IssuerApprovalExecutor, AnchorPayoutExecutor,
  BeginFundingDecision, started, resumed, replayed, conflicting,
}
use jejak.Facility.Request.{issuer_context, funding_payload_hash}
use jejak.Facility.Saga.{
  fund_failed, chain_phase, chain_failed, after_chain, move_funds, after_issuer, approve,
  run_record, reconcile_record, after_reconciliation, follow_decision, execute, resume_decision,
  resume_after_chain_reconciliation,
}
use jejak.Facility.Run.{is_funding, is_reconciled}
use jejak.Issuer.Ports.{IssuerOperationContext}
use jejak.Issuer.Receipt.{IssuerApprovalReceipt}
use jejak.Facility.Action.{succeeded, is_waiting, is_unconfigured, safe_issuer_receipt}
use jejak.Facility.Run.Unfunded.{IsUnfunded, UnfundedDecision, KeepsUnfunded}
use jejak.Facility.Run.Unfunded.Chain.{Returned, submit_keeps}

module _ {W : Type 0} (I : W → Type 0) (platform : Platform) (repository : FundingSagaRepository W)
    (chain : FundingChainPort W) (kept : KeepsUnfunded I repository)
    (finds : (r : ChainActionRequest) → Keeps I (chain.find_action r))
    (submits : (r : ChainActionRequest) → Keeps I (chain.submit_action r)) where
  module _ (issuer : IssuerApprovalExecutor W) (anchor : AnchorPayoutExecutor W)
      (approves : (c : IssuerOperationContext) → Keeps I (issuer c)) (c : FundingSagaContext) where
    fund_failed_keeps :
        (id : Text) (e : Error)
        → Triple I (fund_failed platform repository issuer chain anchor c id e) (Returned I) I
    unfolding fund_failed
    fund_failed_keeps id e =
        then_triple
          (if_triple (is_retryable_error e) (kept.mark_status c id _ _)
            (kept.mark_compensation_required c id _))
          λ u. throw_triple

    -- Without a funding that has succeeded, the phase of the chain ends the run.
    chain_phase_keeps :
        (mode : ChainMode) (r : FundingSagaRecord) (issuer_receipt : Option IssuerApprovalReceipt)
        → IsUnfunded r
        → Triple I
            (chain_phase platform repository issuer chain anchor c mode r issuer_receipt)
            (Returned I)
            I
    unfolding chain_phase
    chain_phase_keeps atomic r issuer_receipt u =
        rw u (submit_keeps I platform repository chain kept finds submits c _ _ _ issuer_receipt)
    chain_phase_keeps separate r issuer_receipt u = rw u (
        if_triple (not (succeeded r asset_issuance))
          (submit_keeps I platform repository chain kept finds submits c _ _ _ issuer_receipt)
          (try_triple I
            (submit_keeps I platform repository chain kept finds submits c _ _ _ issuer_receipt)
            λ e. fund_failed_keeps r.operation_record_id e))

    chain_failed_keeps :
        (mode : ChainMode) (r : FundingSagaRecord) (e : Error)
        → Triple I (chain_failed platform repository issuer chain anchor c mode r e) (Returned I) I
    unfolding chain_failed
    chain_failed_keeps atomic r e = then_triple (kept.mark_status c _ _ _) λ u. throw_triple
    chain_failed_keeps separate r e =
        then_triple
          (if_triple (not (succeeded r asset_issuance)) (kept.mark_status c _ _ _)
            (give_triple λ w i. i))
          λ u. throw_triple

    after_chain_keeps :
        (r : FundingSagaRecord) (issuer_receipt : Option IssuerApprovalReceipt)
        (o : Option FundingSagaResult)
        → Triple
            (Returned I o)
            (after_chain platform repository issuer chain anchor c r issuer_receipt o)
            (λ x. I)
            I
    unfolding after_chain
    after_chain_keeps r issuer_receipt none = record { ends = λ w i. cc (i.0) }
    after_chain_keeps r issuer_receipt (some result) = give_triple λ w i. i.1

    move_funds_keeps :
        (r : FundingSagaRecord) (issuer_receipt : Option IssuerApprovalReceipt)
        → IsUnfunded r
        → Keeps I (move_funds platform repository issuer chain anchor c r issuer_receipt)
    unfolding move_funds
    move_funds_keeps r issuer_receipt u =
        bind_triple (Returned I)
          (try_triple I (chain_phase_keeps c.chain_mode r issuer_receipt u)
            λ e. chain_failed_keeps c.chain_mode r e)
          λ o. after_chain_keeps r issuer_receipt o

    after_issuer_keeps :
        (r : FundingSagaRecord) (receipt : IssuerApprovalReceipt)
        → Keeps I (after_issuer platform repository issuer chain anchor c r receipt)
    unfolding after_issuer
    after_issuer_keeps r receipt =
        if_triple (is_waiting receipt)
          (then_triple (kept.mark_status c _ _ _) λ u. give_triple λ w i. i)
          (if_triple (not receipt.approved)
            (then_triple (kept.mark_status c _ _ _) λ u. throw_triple)
            (bind_triple (λ loaded w. IsUnfunded loaded × I w) (kept.load c r.operation_record_id)
              λ loaded. given (move_funds_keeps loaded (some receipt))))

    approve_keeps :
        (r : FundingSagaRecord)
        → IsUnfunded r
        → Keeps I (approve platform repository issuer chain anchor c r)
    unfolding approve
    approve_keeps r u =
        if_triple (succeeded r issuer_approval) (move_funds_keeps r (safe_issuer_receipt r) u) (
          then_triple (approves (issuer_context c)) λ receipt.
            then_triple (kept.commit_issuer c _ receipt) λ v. after_issuer_keeps r receipt)

    run_record_keeps :
        (r : FundingSagaRecord)
        → IsUnfunded r
        → Keeps I (run_record platform repository issuer chain anchor c r)
    unfolding run_record
    run_record_keeps r u = if_triple (succeeded r preconditions) (approve_keeps r u) (
        then_triple (kept.ensure_preconditions c r.operation_record_id) λ v.
          bind_triple (λ loaded w. IsUnfunded loaded × I w) (kept.load c r.operation_record_id)
            λ loaded. given (approve_keeps loaded))

    follow_decision_keeps :
        (d : BeginFundingDecision)
        → Triple
            (λ w. UnfundedDecision d × I w)
            (follow_decision platform repository issuer chain anchor c d)
            (λ x. I)
            I
    unfolding follow_decision
    follow_decision_keeps conflicting = weaken throw_triple
    follow_decision_keeps (replayed result) = give_triple λ w i. i.1
    follow_decision_keeps (started r) = given (run_record_keeps r)
    follow_decision_keeps (resumed r) = given (run_record_keeps r)

    pub execute_keeps : Keeps I (execute platform repository issuer chain anchor c)
    unfolding execute
    execute_keeps = if_triple (is_unconfigured chain.mode chain.configured) throw_triple (
        then_triple (lift_keeps (funding_payload_hash platform c)) λ hash.
          bind_triple (λ d w. UnfundedDecision d × I w) (kept.begin c hash)
            λ d. follow_decision_keeps d)

    after_reconciliation_keeps :
        (r : FundingChainReconciliation) (saga : FundingSagaRecord) (outcome : Outcome)
        → Keeps I (after_reconciliation platform repository issuer chain anchor c r saga outcome)
    unfolding after_reconciliation
    after_reconciliation_keeps r saga mismatch = throw_triple
    after_reconciliation_keeps r saga reconciled =
        if_triple (same_action r.action compensate) (give_triple λ w i. i) execute_keeps

    reconcile_record_keeps :
        (r : FundingChainReconciliation) (saga : FundingSagaRecord)
        → (is_reconciled r.outcome && is_funding r.action) ≡ false
        → Keeps I (reconcile_record platform repository issuer chain anchor c r saga)
    unfolding reconcile_record
    reconcile_record_keeps r saga h =
        then_triple (kept.reconcile c saga.operation_record_id r h)
          λ updated. after_reconciliation_keeps r updated r.outcome

    resume_decision_keeps :
        (r : FundingChainReconciliation) (d : BeginFundingDecision)
        → (is_reconciled r.outcome && is_funding r.action) ≡ false
        → Keeps I (resume_decision platform repository issuer chain anchor c r d)
    unfolding resume_decision
    resume_decision_keeps r conflicting h = throw_triple
    resume_decision_keeps r (replayed result) h = give_triple λ w i. i
    resume_decision_keeps r (started saga) h = reconcile_record_keeps r saga h
    resume_decision_keeps r (resumed saga) h = reconcile_record_keeps r saga h

    pub resume_keeps :
        (r : FundingChainReconciliation)
        → (is_reconciled r.outcome && is_funding r.action) ≡ false
        → Keeps I (resume_after_chain_reconciliation platform repository issuer chain anchor c r)
    unfolding resume_after_chain_reconciliation
    resume_keeps r h = then_triple (lift_keeps (funding_payload_hash platform c)) λ hash.
        bind_triple (λ d w. UnfundedDecision d × I w) (kept.begin c hash)
          λ d. weaken (resume_decision_keeps r d h)
