-- ===== src/Facility/Run/Unfunded.antt =====
-- What the saga keeps while no reconciliation of the chain confirms the funding, as an interface
-- of the repository: apps/api/src/modules/facility/application/funding-saga.ts.
pub mod Chain
pub mod Saga
use jejak.Prelude.{Bool, true, false, not, ◌&&◌, ◌≡◌, refl, Option, none, some, inl, inr}
use jejak.Prelude.Tests.{if◌then◌else◌, Bool-cases}
use jejak.Prelude.Text.{Text, codes}
use jejak.Shared.Errors.{Result, Error}
use jejak.Shared.Action.{Action, ◌>>=◌, ◌>>◌, give, throw, lift, try_catch}
use jejak.Shared.Action.Triple.{
  Triple, Keeps, weaken, given, bind_triple, try_triple, then_triple, give_triple, throw_triple,
  lift_keeps, if_triple,
}
use jejak.Shared.Json.{Platform}
use jejak.Facility.Types.{
  facility_funding, asset_issuance, issuer_approval, preconditions, compensate, same_action,
  Outcome, reconciled, mismatch, ChainMode, atomic, separate, FundingSagaContext,
  FundingChainReconciliation, FundingChainAction, FundingSagaRecord, FundingSagaResult,
  ChainActionRequest, ChainActionReceipt, FundingSagaStatus, is_compensated,
  is_compensation_required, is_retryable_error,
}
use jejak.Facility.Ports.{
  FundingChainPort, FundingSagaRepository, IssuerApprovalExecutor, AnchorPayoutExecutor,
  BeginFundingDecision, started, resumed, replayed, conflicting,
}
use jejak.Facility.Receipt.{validate_chain_action_receipt}
use jejak.Facility.Request.{
  issuer_context, action_key, compensation_key, funding_payload_hash, chain_request,
}
use jejak.Facility.Compensation.{
  or_find_or_submit, send_compensation, submit_compensation, compensate_record, compensate_decision,
  execute_compensation,
}
use jejak.Facility.Saga.{
  fund_failed, chain_phase, chain_failed, after_chain, move_funds, after_issuer, approve,
  run_record, reconcile_record, after_reconciliation, follow_decision, execute, resume_decision,
  resume_after_chain_reconciliation,
}
use jejak.Facility.Run.{is_funding, is_reconciled}
use jejak.Issuer.Ports.{IssuerOperationContext}
use jejak.Issuer.Receipt.{IssuerApprovalReceipt}
use jejak.Facility.Action.{
  succeeded, is_waiting, is_unconfigured, safe_issuer_receipt, or_submit, find_or_submit,
  follow_prepared, chain_action, submit, mark, submitted, waiting_result,
}

abbrev pub IsUnfunded : FundingSagaRecord → Type 0
IsUnfunded r = succeeded r facility_funding ≡ false

abbrev pub UnfundedDecision : BeginFundingDecision → Type 0
UnfundedDecision (started r) = IsUnfunded r
UnfundedDecision (resumed r) = IsUnfunded r
UnfundedDecision (replayed result) = Unit
UnfundedDecision conflicting = Unit

-- An invariant under which no saga that the repository hands out is funded.
pub record KeepsUnfunded {W : Type 0} (I : W → Type 0) (repository : FundingSagaRepository W)
    : Type 0 where
  pub begin :
      (c : FundingSagaContext) (hash : Text)
      → Triple I (repository.begin c hash) (λ d w. UnfundedDecision d × I w) I
  pub load :
      (c : FundingSagaContext) (id : Text)
      → Triple I (repository.load c id) (λ r w. IsUnfunded r × I w) I
  pub commit_chain :
      (c : FundingSagaContext) (id : Text) (receipt : ChainActionReceipt) (submission : Text)
      → Keeps I (repository.commit_chain c id receipt submission)
  pub mark_status :
      (c : FundingSagaContext) (id : Text) (status : FundingSagaStatus) (reason : Option Text)
      → Keeps I (repository.mark_status c id status reason)
  pub ensure_preconditions :
      (c : FundingSagaContext) (id : Text) → Keeps I (repository.ensure_preconditions c id)
  pub commit_issuer :
      (c : FundingSagaContext) (id : Text) (receipt : IssuerApprovalReceipt)
      → Keeps I (repository.commit_issuer c id receipt)
  pub mark_compensation_required :
      (c : FundingSagaContext) (id : Text) (reason : Text)
      → Keeps I (repository.mark_compensation_required c id reason)
  pub reconcile :
      (c : FundingSagaContext) (id : Text) (r : FundingChainReconciliation)
      → (is_reconciled r.outcome && is_funding r.action) ≡ false
      → Keeps I (repository.record_chain_reconciliation c id r)
  pub prepare_chain :
      (c : FundingSagaContext) (id : Text) (request : ChainActionRequest)
      → Keeps I (repository.prepare_chain c id request)
