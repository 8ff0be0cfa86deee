-- ===== src/Facility/Compensation.antt =====
-- apps/api/src/modules/facility/application/funding-saga.ts: `FacilityFundingCompensationService`.
use jejak.Prelude.{Option, none, some}
use jejak.Prelude.Tests.{if◌then◌else◌}
use jejak.Prelude.Text.{Text, codes}
use jejak.Shared.Action.{Action, ◌>>=◌, ◌>>◌, give, throw, lift}
use jejak.Shared.Json.{Platform}
use jejak.Facility.Types.{
  waiting_external, compensate, FundingSagaContext, FundingSagaRecord, ChainActionRequest,
  ChainActionReceipt, FundingSagaResult, is_compensated, is_compensation_required,
}
use jejak.Facility.Ports.{
  FundingChainPort, BeginFundingDecision, started, resumed, replayed, conflicting,
  FundingSagaRepository,
}
use jejak.Facility.Receipt.{validate_chain_action_receipt}
use jejak.Facility.Request.{funding_payload_hash, compensation_key, chain_request}
use jejak.Facility.Action.{waiting_result, invalid_state, mark, or_submit}

module _ {W : Type 0} (platform : Platform) (repository : FundingSagaRepository W)
    (chain : FundingChainPort W) where
  -- `prepared.receipt ?? findAction(request) ?? submitAction(request)`
  unfoldable pub or_find_or_submit :
      ChainActionRequest → Option ChainActionReceipt → Action W ChainActionReceipt
  or_find_or_submit request (some receipt) = give receipt
  or_find_or_submit request none = do
    found ← chain.find_action request
    or_submit platform repository chain request found

  module _ (context : FundingSagaContext) where
    unfoldable pub send_compensation : Text → ChainActionRequest → Action W FundingSagaResult
    unfolding validate_chain_action_receipt or_find_or_submit
    send_compensation id request = do
      prepared ← repository.prepare_chain context id request
      receipt ← or_find_or_submit request prepared.receipt
      lift (validate_chain_action_receipt platform request receipt)
      repository.commit_chain context id receipt prepared.submission_id
      mark repository context id waiting_external
          (codes "COMPENSATION_SUBMITTED_PENDING_RECONCILIATION")
      give (waiting_result id none)

    unfoldable pub submit_compensation : Text → Action W FundingSagaResult
    unfolding compensation_key send_compensation
    submit_compensation id = do
      key ← lift (compensation_key platform id)
      send_compensation id (chain_request context compensate context.compensation_envelope_hash key)

    unfoldable pub compensate_record : FundingSagaRecord → Action W FundingSagaResult
    unfolding submit_compensation
    compensate_record r =
        if is_compensation_required r.status
        then submit_compensation r.operation_record_id
        else throw invalid_state

    unfoldable pub compensate_decision : BeginFundingDecision → Action W FundingSagaResult
    unfolding compensate_record
    compensate_decision conflicting = throw invalid_state
    compensate_decision (replayed result) =
        if is_compensated result.status then give result else throw invalid_state
    compensate_decision (started r) = compensate_record r
    compensate_decision (resumed r) = compensate_record r

    unfoldable pub execute_compensation : Action W FundingSagaResult
    unfolding funding_payload_hash compensate_decision
    execute_compensation = do
      payload_hash ← lift (funding_payload_hash platform context)
      begun ← repository.begin context payload_hash
      compensate_decision begun
