-- ===== src/Facility/Run/Unfunded/Chain.antt =====
-- What an action on the chain and a compensation keep while no saga is funded:
-- apps/api/src/modules/facility/application/funding-saga.ts.
use jejak.Prelude.{Bool, true, false, ◌≡◌, refl, Option, none, some}
use jejak.Prelude.Text.{Text}
use jejak.Shared.Action.Triple.{
  Triple, Keeps, weaken, bind_triple, then_triple, give_triple, throw_triple, lift_keeps, if_triple,
}
use jejak.Shared.Json.{Platform}
use jejak.Facility.Types.{
  compensate, FundingSagaContext, FundingChainAction, FundingSagaRecord, FundingSagaResult,
  ChainActionRequest, ChainActionReceipt, is_compensated, is_compensation_required,
}
use jejak.Facility.Ports.{
  FundingChainPort, FundingSagaRepository, BeginFundingDecision, started, resumed, replayed,
  conflicting,
}
use jejak.Facility.Receipt.{validate_chain_action_receipt}
use jejak.Facility.Request.{action_key, compensation_key, funding_payload_hash, chain_request}
use jejak.Facility.Compensation.{
  or_find_or_submit, send_compensation, submit_compensation, compensate_record, compensate_decision,
  execute_compensation,
}
use jejak.Issuer.Receipt.{IssuerApprovalReceipt}
use jejak.Facility.Action.{or_submit, find_or_submit, follow_prepared, chain_action, submit}
use jejak.Facility.Run.Unfunded.{UnfundedDecision, KeepsUnfunded}

abbrev pub returned : Option FundingSagaResult → Bool
returned none = false
returned (some result) = true

-- The chain phase has returned a result.
abbrev pub Returned : {W : Type 0} → (W → Type 0) → Option FundingSagaResult → W → Type 0
Returned I o w = (returned o ≡ true) × I w

module _ {W : Type 0} (I : W → Type 0) (platform : Platform) (repository : FundingSagaRepository W)
    (chain : FundingChainPort W) (kept : KeepsUnfunded I repository)
    (finds : (r : ChainActionRequest) → Keeps I (chain.find_action r))
    (submits : (r : ChainActionRequest) → Keeps I (chain.submit_action r)) where
  or_submit_keeps :
      (request : ChainActionRequest) (found : Option ChainActionReceipt)
      → Triple I (or_submit platform repository chain request found) (λ r. I) I
  or_submit_keeps request none = submits request
  or_submit_keeps request (some receipt) = give_triple λ w i. i

  find_or_submit_keeps :
      (request : ChainActionRequest)
      → Triple I (find_or_submit platform repository chain request) (λ r. I) I
  unfolding find_or_submit
  find_or_submit_keeps request = then_triple (finds request) λ found.
      then_triple (or_submit_keeps request found)
        λ receipt. then_triple (lift_keeps _) λ u. give_triple λ w i. i

  follow_prepared_keeps :
      (request : ChainActionRequest) (id : Text) (found : Option ChainActionReceipt)
      → Keeps I (follow_prepared platform repository chain request id found)
  unfolding follow_prepared
  follow_prepared_keeps request id (some receipt) = give_triple λ w i. i
  follow_prepared_keeps request id none =
      then_triple (find_or_submit_keeps request) λ receipt. give_triple λ w i. i

  chain_action_keeps :
      (c : FundingSagaContext) (id : Text) (action : FundingChainAction) (envelope_hash : Text)
      → Keeps I (chain_action platform repository chain c id action envelope_hash)
  unfolding chain_action
  chain_action_keeps c id action envelope_hash =
      then_triple (lift_keeps (action_key platform c id action)) λ key.
        let request = chain_request c action envelope_hash key in
        then_triple (kept.prepare_chain c id request)
          λ prepared. follow_prepared_keeps request prepared.submission_id prepared.receipt

  pub submit_keeps :
      (c : FundingSagaContext) (id : Text) (action : FundingChainAction) (envelope_hash : Text)
      (issuer_receipt : Option IssuerApprovalReceipt)
      → Triple I
          (submit platform repository chain c id action envelope_hash issuer_receipt)
          (Returned I)
          I
  unfolding submit
  submit_keeps c id action envelope_hash issuer_receipt =
      then_triple (chain_action_keeps c id action envelope_hash) λ s.
        then_triple (kept.commit_chain c id s.receipt s.submission_id)
          λ u. then_triple (kept.mark_status c id _ _) λ v. give_triple λ w i. (refl, i)

  -- The compensation of a saga.
  or_find_or_submit_keeps :
      (request : ChainActionRequest) (found : Option ChainActionReceipt)
      → Keeps I (or_find_or_submit platform repository chain request found)
  unfolding or_find_or_submit
  or_find_or_submit_keeps request (some receipt) = give_triple λ w i. i
  or_find_or_submit_keeps request none =
      then_triple (finds request) λ found. or_submit_keeps request found

  send_compensation_keeps :
      (c : FundingSagaContext) (id : Text) (request : ChainActionRequest)
      → Keeps I (send_compensation platform repository chain c id request)
  unfolding send_compensation
  send_compensation_keeps c id request = then_triple (kept.prepare_chain c id request) λ prepared.
      then_triple (or_find_or_submit_keeps request prepared.receipt) λ receipt.
        then_triple (lift_keeps (validate_chain_action_receipt platform request receipt)) λ u.
          then_triple (kept.commit_chain c id receipt prepared.submission_id)
            λ v. then_triple (kept.mark_status c id _ _) λ x. give_triple λ w i. i

  submit_compensation_keeps :
      (c : FundingSagaContext) (id : Text)
      → Keeps I (submit_compensation platform repository chain c id)
  unfolding submit_compensation
  submit_compensation_keeps c id = then_triple (lift_keeps (compensation_key platform id)) λ key.
      send_compensation_keeps c id (chain_request c compensate c.compensation_envelope_hash key)

  compensate_record_keeps :
      (c : FundingSagaContext) (r : FundingSagaRecord)
      → Keeps I (compensate_record platform repository chain c r)
  unfolding compensate_record
  compensate_record_keeps c r =
      if_triple (is_compensation_required r.status)
        (submit_compensation_keeps c r.operation_record_id) throw_triple

  compensate_decision_keeps :
      (c : FundingSagaContext) (d : BeginFundingDecision)
      → Keeps I (compensate_decision platform repository chain c d)
  unfolding compensate_decision
  compensate_decision_keeps c conflicting = throw_triple
  compensate_decision_keeps c (replayed result) =
      if_triple (is_compensated result.status) (give_triple λ w i. i) throw_triple
  compensate_decision_keeps c (started r) = compensate_record_keeps c r
  compensate_decision_keeps c (resumed r) = compensate_record_keeps c r

  pub execute_compensation_keeps :
      (c : FundingSagaContext) → Keeps I (execute_compensation platform repository chain c)
  unfolding execute_compensation
  execute_compensation_keeps c = then_triple (lift_keeps (funding_payload_hash platform c)) λ hash.
      bind_triple (λ d w. UnfundedDecision d × I w) (kept.begin c hash)
        λ d. weaken (compensate_decision_keeps c d)
