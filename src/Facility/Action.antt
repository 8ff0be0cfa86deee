-- ===== src/Facility/Action.antt =====
-- apps/api/src/modules/facility/application/funding-saga.ts: an action on the chain, and what is
-- read off the record of a saga. The status and the error of a saga are those of the source.
use jejak.Prelude.{Bool, true, false, not, ◌||◌, Option, none, some}
use jejak.Prelude.Text.{Text, codes, text_eq}
use jejak.Shared.Errors.{Error, domain, invalid_state_transition, partner_rejected}
use jejak.Shared.Action.{Action, ◌>>=◌, ◌>>◌, give, lift}
use jejak.Shared.Json.{Platform}
use jejak.Issuer.Receipt.{IssuerApprovalReceipt}
use jejak.Anchor.Payout.{AnchorPayoutReceipt}
use jejak.Facility.Types.{
  FundingStepName, issuer_approval, anchor_payout, FundingSagaStatus, waiting_external, completed,
  compensated, FundingChainAction, FundingSagaContext, SafeResult, issuer_result, anchor_result,
  FundingStep, FundingSagaRecord, ChainActionRequest, ChainActionReceipt, FundingSagaResult,
  is_succeeded,
}
use jejak.Facility.Ports.{PortMode, sandbox, production, FundingChainPort, FundingSagaRepository}
use jejak.Facility.Receipt.{validate_chain_action_receipt}
use jejak.Facility.Request.{action_key, chain_request}

abbrev pub step_succeeded : Option FundingStep → Bool
step_succeeded none = false
step_succeeded (some step) = is_succeeded step.status

unfoldable pub succeeded : FundingSagaRecord → FundingStepName → Bool
succeeded r name = step_succeeded (r.steps name)

abbrev pub safe_result_of : Option FundingStep → Option SafeResult
safe_result_of none = none
safe_result_of (some step) = step.safe_result

-- A step of approval has a receipt of the issuer, and a step of payout one of the anchor.
abbrev pub issuer_receipt_of : Option SafeResult → Option IssuerApprovalReceipt
issuer_receipt_of none = none
issuer_receipt_of (some (issuer_result receipt)) = some receipt
issuer_receipt_of (some _) = none

abbrev pub anchor_receipt_of : Option SafeResult → Option AnchorPayoutReceipt
anchor_receipt_of none = none
anchor_receipt_of (some (anchor_result receipt)) = some receipt
anchor_receipt_of (some _) = none

abbrev pub safe_issuer_receipt : FundingSagaRecord → Option IssuerApprovalReceipt
safe_issuer_receipt r = issuer_receipt_of (safe_result_of (r.steps issuer_approval))

abbrev pub safe_anchor_receipt : FundingSagaRecord → Option AnchorPayoutReceipt
safe_anchor_receipt r = anchor_receipt_of (safe_result_of (r.steps anchor_payout))

abbrev pub waiting_result : Text → Option IssuerApprovalReceipt → FundingSagaResult
waiting_result id issuer_receipt = record {
  anchor_receipt = none;
  issuer_receipt = issuer_receipt;
  operation_record_id = id;
  sandbox = true;
  status = waiting_external;
}

abbrev pub completed_result :
    Text → Option IssuerApprovalReceipt → Option AnchorPayoutReceipt → FundingSagaResult
completed_result id issuer_receipt anchor_receipt = record {
  anchor_receipt = anchor_receipt;
  issuer_receipt = issuer_receipt;
  operation_record_id = id;
  sandbox = true;
  status = completed;
}

abbrev pub compensated_result : Text → FundingSagaResult
compensated_result id = record {
  anchor_receipt = none;
  issuer_receipt = none;
  operation_record_id = id;
  sandbox = true;
  status = compensated;
}

abbrev pub rejection : Error
rejection = domain partner_rejected false

abbrev pub invalid_state : Error
invalid_state = domain invalid_state_transition false

-- `PENDING` or `ACTION_REQUIRED`
abbrev pub is_waiting : IssuerApprovalReceipt → Bool
is_waiting receipt =
    text_eq receipt.status (codes "PENDING") || text_eq receipt.status (codes "ACTION_REQUIRED")

abbrev is_ready : Option Bool → Bool
is_ready none = false
is_ready (some b) = b

-- A production port that does not say that it is configured is refused.
abbrev pub is_unconfigured : PortMode → Option Bool → Bool
is_unconfigured sandbox configured = false
is_unconfigured production configured = not (is_ready configured)

pub record Submitted : Type 0 where
  pub receipt : ChainActionReceipt
  pub submission_id : Text

abbrev pub submitted : Text → ChainActionReceipt → Submitted
submitted id receipt = record { receipt = receipt; submission_id = id }

abbrev pub mark :
    {W : Type 0}
    → FundingSagaRepository W
    → FundingSagaContext
    → Text
    → FundingSagaStatus
    → Text
    → Action W (Unit {0})
mark repository context id status reason = repository.mark_status context id status (some reason)

module _ {W : Type 0} (platform : Platform) (repository : FundingSagaRepository W)
    (chain : FundingChainPort W) where
  -- `found ?? await this.chain.submitAction(request)`
  abbrev pub or_submit :
      ChainActionRequest → Option ChainActionReceipt → Action W ChainActionReceipt
  or_submit request none = chain.submit_action request
  or_submit request (some receipt) = give receipt

  unfoldable pub find_or_submit : ChainActionRequest → Action W ChainActionReceipt
  unfolding validate_chain_action_receipt
  find_or_submit request = do
    found ← chain.find_action request
    receipt ← or_submit request found
    lift (validate_chain_action_receipt platform request receipt)
    give receipt

  unfoldable pub follow_prepared :
      ChainActionRequest → Text → Option ChainActionReceipt → Action W Submitted
  unfolding find_or_submit
  follow_prepared request id (some receipt) = give (submitted id receipt)
  follow_prepared request id none = do receipt ← find_or_submit request; give (submitted id receipt)

  unfoldable pub chain_action :
      FundingSagaContext → Text → FundingChainAction → Text → Action W Submitted
  unfolding find_or_submit follow_prepared action_key
  chain_action context id action envelope_hash = do
    key ← lift (action_key platform context id action)
    let request = chain_request context action envelope_hash key
    prepared ← repository.prepare_chain context id request
    follow_prepared request prepared.submission_id prepared.receipt

  module _ (context : FundingSagaContext) where
    -- An action that is submitted, after which the saga waits for the chain.
    unfoldable pub submit :
        Text
        → FundingChainAction
        → Text
        → Option IssuerApprovalReceipt
        → Action W (Option FundingSagaResult)
    unfolding chain_action
    submit id action envelope_hash issuer_receipt = do
      s ← chain_action context id action envelope_hash
      repository.commit_chain context id s.receipt s.submission_id
      mark repository context id waiting_external (codes "CHAIN_SUBMITTED_PENDING_RECONCILIATION")
      give (some (waiting_result id issuer_receipt))
