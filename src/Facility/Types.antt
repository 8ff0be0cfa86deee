-- ===== src/Facility/Types.antt =====
-- apps/api/src/modules/facility/domain/types.ts, with the JSON of the values that are hashed and
-- the codes of the errors that the saga writes down.
use jejak.Prelude.{ℕ, Bool, true, false, Option, List, [], ◌∷◌}
use jejak.Prelude.Text.{Text, codes}
use jejak.Shared.Errors.{
  Error, domain, anchor, issuer, settlement, conflict, type_error, failure, DomainErrorCode,
  validation_failed, version_conflict, invalid_state_transition, claim_already_encumbered,
  partner_timeout, partner_rejected, SettlementErrorCode, idempotency_conflict, invalid_settlement,
  settlement_mismatch, waterfall_pending,
}
use jejak.Shared.Number.{Number}
use jejak.Shared.Json.{Json, Fields, end, field}
use jejak.Shared.Money.{MoneyValue}
use jejak.Issuer.Transaction.{IssuerTransactionPayload}
use jejak.Issuer.Receipt.{IssuerApprovalReceipt}
use jejak.Anchor.Payout.{AnchorPayoutReceipt, is_retryable}

pub data FundingStepName : Type 0 where
  preconditions issuer_approval asset_issuance facility_funding : FundingStepName
  anchor_payout compensation : FundingStepName

pub data FundingSagaStatus : Type 0 where
  pending waiting_external compensation_required paused failed : FundingSagaStatus
  compensated completed : FundingSagaStatus

pub data FundingChainAction : Type 0 where
  issue fund issue_and_fund compensate : FundingChainAction

pub data ChainMode : Type 0 where
  atomic separate : ChainMode

pub record FundingChainIntent : Type 0 where
  pub accepted_terms_hash : Text
  pub asset_controller_contract_id : Text
  pub claim_key : Text
  pub control_evidence_hash : Text
  pub control_evidence_id : Text
  pub facility_contract_id : Text
  pub facility_holder : Text
  pub facility_id : Text
  pub facility_operator : Text
  pub facility_treasury : Text
  pub first_loss_amount_minor : Text
  pub attestation_envelope_hash : Text
  pub attestation_id : Text
  pub issuer_operator : Text
  pub payout_reference : Text
  pub result_hash : Text
  pub seller_payout_account : Text

pub record FundingSagaContext : Type 0 where
  pub actor_id : Text
  pub chain_mode : ChainMode
  pub claim_id : Text
  pub compensation_envelope_hash : Text
  pub correlation_id : Text
  pub expected_claim_version : Number
  pub facility_position_id : Text
  pub fund_envelope_hash : Text
  pub idempotency_key : Text
  pub issue_envelope_hash : Text
  pub issuer_transaction : IssuerTransactionPayload
  pub network : Text
  pub offer_id : Text
  pub operation_id : Text
  pub request_id : Text
  pub requested_at : Text
  pub source : MoneyValue
  pub tenant_id : Text
  pub chain_intent : FundingChainIntent

pub data Outcome : Type 0 where
  reconciled mismatch : Outcome

pub record FundingChainReconciliation : Type 0 where
  pub action : FundingChainAction
  pub canonical_event_id : Text
  pub ledger_sequence : Number
  pub outcome : Outcome
  pub transaction_hash : Text

-- The values that the repository writes as `safeResult`.
pub data SafeResult : Type 0 where
  issuer_result : IssuerApprovalReceipt → SafeResult
  anchor_result : AnchorPayoutReceipt → SafeResult
  submission_result : Text → Option Text → SafeResult
  reconciliation_result : FundingChainReconciliation → SafeResult

pub data StepStatus : Type 0 where
  pending succeeded waiting failed : StepStatus

pub record FundingStep : Type 0 where
  pub attempt_count : ℕ
  pub name : FundingStepName
  pub safe_result : Option SafeResult
  pub status : StepStatus

pub record FundingSagaRecord : Type 0 where
  pub operation_record_id : Text
  pub status : FundingSagaStatus
  pub steps : FundingStepName → Option FundingStep

pub record ChainActionRequest : Type 0 where
  pub action : FundingChainAction
  pub accepted_terms_hash : Text
  pub asset_controller_contract_id : Text
  pub claim_id : Text
  pub claim_key : Text
  pub envelope_hash : Text
  pub facility_contract_id : Text
  pub facility_holder : Text
  pub facility_id : Text
  pub facility_operator : Text
  pub facility_treasury : Text
  pub first_loss_amount_minor : Text
  pub idempotency_key : Text
  pub issuer_operator : Text
  pub network : Text
  pub requested_at : Text
  pub result_hash : Text
  pub seller_payout_account : Text
  pub source : MoneyValue
  pub tenant_id : Text

-- The status comes from the chain port: it is a text, as the guard reads it.
pub record ChainActionReceipt : Type 0 where
  pub action : FundingChainAction
  pub envelope_hash : Text
  pub ledger_sequence : Option Number
  pub network : Text
  pub receipt_hash : Text
  pub request_hash : Text
  pub sandbox : Bool
  pub status : Text
  pub transaction_hash : Text

pub record FundingSagaResult : Type 0 where
  pub anchor_receipt : Option AnchorPayoutReceipt
  pub issuer_receipt : Option IssuerApprovalReceipt
  pub operation_record_id : Text
  pub sandbox : Bool
  pub status : FundingSagaStatus

abbrev pub action_text : FundingChainAction → Text
action_text issue = codes "ISSUE"
action_text fund = codes "FUND"
action_text issue_and_fund = codes "ISSUE_AND_FUND"
action_text compensate = codes "COMPENSATE"

abbrev pub chain_mode_text : ChainMode → Text
chain_mode_text atomic = codes "ATOMIC"
chain_mode_text separate = codes "SEPARATE"

abbrev pub same_action : FundingChainAction → FundingChainAction → Bool
same_action issue issue = true
same_action fund fund = true
same_action issue_and_fund issue_and_fund = true
same_action compensate compensate = true
same_action _ _ = false

abbrev pub is_compensation_required : FundingSagaStatus → Bool
is_compensation_required compensation_required = true
is_compensation_required _ = false

abbrev pub is_compensated : FundingSagaStatus → Bool
is_compensated compensated = true
is_compensated _ = false

abbrev pub is_succeeded : StepStatus → Bool
is_succeeded succeeded = true
is_succeeded _ = false

-- An object by its entries.
abbrev pub entries : List (Text × Json) → Fields
entries [] = end
entries ((key, value) ∷ es) = field key value (entries es)

abbrev domain_code_text : DomainErrorCode → Text
domain_code_text validation_failed = codes "VALIDATION_FAILED"
domain_code_text version_conflict = codes "VERSION_CONFLICT"
domain_code_text invalid_state_transition = codes "INVALID_STATE_TRANSITION"
domain_code_text claim_already_encumbered = codes "CLAIM_ALREADY_ENCUMBERED"
domain_code_text partner_timeout = codes "PARTNER_TIMEOUT"
domain_code_text partner_rejected = codes "PARTNER_REJECTED"

abbrev settlement_code_text : SettlementErrorCode → Text
settlement_code_text idempotency_conflict = codes "IDEMPOTENCY_CONFLICT"
settlement_code_text invalid_settlement = codes "INVALID_SETTLEMENT"
settlement_code_text settlement_mismatch = codes "PROTOCOL_MISMATCH"
settlement_code_text waterfall_pending = codes "WATERFALL_PENDING"

-- The code that the constructors of the partners' errors choose.
abbrev partner_code : Bool → DomainErrorCode
partner_code true = partner_timeout
partner_code false = partner_rejected

-- `safeError`
unfoldable pub safe_error : Error → Text
unfolding is_retryable
safe_error (domain code retryable) = domain_code_text code
safe_error (anchor c) = domain_code_text (partner_code (is_retryable c))
safe_error (issuer c) = domain_code_text (partner_code (is_retryable c))
safe_error (settlement code) = settlement_code_text code
safe_error conflict = codes "IDEMPOTENCY_CONFLICT"
safe_error type_error = codes "PARTNER_UNAVAILABLE"
safe_error failure = codes "PARTNER_UNAVAILABLE"

-- `isRetryable`
unfoldable pub is_retryable_error : Error → Bool
unfolding is_retryable
is_retryable_error (domain code retryable) = retryable
is_retryable_error (anchor c) = is_retryable c
is_retryable_error (issuer c) = is_retryable c
is_retryable_error (settlement code) = false
is_retryable_error conflict = false
is_retryable_error type_error = false
is_retryable_error failure = false
