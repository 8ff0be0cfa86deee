-- ===== src/Anchor/Payout.antt =====
-- apps/api/src/modules/anchor: the data of a payout (domain/types.ts), the classes of its errors
-- (domain/errors.ts), the partner (ports/anchor-payout.ts) and the journal (ports/payout-journal.ts)
-- as interfaces over a world whose type is left open.
use jejak.Prelude.{ℕ, Bool, true, false, Option}
use jejak.Prelude.Text.{Text}
use jejak.Shared.Errors.{
  Error, domain, anchor, issuer, settlement, conflict, type_error, failure, PartnerErrorClass,
  timeout, transport, rate_limit, rejected, protocol_mismatch, reconciliation_mismatch,
}
use jejak.Shared.Number.{Number}
use jejak.Shared.Money.{MoneyValue}
use jejak.Shared.Action.{Action}
use jejak.Anchor.Conversion.{AnchorRate}

pub data AnchorAdapterMode : Type 0 where
  sandbox production : AnchorAdapterMode

pub data AnchorResolution : Type 0 where
  direct reconciled : AnchorResolution

pub record AnchorPayoutRequest : Type 0 where
  pub aggregate_id : Text
  pub partner_idempotency_key : Text
  pub requested_at : Text
  pub source : MoneyValue
  pub tenant_id : Text

-- The rounding mode and the status come from the partner: they are texts, as the guards read them.
pub record AnchorPayoutReceipt : Type 0 where
  pub adapter_mode : AnchorAdapterMode
  pub completed_at : Text
  pub fee : MoneyValue
  pub fee_bps : Number
  pub partner_reference : Text
  pub rate : AnchorRate
  pub receipt_hash : Text
  pub request_hash : Text
  pub rounding_mode : Text
  pub sandbox : Bool
  pub source : MoneyValue
  pub status : Text
  pub target_gross : MoneyValue
  pub target_net : MoneyValue

pub record AnchorPayoutContext : Type 0 where
  pub actor_id : Text
  pub aggregate_id : Text
  pub idempotency_key : Text
  pub operation_id : Text
  pub request_id : Text
  pub requested_at : Text
  pub source : MoneyValue
  pub tenant_id : Text

-- `retryableClasses`
unfoldable pub is_retryable : PartnerErrorClass → Bool
is_retryable timeout = true
is_retryable transport = true
is_retryable rate_limit = true
is_retryable rejected = false
is_retryable protocol_mismatch = false
is_retryable reconciliation_mismatch = false

-- The class of an error once it is an `AnchorError`.
unfoldable pub as_anchor_error : Error → PartnerErrorClass
as_anchor_error (anchor c) = c
as_anchor_error (domain code retryable) = transport
as_anchor_error (issuer c) = transport
as_anchor_error (settlement code) = transport
as_anchor_error conflict = transport
as_anchor_error type_error = transport
as_anchor_error failure = transport

pub record AnchorPayoutPort (W : Type 0) : Type 0 where
  pub mode : AnchorAdapterMode
  pub find_payout : Text → Action W (Option AnchorPayoutReceipt)
  pub request_payout : AnchorPayoutRequest → Action W AnchorPayoutReceipt

-- The decisions `NEW`, `RESUME`, `REPLAY`, `FAILED` and `CONFLICT`.
pub data BeginPayoutDecision : Type 0 where
  started : Text → BeginPayoutDecision
  resumed : Text → BeginPayoutDecision
  replayed : AnchorPayoutReceipt → BeginPayoutDecision
  failed : PartnerErrorClass → BeginPayoutDecision
  conflicting : BeginPayoutDecision

pub data AttemptStatus : Type 0 where
  success retryable_failure terminal_failure : AttemptStatus

pub record BeginInput : Type 0 where
  pub context : AnchorPayoutContext
  pub partner_idempotency_key : Text
  pub request_hash : Text

pub record CommitInput : Type 0 where
  pub context : AnchorPayoutContext
  pub operation_id : Text
  pub partner_idempotency_key : Text
  pub receipt : AnchorPayoutReceipt
  pub resolution : AnchorResolution

pub record AttemptInput : Type 0 where
  pub attempt : ℕ
  pub classification : Option PartnerErrorClass
  pub context : AnchorPayoutContext
  pub operation_id : Text
  pub request_hash : Text
  pub status : AttemptStatus

pub record FailureInput : Type 0 where
  pub classification : PartnerErrorClass
  pub context : AnchorPayoutContext
  pub operation_id : Text
  pub retryable : Bool

pub record AnchorPayoutJournal (W : Type 0) : Type 0 where
  pub begin : BeginInput → Action W BeginPayoutDecision
  pub commit_receipt : CommitInput → Action W AnchorPayoutReceipt
  pub record_attempt : AttemptInput → Action W (Unit {0})
  pub record_failure : FailureInput → Action W (Unit {0})
