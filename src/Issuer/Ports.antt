-- ===== src/Issuer/Ports.antt =====
-- apps/api/src/modules/issuer/ports, with the errors of domain/errors.ts and the context of
-- domain/types.ts: the partner and the journal as interfaces over a world whose type is left open.
use jejak.Prelude.{ℕ, Bool, true, false, Option}
use jejak.Prelude.Text.{Text}
use jejak.Shared.Errors.{
  Error, domain, anchor, issuer, settlement, conflict, type_error, failure, PartnerErrorClass,
  timeout, transport, rate_limit, rejected, protocol_mismatch, reconciliation_mismatch,
}
use jejak.Shared.Action.{Action}
use jejak.Issuer.Transaction.{IssuerTransactionPayload}
use jejak.Issuer.Receipt.{IssuerAdapterMode, IssuerApprovalRequest, IssuerApprovalReceipt}

pub record IssuerOperationContext : Type 0 where
  pub actor_id : Text
  pub aggregate_id : Text
  pub correlation_id : Text
  pub idempotency_key : Text
  pub operation_id : Text
  pub request_id : Text
  pub requested_at : Text
  pub tenant_id : Text
  pub transaction : IssuerTransactionPayload

-- `retryableClasses`
unfoldable pub is_retryable_class : PartnerErrorClass → Bool
is_retryable_class timeout = true
is_retryable_class transport = true
is_retryable_class rate_limit = true
is_retryable_class rejected = false
is_retryable_class protocol_mismatch = false
is_retryable_class reconciliation_mismatch = false

-- The class of an error once it is an `IssuerAdapterError`.
unfoldable pub as_issuer_adapter_error : Error → PartnerErrorClass
as_issuer_adapter_error (issuer c) = c
as_issuer_adapter_error (domain code retryable) = transport
as_issuer_adapter_error (anchor c) = transport
as_issuer_adapter_error (settlement code) = transport
as_issuer_adapter_error conflict = transport
as_issuer_adapter_error type_error = transport
as_issuer_adapter_error failure = transport

pub record IssuerApprovalPort (W : Type 0) : Type 0 where
  pub mode : IssuerAdapterMode
  pub find_approval : Text → Action W (Option IssuerApprovalReceipt)
  pub request_approval : IssuerApprovalRequest → Action W IssuerApprovalReceipt

pub data IssuerResolution : Type 0 where
  direct reconciled : IssuerResolution

-- The decisions `NEW`, `RESUME`, `REPLAY`, `FAILED` and `CONFLICT`.
pub data BeginIssuerDecision : Type 0 where
  started resumed : Text → BeginIssuerDecision
  replayed : IssuerApprovalReceipt → BeginIssuerDecision
  failed : PartnerErrorClass → BeginIssuerDecision
  conflicting : BeginIssuerDecision

pub data AttemptStatus : Type 0 where
  success retryable_failure terminal_failure : AttemptStatus

pub record BeginInput : Type 0 where
  pub context : IssuerOperationContext
  pub partner_idempotency_key : Text
  pub request_hash : Text

pub record CommitInput : Type 0 where
  pub context : IssuerOperationContext
  pub operation_record_id : Text
  pub partner_idempotency_key : Text
  pub receipt : IssuerApprovalReceipt
  pub resolution : IssuerResolution

pub record AttemptInput : Type 0 where
  pub attempt : ℕ
  pub classification : Option PartnerErrorClass
  pub context : IssuerOperationContext
  pub operation_record_id : Text
  pub request_hash : Text
  pub status : AttemptStatus

pub record FailureInput : Type 0 where
  pub classification : PartnerErrorClass
  pub context : IssuerOperationContext
  pub operation_record_id : Text
  pub retryable : Bool

pub record IssuerOperationJournal (W : Type 0) : Type 0 where
  pub begin : BeginInput → Action W BeginIssuerDecision
  pub commit_receipt : CommitInput → Action W IssuerApprovalReceipt
  pub record_attempt : AttemptInput → Action W (Unit {0})
  pub record_failure : FailureInput → Action W (Unit {0})
