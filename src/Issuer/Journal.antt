-- ===== src/Issuer/Journal.antt =====
-- apps/api/src/modules/issuer/adapters/in-memory-issuer-journal.ts: the journal of the approvals, a
-- map from the scope of a command to its record, with the logs it writes. `#exclusive` runs one
-- operation after the other, so that each is one step; what is stored is a copy, so that nothing
-- outside changes it. The ids are those of the payouts' journal.
pub mod Decisions
pub mod Failures
use jejak.Prelude.{
  ℕ, zero, suc, ◌+◌, ◌-◌, Bool, true, false, not, Option, none, some, List, [], ◌∷◌, ◌++◌,
}
use jejak.Prelude.Tests.{if◌then◌else◌}
use jejak.Prelude.Text.{Text, codes, text_eq, text_mem}
use jejak.Shared.Errors.{
  Result, ok, err, failure, PartnerErrorClass, timeout, transport, rate_limit, rejected,
  protocol_mismatch, reconciliation_mismatch,
}
use jejak.Shared.Action.{Action, continue_with}
use jejak.Shared.Json.{Json, Fields, string, boolean, object, end, field, Platform, canonical_hash}
use jejak.Anchor.Journal.{next_id}
use jejak.Issuer.Receipt.{IssuerAdapterMode, IssuerApprovalReceipt}
use jejak.Issuer.Ports.{
  IssuerOperationContext, IssuerResolution, direct, reconciled, BeginIssuerDecision, started,
  resumed, replayed, conflicting, AttemptStatus, BeginInput, CommitInput, AttemptInput,
  FailureInput,
}

pub data RecordStatus : Type 0 where
  pending retryable_failure failed decided : RecordStatus

pub record JournalRecord : Type 0 where
  pub operation_record_id : Text
  pub receipt : Option IssuerApprovalReceipt
  pub request_hash : Text
  pub status : RecordStatus
  pub terminal_failure : Option PartnerErrorClass

-- The entries of the logs, less the fields that are constant.
pub record AttemptEntry : Type 0 where
  pub attempt : ℕ
  pub classification : Option PartnerErrorClass
  pub operation_record_id : Text
  pub request_hash : Text
  pub status : AttemptStatus
  pub tenant_id : Text

pub record CompletedEntry : Type 0 where
  pub adapter_mode : IssuerAdapterMode
  pub aggregate_id : Text
  pub approved : Bool
  pub correlation_id : Text
  pub operation_record_id : Text
  pub receipt_hash : Text
  pub resolution : IssuerResolution
  pub outcome : Text
  pub tenant_id : Text

pub record FailedEntry : Type 0 where
  pub aggregate_id : Text
  pub classification : PartnerErrorClass
  pub correlation_id : Text
  pub operation_record_id : Text
  pub outcome : RecordStatus
  pub tenant_id : Text

pub data AuditEntry : Type 0 where
  completed : CompletedEntry → AuditEntry
  unsuccessful : FailedEntry → AuditEntry

pub data EventType : Type 0 where
  approval_decided adapter_failed : EventType

pub record OutboxEntry : Type 0 where
  pub aggregate_id : Text
  pub event_type : EventType
  pub idempotency_key : Text
  pub payload_hash : Text
  pub tenant_id : Text

pub record JournalState : Type 0 where
  pub attempts : List AttemptEntry
  pub audit : List AuditEntry
  pub failure_events : List Text
  pub outbox : List OutboxEntry
  pub records : Text → Option JournalRecord
  pub sequence : ℕ

abbrev pub initial_state : JournalState
initial_state = record {
  attempts = [];
  audit = [];
  failure_events = [];
  outbox = [];
  records = λ key. none;
  sequence = 0;
}

unfoldable pub scope_key : IssuerOperationContext → Text
scope_key c =
    c.tenant_id ++ b':' ∷ (c.actor_id ++ b':' ∷ (c.operation_id ++ b':' ∷ c.idempotency_key))

-- `Map.set`
unfoldable pub set_record :
    (Text → Option JournalRecord) → Text → JournalRecord → Text → Option JournalRecord
set_record records key r other = if text_eq key other then some r else records other

abbrev pub decide_failure : JournalRecord → Option PartnerErrorClass → BeginIssuerDecision
decide_failure r none = resumed r.operation_record_id
decide_failure r (some c) = BeginIssuerDecision.failed c

abbrev pub decide_receipt : JournalRecord → Option IssuerApprovalReceipt → BeginIssuerDecision
decide_receipt r none = decide_failure r r.terminal_failure
decide_receipt r (some receipt) = replayed receipt

abbrev pub decide : JournalRecord → Text → BeginIssuerDecision
decide r request_hash =
    if text_eq r.request_hash request_hash then decide_receipt r r.receipt else conflicting

abbrev pub new_record : Text → Text → JournalRecord
new_record operation_record_id request_hash = record {
  operation_record_id = operation_record_id;
  receipt = none;
  request_hash = request_hash;
  status = pending;
  terminal_failure = none;
}

abbrev pub begin_at :
    BeginInput → JournalState → Option JournalRecord → Result BeginIssuerDecision × JournalState
begin_at input s none = (
  ok (started (next_id s.sequence)),
  record s {
    records =
        set_record s.records (scope_key input.context)
          (new_record (next_id s.sequence) input.request_hash);
    sequence = s.sequence + 1;
  },
)
begin_at input s (some existing) = (ok (decide existing input.request_hash), s)

unfoldable pub begin : BeginInput → Action JournalState BeginIssuerDecision
begin input s = begin_at input s (s.records (scope_key input.context))

abbrev pub resolution_text : IssuerResolution → Text
resolution_text direct = codes "DIRECT"
resolution_text reconciled = codes "RECONCILED"

abbrev pub payload_json : CommitInput → Json
payload_json input = object (
    field (codes "approved") (boolean input.receipt.approved) (
      field (codes "receiptHash") (string input.receipt.receipt_hash) (
        field (codes "resolution") (string (resolution_text input.resolution))
          (field (codes "status") (string input.receipt.status) end))))

abbrev pub outbox_entry : CommitInput → Text → OutboxEntry
outbox_entry input payload_hash = record {
  aggregate_id = input.context.aggregate_id;
  event_type = approval_decided;
  idempotency_key = input.context.idempotency_key;
  payload_hash = payload_hash;
  tenant_id = input.context.tenant_id;
}

abbrev pub completed_entry : CommitInput → CompletedEntry
completed_entry input = record {
  adapter_mode = input.receipt.adapter_mode;
  aggregate_id = input.context.aggregate_id;
  approved = input.receipt.approved;
  correlation_id = input.context.correlation_id;
  operation_record_id = input.operation_record_id;
  receipt_hash = input.receipt.receipt_hash;
  resolution = input.resolution;
  outcome = input.receipt.status;
  tenant_id = input.context.tenant_id;
}

-- The record and the audit are written before the hash of the event is computed.
abbrev pub with_receipt : JournalState → CommitInput → JournalRecord → JournalState
with_receipt s input r = record s {
  records =
      set_record s.records (scope_key input.context)
        (record r { receipt = some input.receipt; status = decided });
  audit = s.audit ++ (completed (completed_entry input) ∷ []);
}

abbrev pub with_event :
    JournalState → CommitInput → Result Text → Result IssuerApprovalReceipt × JournalState
with_event s input (ok payload_hash) =
    (ok input.receipt, record s { outbox = s.outbox ++ (outbox_entry input payload_hash ∷ []) })
with_event s input (err e) = (err e, s)

module _ (platform : Platform) where
  abbrev pub commit_to :
      CommitInput
      → JournalState
      → JournalRecord
      → Option IssuerApprovalReceipt
      → Result IssuerApprovalReceipt × JournalState
  commit_to input s r none =
      with_event (with_receipt s input r) input (canonical_hash platform (payload_json input))
  commit_to input s r (some committed) =
      if text_eq committed.receipt_hash input.receipt.receipt_hash
      then (ok committed, s)
      else (err failure, s)

  abbrev pub commit_at :
      CommitInput
      → JournalState
      → Option JournalRecord
      → Result IssuerApprovalReceipt × JournalState
  commit_at input s none = (err failure, s)
  commit_at input s (some r) =
      if text_eq r.operation_record_id input.operation_record_id
      then commit_to input s r r.receipt
      else (err failure, s)

  unfoldable pub commit_receipt : CommitInput → Action JournalState IssuerApprovalReceipt
  commit_receipt input s = commit_at input s (s.records (scope_key input.context))
