-- ===== src/Anchor/Journal.antt =====
-- apps/api/src/modules/anchor/adapters/in-memory-payout-journal.ts: the journal of the payouts, a
-- map from the scope of a command to its record, with the logs it writes. `#exclusive` runs one
-- operation after the other, so that each is one step; what is stored is a copy, so that nothing
-- outside changes it.
pub mod Replay
use jejak.Prelude.{
  ℕ, zero, suc, ◌+◌, ◌-◌, Bool, true, false, not, Option, none, some, List, [], ◌∷◌, ◌++◌,
}
use jejak.Prelude.Tests.{if◌then◌else◌}
use jejak.Prelude.Lists.{length}
use jejak.Prelude.Text.{Text, codes, text_eq, decimal}
use jejak.Shared.Errors.{Result, ok, err, failure, PartnerErrorClass}
use jejak.Shared.Action.{Action, continue_with}
use jejak.Shared.Json.{Json, Fields, string, object, end, field, Platform, canonical_hash}
use jejak.Anchor.Payout.{
  AnchorAdapterMode, AnchorPayoutContext, AnchorPayoutReceipt, AnchorResolution, direct, reconciled,
  BeginPayoutDecision, started, resumed, replayed, conflicting, AttemptStatus, BeginInput,
  CommitInput, AttemptInput, FailureInput,
}

pub data RecordStatus : Type 0 where
  pending retryable_failure failed succeeded : RecordStatus

pub record JournalRecord : Type 0 where
  pub operation_id : Text
  pub receipt : Option AnchorPayoutReceipt
  pub request_hash : Text
  pub status : RecordStatus
  pub terminal_failure : Option PartnerErrorClass

-- The entries of the logs, less the fields that are constant.
pub record AttemptEntry : Type 0 where
  pub attempt : ℕ
  pub classification : Option PartnerErrorClass
  pub operation_id : Text
  pub request_hash : Text
  pub status : AttemptStatus
  pub tenant_id : Text

pub record CompletedEntry : Type 0 where
  pub adapter_mode : AnchorAdapterMode
  pub aggregate_id : Text
  pub operation_id : Text
  pub receipt_hash : Text
  pub resolution : AnchorResolution
  pub tenant_id : Text

pub record FailedEntry : Type 0 where
  pub aggregate_id : Text
  pub classification : PartnerErrorClass
  pub operation_id : Text
  pub outcome : RecordStatus
  pub tenant_id : Text

pub data AuditEntry : Type 0 where
  completed : CompletedEntry → AuditEntry
  unsuccessful : FailedEntry → AuditEntry

pub record OutboxEntry : Type 0 where
  pub aggregate_id : Text
  pub idempotency_key : Text
  pub payload_hash : Text
  pub tenant_id : Text

pub record JournalState : Type 0 where
  pub attempts : List AttemptEntry
  pub audit : List AuditEntry
  pub outbox : List OutboxEntry
  pub records : Text → Option JournalRecord
  pub sequence : ℕ

abbrev pub initial_state : JournalState
initial_state = record {
  attempts = [];
  audit = [];
  outbox = [];
  records = λ key. none;
  sequence = 0;
}

unfoldable pub scope_key : AnchorPayoutContext → Text
scope_key c =
    c.tenant_id ++ b':' ∷ (c.actor_id ++ b':' ∷ (c.operation_id ++ b':' ∷ c.idempotency_key))

-- `Map.set`
unfoldable pub set_record :
    (Text → Option JournalRecord) → Text → JournalRecord → Text → Option JournalRecord
set_record records key r other = if text_eq key other then some r else records other

abbrev pub zeros : ℕ → Text → Text
zeros zero t = t
zeros (suc n) t = b'0' ∷ zeros n t

-- `padStart(12, "0")`
unfoldable pub pad_start : Text → Text
pad_start t = zeros (12 - length t) t

-- The default `nextId`.
unfoldable pub next_id : ℕ → Text
next_id sequence = codes "01980a12-3456-789a-8abc-" ++ pad_start (decimal (sequence + 1))

abbrev pub decide_failure : JournalRecord → Option PartnerErrorClass → BeginPayoutDecision
decide_failure r none = resumed r.operation_id
decide_failure r (some c) = BeginPayoutDecision.failed c

abbrev pub decide_receipt : JournalRecord → Option AnchorPayoutReceipt → BeginPayoutDecision
decide_receipt r none = decide_failure r r.terminal_failure
decide_receipt r (some receipt) = replayed receipt

abbrev pub decide : JournalRecord → Text → BeginPayoutDecision
decide r request_hash =
    if text_eq r.request_hash request_hash then decide_receipt r r.receipt else conflicting

abbrev pub new_record : Text → Text → JournalRecord
new_record operation_id request_hash = record {
  operation_id = operation_id;
  receipt = none;
  request_hash = request_hash;
  status = pending;
  terminal_failure = none;
}

abbrev pub begin_at :
    BeginInput → JournalState → Option JournalRecord → Result BeginPayoutDecision × JournalState
begin_at input s none = (
  ok (started (next_id s.sequence)),
  record s {
    records =
        set_record s.records (scope_key input.context)
          (new_record (next_id s.sequence) input.request_hash);
    sequence = s.sequence + 1;
  },
)
begin_at input s (some existing) = (ok (decide existing input.request_hash), s)

unfoldable pub begin : BeginInput → Action JournalState BeginPayoutDecision
begin input s = begin_at input s (s.records (scope_key input.context))

abbrev pub resolution_text : AnchorResolution → Text
resolution_text direct = codes "DIRECT"
resolution_text reconciled = codes "RECONCILED"

abbrev pub payload_json : CommitInput → Json
payload_json input = object (
    field (codes "receiptHash") (string input.receipt.receipt_hash)
      (field (codes "resolution") (string (resolution_text input.resolution)) end))

abbrev pub outbox_entry : CommitInput → Text → OutboxEntry
outbox_entry input payload_hash = record {
  aggregate_id = input.context.aggregate_id;
  idempotency_key = input.context.idempotency_key;
  payload_hash = payload_hash;
  tenant_id = input.context.tenant_id;
}

abbrev pub completed_entry : CommitInput → CompletedEntry
completed_entry input = record {
  adapter_mode = input.receipt.adapter_mode;
  aggregate_id = input.context.aggregate_id;
  operation_id = input.operation_id;
  receipt_hash = input.receipt.receipt_hash;
  resolution = input.resolution;
  tenant_id = input.context.tenant_id;
}

-- The record and the audit are written before the hash of the event is computed.
abbrev pub with_receipt : JournalState → CommitInput → JournalRecord → JournalState
with_receipt s input r = record s {
  records =
      set_record s.records (scope_key input.context)
        (record r { receipt = some input.receipt; status = succeeded });
  audit = s.audit ++ (completed (completed_entry input) ∷ []);
}

abbrev pub with_event :
    JournalState → CommitInput → Result Text → Result AnchorPayoutReceipt × JournalState
with_event s input (ok payload_hash) =
    (ok input.receipt, record s { outbox = s.outbox ++ (outbox_entry input payload_hash ∷ []) })
with_event s input (err e) = (err e, s)

module _ (platform : Platform) where
  abbrev pub commit_to :
      CommitInput
      → JournalState
      → JournalRecord
      → Option AnchorPayoutReceipt
      → Result AnchorPayoutReceipt × JournalState
  commit_to input s r none =
      with_event (with_receipt s input r) input (canonical_hash platform (payload_json input))
  commit_to input s r (some committed) =
      if text_eq committed.receipt_hash input.receipt.receipt_hash
      then (ok committed, s)
      else (err failure, s)

  abbrev pub commit_at :
      CommitInput → JournalState → Option JournalRecord → Result AnchorPayoutReceipt × JournalState
  commit_at input s none = (err failure, s)
  commit_at input s (some r) =
      if text_eq r.operation_id input.operation_id
      then commit_to input s r r.receipt
      else (err failure, s)

  unfoldable pub commit_receipt : CommitInput → Action JournalState AnchorPayoutReceipt
  commit_receipt input s = commit_at input s (s.records (scope_key input.context))

abbrev pub attempt_entry : AttemptInput → AttemptEntry
attempt_entry input = record {
  attempt = input.attempt;
  classification = input.classification;
  operation_id = input.operation_id;
  request_hash = input.request_hash;
  status = input.status;
  tenant_id = input.context.tenant_id;
}

unfoldable pub record_attempt : AttemptInput → Action JournalState (Unit {0})
record_attempt input s = (ok tt, record s { attempts = s.attempts ++ (attempt_entry input ∷ []) })

abbrev pub failed_entry : FailureInput → FailedEntry
failed_entry input = record {
  aggregate_id = input.context.aggregate_id;
  classification = input.classification;
  operation_id = input.operation_id;
  outcome = if input.retryable then retryable_failure else RecordStatus.failed;
  tenant_id = input.context.tenant_id;
}

abbrev pub failed_record : FailureInput → JournalRecord → JournalRecord
failed_record input r =
    if input.retryable
    then record r { status = retryable_failure }
    else record r { status = RecordStatus.failed; terminal_failure = some input.classification }

abbrev pub fail_records :
    FailureInput
    → (Text → Option JournalRecord)
    → Option JournalRecord
    → Text
    → Option JournalRecord
fail_records input records none = records
fail_records input records (some r) =
    set_record records (scope_key input.context) (failed_record input r)

unfoldable pub record_failure : FailureInput → Action JournalState (Unit {0})
record_failure input s = (
  ok tt,
  record s {
    records = fail_records input s.records (s.records (scope_key input.context));
    audit = s.audit ++ (unsuccessful (failed_entry input) ∷ []);
  },
)
