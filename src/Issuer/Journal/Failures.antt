-- ===== src/Issuer/Journal/Failures.antt =====
-- apps/api/src/modules/issuer/adapters/in-memory-issuer-journal.ts, recordAttempt and recordFailure.
use jejak.Prelude.{Bool, true, false, Option, none, some, [], ◌∷◌, ◌++◌}
use jejak.Prelude.Tests.{if◌then◌else◌}
use jejak.Prelude.Text.{Text, codes, text_mem}
use jejak.Shared.Errors.{
  Result, ok, err, PartnerErrorClass, timeout, transport, rate_limit, rejected, protocol_mismatch,
  reconciliation_mismatch,
}
use jejak.Shared.Action.{Action}
use jejak.Shared.Json.{Json, string, boolean, object, end, field, Platform, canonical_hash}
use jejak.Issuer.Ports.{AttemptInput, FailureInput}
use jejak.Issuer.Journal.{
  RecordStatus, retryable_failure, JournalRecord, AttemptEntry, FailedEntry, unsuccessful,
  adapter_failed, OutboxEntry, JournalState, scope_key, set_record,
}

abbrev pub attempt_entry : AttemptInput → AttemptEntry
attempt_entry input = record {
  attempt = input.attempt;
  classification = input.classification;
  operation_record_id = input.operation_record_id;
  request_hash = input.request_hash;
  status = input.status;
  tenant_id = input.context.tenant_id;
}

unfoldable pub record_attempt : AttemptInput → Action JournalState (Unit {0})
record_attempt input s = (ok tt, record s { attempts = s.attempts ++ (attempt_entry input ∷ []) })

abbrev pub failed_entry : FailureInput → FailedEntry
failed_entry input = record {
  aggregate_id = input.context.aggregate_id;
  classification = input.classification;
  correlation_id = input.context.correlation_id;
  operation_record_id = input.operation_record_id;
  outcome = if input.retryable then retryable_failure else RecordStatus.failed;
  tenant_id = input.context.tenant_id;
}

abbrev pub failed_record : FailureInput → JournalRecord → JournalRecord
failed_record input r =
    if input.retryable
    then record r { status = retryable_failure }
    else record r { status = RecordStatus.failed; terminal_failure = some input.classification }

abbrev pub fail_records :
    FailureInput
    → (Text → Option JournalRecord)
    → Option JournalRecord
    → Text
    → Option JournalRecord
fail_records input records none = records
fail_records input records (some r) =
    set_record records (scope_key input.context) (failed_record input r)

abbrev class_text : PartnerErrorClass → Text
class_text timeout = codes "TIMEOUT"
class_text transport = codes "TRANSPORT"
class_text rate_limit = codes "RATE_LIMIT"
class_text rejected = codes "REJECTED"
class_text protocol_mismatch = codes "PROTOCOL_MISMATCH"
class_text reconciliation_mismatch = codes "RECONCILIATION_MISMATCH"

abbrev boolean_text : Bool → Text
boolean_text true = codes "true"
boolean_text false = codes "false"

abbrev pub failure_key : FailureInput → Text
failure_key input =
    input.operation_record_id
    ++ b':' ∷ (class_text input.classification ++ b':' ∷ boolean_text input.retryable)

abbrev pub failure_json : FailureInput → Json
failure_json input = object (
    field (codes "classification") (string (class_text input.classification)) (
      field (codes "operation") (string (codes "ISSUER_APPROVAL"))
        (field (codes "retryable") (boolean input.retryable) end)))

abbrev failure_entry : FailureInput → Text → OutboxEntry
failure_entry input payload_hash = record {
  aggregate_id = input.context.aggregate_id;
  event_type = adapter_failed;
  idempotency_key = input.context.idempotency_key;
  payload_hash = payload_hash;
  tenant_id = input.context.tenant_id;
}

-- An event for each kind of failure of an operation.
abbrev pub with_failure_event :
    FailureInput → JournalState → Result Text → Result (Unit {0}) × JournalState
with_failure_event input s (ok payload_hash) =
    (ok tt, record s { outbox = s.outbox ++ (failure_entry input payload_hash ∷ []) })
with_failure_event input s (err e) = (err e, s)

abbrev pub with_failure : FailureInput → JournalState → JournalState
with_failure input s = record s {
  records = fail_records input s.records (s.records (scope_key input.context));
  audit = s.audit ++ (unsuccessful (failed_entry input) ∷ []);
}

module _ (platform : Platform) where
  abbrev pub publish_failure : FailureInput → Bool → JournalState → Result (Unit {0}) × JournalState
  publish_failure input true s = (ok tt, s)
  publish_failure input false s =
      with_failure_event input (record s { failure_events = failure_key input ∷ s.failure_events })
        (canonical_hash platform (failure_json input))

  unfoldable pub record_failure : FailureInput → Action JournalState (Unit {0})
  record_failure input s =
      publish_failure input (text_mem (failure_key input) s.failure_events) (with_failure input s)
