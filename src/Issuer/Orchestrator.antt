-- ===== src/Issuer/Orchestrator.antt =====
-- apps/api/src/modules/issuer/application/orchestrate-issuer-approval.ts:
-- `IssuerApprovalOrchestrator`. The partner, the journal and the pause between two attempts are
-- parameters. The loop is recursion on the number of attempts that are left, at most five.
pub mod Attempts
pub mod Decided
pub mod Memory
use jejak.Prelude.{ℕ, zero, suc, ◌+◌, ◌-◌, Bool, true, false, not, Option, none, some}
use jejak.Prelude.Int.{pos}
use jejak.Prelude.Text.{Text, codes, text_eq}
use jejak.Shared.Errors.{
  Result, Error, ok, err, throw_if, issuer, conflict, PartnerErrorClass, transport, rejected,
}
use jejak.Shared.Number.{Number, int, fraction, infinite, nan, integer_between}
use jejak.Shared.Action.{Action, ◌>>=◌, ◌>>◌, give, throw, lift}
use jejak.Shared.Json.{Json, Fields, string, object, end, field, Platform, canonical_hash}
use jejak.Issuer.Receipt.{
  IssuerApprovalRequest, IssuerApprovalReceipt, is_sandbox, issuer_request_hash,
  validate_issuer_receipt,
}
use jejak.Issuer.Ports.{
  IssuerOperationContext, IssuerApprovalPort, IssuerOperationJournal, IssuerResolution, direct,
  reconciled, BeginIssuerDecision, started, resumed, replayed, failed, conflicting, AttemptStatus,
  success, retryable_failure, terminal_failure, is_retryable_class, as_issuer_adapter_error,
  BeginInput, CommitInput, AttemptInput, FailureInput,
}

abbrev pub key_json : IssuerOperationContext → Json
key_json c = object (
    field (codes "aggregateId") (string c.aggregate_id) (
      field (codes "correlationId") (string c.correlation_id) (
        field (codes "idempotencyKey") (string c.idempotency_key) (
          field (codes "operationId") (string c.operation_id)
            (field (codes "tenantId") (string c.tenant_id) end)))))

abbrev pub request_of : IssuerOperationContext → Text → IssuerApprovalRequest
request_of c key = record {
  correlation_id = c.correlation_id;
  partner_idempotency_key = key;
  requested_at = c.requested_at;
  tenant_id = c.tenant_id;
  transaction = c.transaction;
}

-- The transaction is about another claim than the command.
abbrev pub is_other : IssuerOperationContext → Bool
is_other c = not (text_eq c.transaction.claim_id c.aggregate_id)

-- What the attempts of one command have in common.
pub record Command : Type 0 where
  pub context : IssuerOperationContext
  pub request : IssuerApprovalRequest
  pub request_hash : Text
  pub operation_record_id : Text

abbrev pub commit_input : Command → IssuerApprovalReceipt → IssuerResolution → CommitInput
commit_input c receipt resolution = record {
  context = c.context;
  operation_record_id = c.operation_record_id;
  partner_idempotency_key = c.request.partner_idempotency_key;
  receipt = receipt;
  resolution = resolution;
}

abbrev pub attempt_input : Command → ℕ → Option PartnerErrorClass → AttemptStatus → AttemptInput
attempt_input c attempt classification status = record {
  attempt = attempt;
  classification = classification;
  context = c.context;
  operation_record_id = c.operation_record_id;
  request_hash = c.request_hash;
  status = status;
}

abbrev pub failure_input : Command → PartnerErrorClass → Bool → FailureInput
failure_input c classification retryable = record {
  classification = classification;
  context = c.context;
  operation_record_id = c.operation_record_id;
  retryable = retryable;
}

-- `options.maxAttempts ?? 2`, where it is an integer from 1 to 5.
abbrev pub attempts_of : Number → ℕ
attempts_of (int (pos n)) = n
attempts_of _ = 0

abbrev pub or_two : Option Number → Number
or_two none = int (pos 2)
or_two (some n) = n

abbrev pub last_failure : Option PartnerErrorClass → PartnerErrorClass
last_failure none = transport
last_failure (some c) = c

abbrev pub failure_status : Bool → AttemptStatus
failure_status true = retryable_failure
failure_status false = terminal_failure

module _ {W : Type 0} (platform : Platform) (partner : IssuerApprovalPort W)
    (journal : IssuerOperationJournal W) (sleep : ℕ → Action W (Unit {0})) where
  -- The part of the `try` block whose errors are caught; the commit is returned, not awaited.
  unfoldable pub try_attempt : Command → ℕ → Action W IssuerApprovalReceipt
  try_attempt c attempt = do
    receipt ← partner.request_approval c.request
    lift (validate_issuer_receipt platform c.request receipt)
    journal.record_attempt (attempt_input c attempt none success)
    give receipt

  abbrev pub sleep_before : ℕ → ℕ → Action W (Unit {0})
  sleep_before zero attempt = give tt
  sleep_before (suc remaining) attempt = sleep attempt

  -- A failure that no other attempt can mend.
  abbrev pub unless_terminal : Command → PartnerErrorClass → Bool → Action W (Unit {0})
  unless_terminal c class true = give tt
  unless_terminal c class false = do
    journal.record_failure (failure_input c class false)
    throw (issuer class)

  -- The `catch` block.
  unfoldable pub catch_attempt : Command → ℕ → ℕ → PartnerErrorClass → Action W (Unit {0})
  catch_attempt c attempt remaining class = do
    journal.record_attempt
        (attempt_input c attempt (some class) (failure_status (is_retryable_class class)))
    unless_terminal c class (is_retryable_class class)
    sleep_before remaining attempt

  abbrev pub commit_or_fail :
      Command
      → Option PartnerErrorClass
      → Option IssuerApprovalReceipt
      → Action W IssuerApprovalReceipt
  commit_or_fail c last none = do
    journal.record_failure (failure_input c (last_failure last) true)
    throw (issuer (last_failure last))
  commit_or_fail c last (some receipt) = do
    lift (validate_issuer_receipt platform c.request receipt)
    journal.commit_receipt (commit_input c receipt reconciled)

  -- What follows the loop.
  unfoldable pub reconcile : Command → Option PartnerErrorClass → Action W IssuerApprovalReceipt
  reconcile c last = do
    found ← partner.find_approval c.request.partner_idempotency_key
    commit_or_fail c last found

  abbrev pub after_attempt :
      Command
      → ℕ
      → ℕ
      → (Option PartnerErrorClass → Action W IssuerApprovalReceipt)
      → Result IssuerApprovalReceipt × W
      → Result IssuerApprovalReceipt × W
  after_attempt c attempt remaining next (ok receipt, w) =
      journal.commit_receipt (commit_input c receipt direct) w
  after_attempt c attempt remaining next (err e, w) =
      (catch_attempt c attempt remaining (as_issuer_adapter_error e)
          >> next (some (as_issuer_adapter_error e)))
        w

  -- The loop, with the attempts that are left and the number of the next one.
  unfoldable pub attempt_approval :
      Command → ℕ → ℕ → Option PartnerErrorClass → Action W IssuerApprovalReceipt
  attempt_approval c zero attempt last = reconcile c last
  attempt_approval c (suc remaining) attempt last = λ w.
      after_attempt c attempt remaining (attempt_approval c remaining (attempt + 1))
        (try_attempt c attempt w)

  unfoldable pub start_attempts : Command → Option Number → Action W IssuerApprovalReceipt
  start_attempts c max_attempts = do
    lift (throw_if (not (integer_between (pos 1) (pos 5) (or_two max_attempts))) (issuer rejected))
    attempt_approval c (attempts_of (or_two max_attempts)) 1 none

  abbrev pub command_of : IssuerOperationContext → IssuerApprovalRequest → Text → Text → Command
  command_of context request request_hash operation_record_id = record {
    context = context;
    request = request;
    request_hash = request_hash;
    operation_record_id = operation_record_id;
  }

  abbrev pub follow_decision :
      (Text → Command) → Option Number → BeginIssuerDecision → Action W IssuerApprovalReceipt
  follow_decision command max_attempts (started operation_record_id) =
      start_attempts (command operation_record_id) max_attempts
  follow_decision command max_attempts (resumed operation_record_id) =
      start_attempts (command operation_record_id) max_attempts
  follow_decision command max_attempts (replayed receipt) = give receipt
  follow_decision command max_attempts (failed class) = throw (issuer class)
  follow_decision command max_attempts conflicting = throw conflict

  abbrev pub begin_input : IssuerOperationContext → IssuerApprovalRequest → Text → BeginInput
  begin_input context request request_hash = record {
    context = context;
    partner_idempotency_key = request.partner_idempotency_key;
    request_hash = request_hash;
  }

  unfoldable pub execute_approval :
      IssuerOperationContext → Option Number → Action W IssuerApprovalReceipt
  execute_approval context max_attempts = do
    lift (throw_if (not (is_sandbox partner.mode)) (issuer rejected))
    lift (throw_if (is_other context) (issuer rejected))
    key ← lift (canonical_hash platform (key_json context))
    request_hash ← lift (issuer_request_hash platform (request_of context key))
    decision ← journal.begin (begin_input context (request_of context key) request_hash)
    follow_decision (command_of context (request_of context key) request_hash) max_attempts decision
