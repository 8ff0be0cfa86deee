-- ===== src/Anchor/Orchestrator.antt =====
-- apps/api/src/modules/anchor/application/orchestrate-payout.ts: `AnchorPayoutOrchestrator`. The
-- partner, the journal and the pause between two attempts are parameters. The loop is recursion on
-- the number of attempts that are left, at most five.
pub mod Idempotency
use jejak.Prelude.{ℕ, zero, suc, ◌+◌, ◌-◌, Bool, true, false, not, Option, none, some}
use jejak.Prelude.Int.{pos}
use jejak.Prelude.Text.{Text, codes}
use jejak.Shared.Errors.{
  Result, Error, ok, err, throw_if, anchor, conflict, PartnerErrorClass, transport, rejected,
}
use jejak.Shared.Number.{Number, int, fraction, infinite, nan, integer_between}
use jejak.Shared.Action.{Action, ◌>>=◌, ◌>>◌, give, throw, lift}
use jejak.Shared.Json.{Json, Fields, string, object, end, field, Platform, canonical_hash}
use jejak.Anchor.Conversion.{AnchorSandboxConfig}
use jejak.Anchor.Payout.{
  AnchorPayoutContext, AnchorPayoutRequest, AnchorPayoutReceipt, AnchorPayoutPort,
  AnchorPayoutJournal, AnchorResolution, direct, reconciled, BeginPayoutDecision, started, resumed,
  replayed, failed, conflicting, AttemptStatus, success, retryable_failure, terminal_failure,
  is_retryable, as_anchor_error, BeginInput, CommitInput, AttemptInput, FailureInput,
}
use jejak.Anchor.Receipt.{is_sandbox, anchor_request_hash, validate_anchor_receipt}

abbrev pub key_json : AnchorPayoutContext → Json
key_json c = object (
    field (codes "aggregateId") (string c.aggregate_id) (
      field (codes "idempotencyKey") (string c.idempotency_key) (
        field (codes "operationId") (string c.operation_id)
          (field (codes "tenantId") (string c.tenant_id) end))))

abbrev pub request_of : AnchorPayoutContext → Text → AnchorPayoutRequest
request_of c key = record {
  aggregate_id = c.aggregate_id;
  partner_idempotency_key = key;
  requested_at = c.requested_at;
  source = c.source;
  tenant_id = c.tenant_id;
}

-- What the attempts of one command have in common.
pub record Command : Type 0 where
  pub context : AnchorPayoutContext
  pub request : AnchorPayoutRequest
  pub request_hash : Text
  pub operation_id : Text

abbrev pub commit_input : Command → AnchorPayoutReceipt → AnchorResolution → CommitInput
commit_input c receipt resolution = record {
  context = c.context;
  operation_id = c.operation_id;
  partner_idempotency_key = c.request.partner_idempotency_key;
  receipt = receipt;
  resolution = resolution;
}

abbrev pub attempt_input : Command → ℕ → Option PartnerErrorClass → AttemptStatus → AttemptInput
attempt_input c attempt classification status = record {
  attempt = attempt;
  classification = classification;
  context = c.context;
  operation_id = c.operation_id;
  request_hash = c.request_hash;
  status = status;
}

abbrev pub failure_input : Command → PartnerErrorClass → Bool → FailureInput
failure_input c classification retryable = record {
  classification = classification;
  context = c.context;
  operation_id = c.operation_id;
  retryable = retryable;
}

-- `options.maxAttempts ?? 2`, where it is an integer from 1 to 5.
abbrev pub attempts_of : Number → ℕ
attempts_of (int (pos n)) = n
attempts_of _ = 0

abbrev pub or_two : Option Number → Number
or_two none = int (pos 2)
or_two (some n) = n

abbrev pub last_failure : Option PartnerErrorClass → PartnerErrorClass
last_failure none = transport
last_failure (some c) = c

abbrev pub failure_status : Bool → AttemptStatus
failure_status true = retryable_failure
failure_status false = terminal_failure

module _ {W : Type 0} (platform : Platform) (partner : AnchorPayoutPort W)
    (journal : AnchorPayoutJournal W) (config : AnchorSandboxConfig)
    (sleep : ℕ → Action W (Unit {0})) where
  -- The part of the `try` block whose errors are caught; the commit is returned, not awaited.
  unfoldable pub try_attempt : Command → ℕ → Action W AnchorPayoutReceipt
  try_attempt c attempt = do
    receipt ← partner.request_payout c.request
    lift (validate_anchor_receipt platform c.request receipt config)
    journal.record_attempt (attempt_input c attempt none success)
    give receipt

  abbrev pub sleep_before : ℕ → ℕ → Action W (Unit {0})
  sleep_before zero attempt = give tt
  sleep_before (suc remaining) attempt = sleep attempt

  -- A failure that no other attempt can mend.
  abbrev pub unless_terminal : Command → PartnerErrorClass → Bool → Action W (Unit {0})
  unless_terminal c class true = give tt
  unless_terminal c class false = do
    journal.record_failure (failure_input c class false)
    throw (anchor class)

  -- The `catch` block.
  unfoldable pub catch_attempt : Command → ℕ → ℕ → PartnerErrorClass → Action W (Unit {0})
  catch_attempt c attempt remaining class = do
    journal.record_attempt
        (attempt_input c attempt (some class) (failure_status (is_retryable class)))
    unless_terminal c class (is_retryable class)
    sleep_before remaining attempt

  abbrev pub commit_or_fail :
      Command → Option PartnerErrorClass → Option AnchorPayoutReceipt → Action W AnchorPayoutReceipt
  commit_or_fail c last none = do
    journal.record_failure (failure_input c (last_failure last) true)
    throw (anchor (last_failure last))
  commit_or_fail c last (some receipt) = do
    lift (validate_anchor_receipt platform c.request receipt config)
    journal.commit_receipt (commit_input c receipt reconciled)

  -- What follows the loop.
  unfoldable pub reconcile : Command → Option PartnerErrorClass → Action W AnchorPayoutReceipt
  reconcile c last = do
    found ← partner.find_payout c.request.partner_idempotency_key
    commit_or_fail c last found

  abbrev pub after_attempt :
      Command
      → ℕ
      → ℕ
      → (Option PartnerErrorClass → Action W AnchorPayoutReceipt)
      → Result AnchorPayoutReceipt × W
      → Result AnchorPayoutReceipt × W
  after_attempt c attempt remaining next (ok receipt, w) =
      journal.commit_receipt (commit_input c receipt direct) w
  after_attempt c attempt remaining next (err e, w) =
      (catch_attempt c attempt remaining (as_anchor_error e) >> next (some (as_anchor_error e))) w

  -- The loop, with the attempts that are left and the number of the next one.
  unfoldable pub attempt_payout :
      Command → ℕ → ℕ → Option PartnerErrorClass → Action W AnchorPayoutReceipt
  attempt_payout c zero attempt last = reconcile c last
  attempt_payout c (suc remaining) attempt last = λ w.
      after_attempt c attempt remaining (attempt_payout c remaining (attempt + 1))
        (try_attempt c attempt w)

  unfoldable pub start_attempts : Command → Option Number → Action W AnchorPayoutReceipt
  start_attempts c max_attempts = do
    lift (throw_if (not (integer_between (pos 1) (pos 5) (or_two max_attempts))) (anchor rejected))
    attempt_payout c (attempts_of (or_two max_attempts)) 1 none

  abbrev pub command_of : AnchorPayoutContext → AnchorPayoutRequest → Text → Text → Command
  command_of context request request_hash operation_id = record {
    context = context;
    request = request;
    request_hash = request_hash;
    operation_id = operation_id;
  }

  abbrev pub follow_decision :
      (Text → Command) → Option Number → BeginPayoutDecision → Action W AnchorPayoutReceipt
  follow_decision command max_attempts (started operation_id) =
      start_attempts (command operation_id) max_attempts
  follow_decision command max_attempts (resumed operation_id) =
      start_attempts (command operation_id) max_attempts
  follow_decision command max_attempts (replayed receipt) = give receipt
  follow_decision command max_attempts (failed class) = throw (anchor class)
  follow_decision command max_attempts conflicting = throw conflict

  abbrev pub begin_input : AnchorPayoutContext → AnchorPayoutRequest → Text → BeginInput
  begin_input context request request_hash = record {
    context = context;
    partner_idempotency_key = request.partner_idempotency_key;
    request_hash = request_hash;
  }

  unfoldable pub execute_payout : AnchorPayoutContext → Option Number → Action W AnchorPayoutReceipt
  execute_payout context max_attempts = do
    lift (throw_if (not (is_sandbox partner.mode)) (anchor rejected))
    key ← lift (canonical_hash platform (key_json context))
    request_hash ← lift (anchor_request_hash platform (request_of context key))
    decision ← journal.begin (begin_input context (request_of context key) request_hash)
    follow_decision (command_of context (request_of context key) request_hash) max_attempts decision
