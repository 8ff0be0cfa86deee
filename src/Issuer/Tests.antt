-- ===== src/Issuer/Tests.antt =====
-- A transaction, a revision of its envelope that the issuer approves, and an issuer that has not
-- decided.
use jejak.Prelude.{ℕ, ◌+◌, ◌≡◌, ◌≢◌, ◌↔◌, refl, true, false, none, some, [], ◌∷◌}
use jejak.Prelude.Int.{pos}
use jejak.Prelude.Tests.{◌==◌, if◌then◌else◌}
use jejak.Prelude.Text.{Text, codes, text_eq, is_positive_integer, is_natural, decimal}
use jejak.Shared.Errors.{Result, ok, err, issuer, timeout}
use jejak.Shared.Number.{int}
use jejak.Shared.Action.{Action}
use jejak.Shared.Json.{Platform, canonical_json, canonical_hash, sort_entries, insert_entry}
use jejak.Shared.Sample.{sample_platform}
use jejak.Settlement.Events.{is_sha256}
use jejak.Issuer.Transaction.{
  IssuerTransactionPayload, issue, same_intent, validate_issuer_transaction,
  validate_revised_issuer_transaction, issuer_transaction_hash,
}
use jejak.Issuer.Transaction.Intent.{SameIntent, validate_revised_issuer_transaction_exact}
use jejak.Issuer.Receipt.{
  IssuerAdapterMode, IssuerApprovalRequest, IssuerApprovalReceipt, status_of, issuer_request_hash,
  issuer_receipt_hash, validate_outcome, validate_issuer_receipt,
}
use jejak.Anchor.Journal.{next_id, pad_start}
use jejak.Issuer.Ports.{
  IssuerOperationContext, IssuerApprovalPort, is_retryable_class, as_issuer_adapter_error,
}
use jejak.Issuer.Journal.{JournalState, initial_state, scope_key, set_record, begin, commit_receipt}
use jejak.Issuer.Journal.Failures.{record_attempt}
use jejak.Issuer.Orchestrator.{
  execute_approval, start_attempts, attempt_approval, try_attempt, catch_attempt,
}
use jejak.Issuer.Orchestrator.Decided.{approve_in_memory, approve_in_memory_again}
use jejak.Issuer.Receipt.Approval.{Approves, validate_issuer_receipt_approval}

abbrev transaction : Text → IssuerTransactionPayload
transaction envelope = record {
  amount_minor = codes "1000";
  asset_code = codes "CLAIM";
  claim_id = codes "claim";
  destination = codes "holder";
  envelope_hash = envelope;
  network_passphrase = codes "test";
  operation = issue;
  sequence = codes "7";
  source = codes "issuer";
}

abbrev first_envelope : Text
first_envelope = codes "00000000000000000000000000000000000000000000000000000000000000aa"

abbrev second_envelope : Text
second_envelope = codes "00000000000000000000000000000000000000000000000000000000000000bb"

validate_revised_issuer_transaction_exact_example :
    (validate_revised_issuer_transaction (transaction first_envelope) (transaction second_envelope)
      ≡ ok tt)
    ↔ ((validate_issuer_transaction (transaction first_envelope) ≡ ok tt)
        × (validate_issuer_transaction (transaction second_envelope) ≡ ok tt)
        × SameIntent (transaction first_envelope) (transaction second_envelope)
        × (first_envelope ≢ second_envelope))
validate_revised_issuer_transaction_exact_example =
    validate_revised_issuer_transaction_exact (transaction first_envelope)
      (transaction second_envelope)

abbrev platform : Platform
platform = record sample_platform { sha256 = λ t. codes "00" }

abbrev request : IssuerApprovalRequest
request = record {
  correlation_id = codes "correlation";
  partner_idempotency_key = codes "key";
  requested_at = codes "20260101";
  tenant_id = codes "tenant";
  transaction = transaction first_envelope;
}

abbrev receipt : IssuerApprovalReceipt
receipt = record {
  adapter_mode = IssuerAdapterMode.sandbox;
  approved = true;
  correlation_id = codes "correlation";
  decided_at = codes "20260102";
  partner_reference = codes "sandbox-reference-1";
  reason_codes = codes "SANDBOX_ISSUER_REVISED" ∷ [];
  receipt_hash = codes "00";
  request_hash = codes "00";
  sandbox = true;
  status = codes "REVISED";
  action = none;
  approved_payload_hash = some (codes "00");
  revised_transaction = some (transaction second_envelope);
  revision_hash = some (codes "00");
}

receipt-computed : validate_issuer_receipt platform request receipt ≡ ok tt
unfolding validate_issuer_receipt validate_outcome issuer_request_hash issuer_receipt_hash
    issuer_transaction_hash validate_issuer_transaction validate_revised_issuer_transaction
    same_intent is_sha256 is_positive_integer is_natural text_eq canonical_hash canonical_json
    sort_entries insert_entry
receipt-computed = refl

validate_issuer_receipt_approval_example :
    Approves platform request receipt (status_of (codes "REVISED"))
validate_issuer_receipt_approval_example =
    validate_issuer_receipt_approval platform request receipt receipt-computed refl

-- An issuer that has not decided yet; the world counts the times that it is asked.
abbrev pending_receipt : IssuerApprovalReceipt
pending_receipt = record receipt {
  approved = false;
  reason_codes = codes "SANDBOX_ISSUER_PENDING" ∷ [];
  status = codes "PENDING";
  approved_payload_hash = none;
  revised_transaction = none;
  revision_hash = none;
}

abbrev issuer_partner : IssuerApprovalPort ℕ
issuer_partner = record {
  mode = IssuerAdapterMode.sandbox;
  find_approval = λ key w. (ok none, w);
  request_approval =
      λ request w. (if w == 0 then err (issuer timeout) else ok pending_receipt, w + 1);
}

abbrev pause : ℕ → Action ℕ (Unit {0})
pause n w = (ok tt, w)

abbrev context : IssuerOperationContext
context = record {
  actor_id = codes "actor";
  aggregate_id = codes "claim";
  correlation_id = codes "correlation";
  idempotency_key = codes "saga:issuer";
  operation_id = codes "approve";
  request_id = codes "request";
  requested_at = codes "20260101";
  tenant_id = codes "tenant";
  transaction = transaction first_envelope;
}

abbrev asked : Result IssuerApprovalReceipt × (JournalState × ℕ)
asked = approve_in_memory platform issuer_partner pause context none (initial_state, 0)

asked-computed : asked ≡ (ok pending_receipt, (asked.1.0, 2))
unfolding execute_approval start_attempts attempt_approval try_attempt catch_attempt
    as_issuer_adapter_error is_retryable_class validate_issuer_receipt validate_outcome
    issuer_request_hash issuer_receipt_hash issuer_transaction_hash validate_issuer_transaction
    is_sha256 is_positive_integer is_natural text_eq begin commit_receipt record_attempt scope_key
    set_record next_id pad_start decimal canonical_hash canonical_json sort_entries insert_entry
asked-computed = refl

approve_in_memory_again_example :
    approve_in_memory platform issuer_partner pause context (some (int (pos 1))) (asked.1.0, 0)
    ≡ (ok pending_receipt, (asked.1.0, 0))
approve_in_memory_again_example =
    approve_in_memory_again platform issuer_partner pause context none (some (int (pos 1)))
      pending_receipt initial_state asked.1.0 0 2 0 asked-computed
