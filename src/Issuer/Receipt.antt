-- ===== src/Issuer/Receipt.antt =====
-- apps/api/src/modules/issuer/domain/receipt.ts: the guards of an answer of the issuer, with the
-- data of domain/types.ts. The status comes from the partner: it is a text, as the guards read it;
-- the names that a JavaScript object inherits are not taken for statuses here.
pub mod Approval
use jejak.Prelude.{Bool, true, false, not, ◌&&◌, ◌||◌, Option, none, some, List, [], ◌∷◌}
use jejak.Prelude.Tests.{ltb, if◌then◌else◌}
use jejak.Prelude.Int.{ℤ}
use jejak.Prelude.Lists.{length}
use jejak.Prelude.Text.{Text, codes, text_eq}
use jejak.Shared.Errors.{
  Result, ok, err, ◌>>=◌, ◌>>◌, throw_if, PartnerErrorClass, issuer, reconciliation_mismatch,
}
use jejak.Shared.Json.{
  Json, Items, Fields, undefined, boolean, string, array, object, nil, cons, end, field, Platform,
  canonical_hash, optional_text,
}
use jejak.Issuer.Transaction.{
  IssuerTransactionPayload, validate_issuer_transaction, transaction_json,
  validate_revised_issuer_transaction, issuer_transaction_hash,
}

pub data IssuerAdapterMode : Type 0 where
  sandbox production : IssuerAdapterMode

pub record IssuerApprovalRequest : Type 0 where
  pub correlation_id : Text
  pub partner_idempotency_key : Text
  pub requested_at : Text
  pub tenant_id : Text
  pub transaction : IssuerTransactionPayload

pub record IssuerAction : Type 0 where
  pub code : Text
  pub reference : Text

pub record IssuerApprovalReceipt : Type 0 where
  pub adapter_mode : IssuerAdapterMode
  pub approved : Bool
  pub correlation_id : Text
  pub decided_at : Text
  pub partner_reference : Text
  pub reason_codes : List Text
  pub receipt_hash : Text
  pub request_hash : Text
  pub sandbox : Bool
  pub status : Text
  pub action : Option IssuerAction
  pub approved_payload_hash : Option Text
  pub revised_transaction : Option IssuerTransactionPayload
  pub revision_hash : Option Text

abbrev pub request_json : IssuerApprovalRequest → Json
request_json r = object (
    field (codes "correlationId") (string r.correlation_id) (
      field (codes "partnerIdempotencyKey") (string r.partner_idempotency_key) (
        field (codes "requestedAt") (string r.requested_at) (
          field (codes "tenantId") (string r.tenant_id)
            (field (codes "transaction") (transaction_json r.transaction) end)))))

abbrev pub mode_text : IssuerAdapterMode → Text
mode_text sandbox = codes "SANDBOX"
mode_text production = codes "PRODUCTION"

abbrev pub texts_json : List Text → Items
texts_json [] = nil
texts_json (t ∷ ts) = cons (string t) (texts_json ts)

abbrev pub action_json : Option IssuerAction → Json
action_json none = undefined
action_json (some a) =
    object
      (field (codes "code") (string a.code) (field (codes "reference") (string a.reference) end))

abbrev pub optional_transaction : Option IssuerTransactionPayload → Json
optional_transaction none = undefined
optional_transaction (some t) = transaction_json t

-- The receipt without its hash.
abbrev pub unsigned_json : IssuerApprovalReceipt → Json
unsigned_json r = object (
    field (codes "adapterMode") (string (mode_text r.adapter_mode)) (
      field (codes "approved") (boolean r.approved) (
        field (codes "correlationId") (string r.correlation_id) (
          field (codes "decidedAt") (string r.decided_at) (
            field (codes "partnerReference") (string r.partner_reference) (
              field (codes "reasonCodes") (array (texts_json r.reason_codes)) (
                field (codes "requestHash") (string r.request_hash) (
                  field (codes "sandbox") (boolean r.sandbox) (
                    field (codes "status") (string r.status) (
                      field (codes "action") (action_json r.action) (
                        field (codes "approvedPayloadHash") (optional_text r.approved_payload_hash)
                          (field (codes "revisedTransaction")
                            (optional_transaction r.revised_transaction)
                            (field (codes "revisionHash") (optional_text r.revision_hash)
                              end)))))))))))))

abbrev pub is_sandbox : IssuerAdapterMode → Bool
is_sandbox sandbox = true
is_sandbox production = false

abbrev pub is_date : Option ℤ → Bool
is_date none = false
is_date (some t) = true

abbrev pub is_none {ℓ} : {A : Type ℓ} → Option A → Bool
is_none none = true
is_none (some a) = false

abbrev pub is_text : Option Text → Text → Bool
is_text none t = false
is_text (some s) t = text_eq s t

-- `mismatch`, unless the test holds.
abbrev pub require : Bool → Result (Unit {0})
require b = throw_if (not b) (issuer reconciliation_mismatch)

-- The five statuses, each with the reason codes that are expected of it.
pub data Status : Type 0 where
  approved revised pending action_required rejected unsupported : Status

abbrev pub status_of : Text → Status
status_of t =
    if text_eq t (codes "APPROVED")
    then approved
    else if text_eq t (codes "REVISED")
    then revised
    else if text_eq t (codes "PENDING")
    then pending
    else if text_eq t (codes "ACTION_REQUIRED")
    then action_required
    else if text_eq t (codes "REJECTED")
    then Status.rejected
    else unsupported

abbrev pub expected_reasons : Status → Result (List Text)
expected_reasons approved = ok []
expected_reasons revised = ok (codes "SANDBOX_ISSUER_REVISED" ∷ [])
expected_reasons pending = ok (codes "SANDBOX_ISSUER_PENDING" ∷ [])
expected_reasons action_required = ok (codes "SANDBOX_ISSUER_ACTION_REQUIRED" ∷ [])
expected_reasons Status.rejected = ok (codes "SANDBOX_ISSUER_REJECTED" ∷ [])
expected_reasons unsupported = err (issuer reconciliation_mismatch)

abbrev pub is_action : Option IssuerAction → Bool
is_action none = false
is_action (some a) =
    text_eq a.code (codes "CONTACT_SANDBOX_ISSUER") && not (ltb (length a.reference) 8)

module _ (platform : Platform) where
  open platform use {date_value}

  unfoldable pub issuer_request_hash : IssuerApprovalRequest → Result Text
  issuer_request_hash request = do
    validate_issuer_transaction request.transaction
    throw_if
        (not (is_date (date_value request.requested_at)) || ltb (length request.correlation_id) 8)
        (issuer PartnerErrorClass.rejected)
    canonical_hash platform (request_json request)

  unfoldable pub issuer_receipt_hash : IssuerApprovalReceipt → Result Text
  issuer_receipt_hash receipt = canonical_hash platform (unsigned_json receipt)

  abbrev pub approved_outcome : IssuerApprovalRequest → IssuerApprovalReceipt → Result (Unit {0})
  approved_outcome request receipt = do
    require receipt.approved
    hash ← issuer_transaction_hash platform request.transaction
    require (is_text receipt.approved_payload_hash hash)
    require (is_none receipt.revised_transaction && is_none receipt.revision_hash)

  abbrev pub revision_outcome :
      IssuerApprovalRequest
      → IssuerApprovalReceipt
      → Option IssuerTransactionPayload
      → Result (Unit {0})
  revision_outcome request receipt none = err (issuer reconciliation_mismatch)
  revision_outcome request receipt (some other) = do
    require (not (is_none receipt.revision_hash))
    validate_revised_issuer_transaction request.transaction other
    hash ← issuer_transaction_hash platform other
    require (is_text receipt.revision_hash hash && is_text receipt.approved_payload_hash hash)

  abbrev pub declined_outcome : IssuerApprovalReceipt → Bool → Result (Unit {0})
  declined_outcome receipt action = do
    require (
        not receipt.approved
        && is_none receipt.approved_payload_hash
        && is_none receipt.revised_transaction)
    require action

  -- The outcome that the status stands for.
  unfoldable pub validate_outcome :
      IssuerApprovalRequest → IssuerApprovalReceipt → Status → Result (Unit {0})
  validate_outcome request receipt approved = approved_outcome request receipt
  validate_outcome request receipt revised = do
    require receipt.approved
    revision_outcome request receipt receipt.revised_transaction
  validate_outcome request receipt pending = declined_outcome receipt (is_none receipt.action)
  validate_outcome request receipt action_required =
      declined_outcome receipt (is_action receipt.action)
  validate_outcome request receipt Status.rejected =
      declined_outcome receipt (is_none receipt.action)
  validate_outcome request receipt unsupported = err (issuer reconciliation_mismatch)

  unfoldable pub validate_issuer_receipt :
      IssuerApprovalRequest → IssuerApprovalReceipt → Result (Unit {0})
  validate_issuer_receipt request receipt = do
    request_hash ← issuer_request_hash request
    require (is_sandbox receipt.adapter_mode && receipt.sandbox)
    require (
        text_eq receipt.correlation_id request.correlation_id
        && text_eq receipt.request_hash request_hash)
    require
        (is_date (date_value receipt.decided_at) && not (ltb (length receipt.partner_reference) 16))
    reasons ← expected_reasons (status_of receipt.status)
    reason_hash ← canonical_hash platform (array (texts_json receipt.reason_codes))
    expected_hash ← canonical_hash platform (array (texts_json reasons))
    require (text_eq reason_hash expected_hash)
    validate_outcome request receipt (status_of receipt.status)
    hash ← issuer_receipt_hash receipt
    require (text_eq receipt.receipt_hash hash)
