-- ===== src/Issuer/Receipt/Approval.antt =====
-- What an approval of the issuer binds (apps/api/src/modules/issuer/domain/receipt.ts).
use jejak.Prelude.{◌≡◌, ◌≢◌, refl, ap, Bool, true, false, not, ◌&&◌, Option, none, some, arith}
use jejak.Prelude.Tests.{ltb}
use jejak.Prelude.Lists.{length}
use jejak.Prelude.Text.{Text, text_eq, text_eq_iff}
use jejak.Shared.Errors.{ok, >>=-eq-ok, >>-eq-ok}
use jejak.Shared.Json.{Platform, array, canonical_hash}
use jejak.Issuer.Transaction.{
  IssuerTransactionPayload, validate_revised_issuer_transaction, issuer_transaction_hash,
}
use jejak.Issuer.Transaction.Intent.{SameIntent, validate_revised_issuer_transaction_exact}
use jejak.Issuer.Receipt.{
  IssuerApprovalRequest, IssuerApprovalReceipt, Status, status_of, is_sandbox, is_date, is_text,
  is_none, require, expected_reasons, texts_json, issuer_request_hash, revision_outcome,
  declined_outcome, validate_outcome, validate_issuer_receipt,
}

module _ (platform : Platform) (request : IssuerApprovalRequest)
    (receipt : IssuerApprovalReceipt) where
  -- The receipt carries the hash of the transaction `t`.
  pub record Binds (t : IssuerTransactionPayload) : Type 0 where
    pub hash : Text
    pub hashed : issuer_transaction_hash platform t ≡ ok hash
    pub carried : receipt.approved_payload_hash ≡ some hash

  -- The receipt carries the hash of a revision of the proposed transaction.
  pub record BindsRevision : Type 0 where
    pub transaction : IssuerTransactionPayload
    pub revision : receipt.revised_transaction ≡ some transaction
    pub intent : SameIntent request.transaction transaction
    pub distinct : request.transaction.envelope_hash ≢ transaction.envelope_hash
    pub binds : Binds transaction

  -- What an approval of a status stands for.
  abbrev pub Approves : Status → Type 0
  Approves Status.approved = Binds request.transaction
  Approves Status.revised = BindsRevision
  Approves Status.pending = ⊥
  Approves Status.action_required = ⊥
  Approves Status.rejected = ⊥
  Approves Status.unsupported = ⊥

  is_text-some : (o : Option Text) (t : Text) → is_text o t ≡ true → o ≡ some t
  is_text-some none t h = cc
  is_text-some (some s) t h = ap some ((text_eq_iff s t).0 h)

  revision-BindsRevision :
      (o : Option IssuerTransactionPayload)
      → receipt.revised_transaction ≡ o
      → revision_outcome platform request receipt o ≡ ok tt
      → BindsRevision
  revision-BindsRevision none e h = cc
  revision-BindsRevision (some t) e h =
      let (a, h1) = >>-eq-ok (require (not (is_none receipt.revision_hash))) _ h in
      let (b, h2) = >>-eq-ok (validate_revised_issuer_transaction request.transaction t) _ h1 in
      let (hash, c, h3) = >>=-eq-ok (issuer_transaction_hash platform t) _ h2 in
      let (p, r, i, d) = (validate_revised_issuer_transaction_exact request.transaction t).0 b in
      let s : is_text receipt.approved_payload_hash hash ≡ true = ground arith in
      record {
        transaction = t;
        revision = e;
        intent = i;
        distinct = d;
        binds = record { hash = hash; hashed = c; carried = is_text-some _ hash s };
      }

  declined-refuses :
      (b : Bool) → declined_outcome platform receipt b ≡ ok tt → receipt.approved ≡ false
  declined-refuses b h = ground arith

  outcome-Approves :
      (s : Status)
      → validate_outcome platform request receipt s ≡ ok tt
      → receipt.approved ≡ true
      → Approves s
  unfolding validate_outcome
  outcome-Approves Status.approved h a =
      let (b, h1) = >>-eq-ok (require receipt.approved) _ h in
      let (hash, c, h2) = >>=-eq-ok (issuer_transaction_hash platform request.transaction) _ h1 in
      let (d, h3) = >>-eq-ok (require (is_text receipt.approved_payload_hash hash)) _ h2 in
      let s : is_text receipt.approved_payload_hash hash ≡ true = ground arith in
      record { hash = hash; hashed = c; carried = is_text-some _ hash s }
  outcome-Approves Status.revised h a =
      let (b, h1) = >>-eq-ok (require receipt.approved) _ h in
      revision-BindsRevision receipt.revised_transaction refl h1
  outcome-Approves Status.pending h a = let b = declined-refuses _ h in cc
  outcome-Approves Status.action_required h a = let b = declined-refuses _ h in cc
  outcome-Approves Status.rejected h a = let b = declined-refuses _ h in cc
  outcome-Approves Status.unsupported h a = cc

  -- A receipt that passes the guards and says that it is approved has the status APPROVED or REVISED.
  -- It carries the hash of the proposed transaction, or of a revision that has the same intent and
  -- another envelope.
  pub validate_issuer_receipt_approval :
      validate_issuer_receipt platform request receipt ≡ ok tt
      → receipt.approved ≡ true
      → Approves (status_of receipt.status)
  unfolding validate_issuer_receipt
  validate_issuer_receipt_approval h a =
      let (hash, b, h1) = >>=-eq-ok (issuer_request_hash platform request) _ h in
      let (c, h2) = >>-eq-ok (require (is_sandbox receipt.adapter_mode && receipt.sandbox)) _ h1 in
      let (d, h3) =
        >>-eq-ok
          (require (
            text_eq receipt.correlation_id request.correlation_id
            && text_eq receipt.request_hash hash))
          _ h2 in
      let (e, h4) =
        >>-eq-ok
          (require (
            is_date (platform.date_value receipt.decided_at)
            && not (ltb (length receipt.partner_reference) 16)))
          _ h3 in
      let (reasons, f, h5) = >>=-eq-ok (expected_reasons (status_of receipt.status)) _ h4 in
      let (rh, g, h6) =
        >>=-eq-ok (canonical_hash platform (array (texts_json receipt.reason_codes))) _ h5 in
      let (eh, i, h7) = >>=-eq-ok (canonical_hash platform (array (texts_json reasons))) _ h6 in
      let (j, h8) = >>-eq-ok (require (text_eq rh eh)) _ h7 in
      let (k, h9) =
        >>-eq-ok (validate_outcome platform request receipt (status_of receipt.status)) _ h8 in
      outcome-Approves (status_of receipt.status) k a
