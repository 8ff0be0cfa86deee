-- ===== src/Issuer/Transaction/Intent.antt =====
-- A revision keeps what the transaction is for
-- (apps/api/src/modules/issuer/domain/transaction.ts).
use jejak.Prelude.{◌≡◌, ◌≢◌, ◌↔◌, refl, true, false, arith}
use jejak.Prelude.Text.{text_eq, text_eq_iff}
use jejak.Shared.Errors.{ok, >>-eq-ok}
use jejak.Issuer.Transaction.{
  IssuerOperation, authorize_holder, issue, redeem, IssuerTransactionPayload, same_operation,
  same_intent, accept, validate_issuer_transaction, validate_revised_issuer_transaction,
}

-- The revision `r` has the intent of the proposal `p`.
pub record SameIntent (p r : IssuerTransactionPayload) : Type 0 where
  pub amount : p.amount_minor ≡ r.amount_minor
  pub asset : p.asset_code ≡ r.asset_code
  pub claim : p.claim_id ≡ r.claim_id
  pub destination : p.destination ≡ r.destination
  pub network : p.network_passphrase ≡ r.network_passphrase
  pub operation : p.operation ≡ r.operation
  pub source : p.source ≡ r.source

same_operation_iff : (a b : IssuerOperation) → (same_operation a b ≡ true) ↔ (a ≡ b)
same_operation_iff authorize_holder b = ground arith
same_operation_iff issue b = ground arith
same_operation_iff redeem b = ground arith

same_intent_iff : (p r : IssuerTransactionPayload) → (same_intent p r ≡ true) ↔ SameIntent p r
unfolding same_intent
same_intent_iff p r = (
  λ h. record {
    amount = ground (arith, text_eq_iff p.amount_minor r.amount_minor);
    asset = ground (arith, text_eq_iff p.asset_code r.asset_code);
    claim = ground (arith, text_eq_iff p.claim_id r.claim_id);
    destination = ground (arith, text_eq_iff p.destination r.destination);
    network = ground (arith, text_eq_iff p.network_passphrase r.network_passphrase);
    operation = ground (arith, same_operation_iff p.operation r.operation);
    source = ground (arith, text_eq_iff p.source r.source);
  },
  λ h.
      rw
        (
          (text_eq_iff p.amount_minor r.amount_minor).1 h.amount,
          (text_eq_iff p.asset_code r.asset_code).1 h.asset,
          (text_eq_iff p.claim_id r.claim_id).1 h.claim,
          (text_eq_iff p.destination r.destination).1 h.destination,
          (text_eq_iff p.network_passphrase r.network_passphrase).1 h.network,
          (same_operation_iff p.operation r.operation).1 h.operation,
          (text_eq_iff p.source r.source).1 h.source,
        )
        refl,
)

-- A revision is accepted exactly when it and the proposal are valid transactions with the same
-- intent and different envelopes.
pub validate_revised_issuer_transaction_exact :
    (p r : IssuerTransactionPayload)
    → (validate_revised_issuer_transaction p r ≡ ok tt) ↔ (
        (validate_issuer_transaction p ≡ ok tt)
        × (validate_issuer_transaction r ≡ ok tt)
        × SameIntent p r
        × (p.envelope_hash ≢ r.envelope_hash))
unfolding validate_revised_issuer_transaction
validate_revised_issuer_transaction_exact p r = (
  λ h.
      let (a, h1) = >>-eq-ok (validate_issuer_transaction p) _ h in
      let (b, h2) = >>-eq-ok (validate_issuer_transaction r) _ h1 in
      let (c, d) = >>-eq-ok (accept (same_intent p r)) _ h2 in
      let c' : same_intent p r ≡ true = ground arith in
      (
        a,
        b,
        (same_intent_iff p r).0 c',
        ground (arith, text_eq_iff p.envelope_hash r.envelope_hash),
      ),
  λ (a, b, c, d).
      let e : text_eq p.envelope_hash r.envelope_hash ≡ false =
        ground (arith, text_eq_iff p.envelope_hash r.envelope_hash) in
      rw (a, b, (same_intent_iff p r).1 c, e) refl,
)
