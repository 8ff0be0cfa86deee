-- ===== src/Issuer/Transaction.antt =====
-- apps/api/src/modules/issuer/domain/transaction.ts: the guards of a transaction and of its
-- revision, with the data of domain/types.ts.
pub mod Intent
use jejak.Prelude.{ℕ, Bool, true, false, not, ◌&&◌, ◌||◌, List, [], ◌∷◌}
use jejak.Prelude.Tests.{ltb}
use jejak.Prelude.Lists.{length, all}
use jejak.Prelude.Text.{Text, codes, text_eq, is_positive_integer, is_natural}
use jejak.Shared.Errors.{Result, ok, ◌>>=◌, ◌>>◌, throw_if, issuer, reconciliation_mismatch}
use jejak.Shared.Json.{Json, Fields, string, object, end, field, Platform, canonical_hash}
use jejak.Settlement.Events.{is_sha256}

pub data IssuerOperation : Type 0 where
  authorize_holder issue redeem : IssuerOperation

pub record IssuerTransactionPayload : Type 0 where
  pub amount_minor : Text
  pub asset_code : Text
  pub claim_id : Text
  pub destination : Text
  pub envelope_hash : Text
  pub network_passphrase : Text
  pub operation : IssuerOperation
  pub sequence : Text
  pub source : Text

abbrev pub operation_text : IssuerOperation → Text
operation_text authorize_holder = codes "AUTHORIZE_HOLDER"
operation_text issue = codes "ISSUE"
operation_text redeem = codes "REDEEM"

abbrev pub same_operation : IssuerOperation → IssuerOperation → Bool
same_operation authorize_holder authorize_holder = true
same_operation issue issue = true
same_operation redeem redeem = true
same_operation _ _ = false

-- `reject`, unless the test holds.
abbrev pub accept : Bool → Result (Unit {0})
accept b = throw_if (not b) (issuer reconciliation_mismatch)

-- `value.length < 1 || value.length > 256` does not hold.
abbrev pub is_name : Text → Bool
is_name t = not (ltb (length t) 1) && not (ltb 256 (length t))

abbrev pub names : IssuerTransactionPayload → List Text
names t = t.asset_code ∷ t.claim_id ∷ t.destination ∷ t.network_passphrase ∷ t.source ∷ []

abbrev pub all_names : List Text → Bool
all_names [] = true
all_names (t ∷ ts) = is_name t && all_names ts

unfoldable pub validate_issuer_transaction : IssuerTransactionPayload → Result (Unit {0})
validate_issuer_transaction transaction = do
  accept (is_positive_integer transaction.amount_minor)
  accept (is_natural transaction.sequence)
  accept (is_sha256 transaction.envelope_hash)
  accept (all_names (names transaction))

abbrev pub transaction_json : IssuerTransactionPayload → Json
transaction_json t = object (
    field (codes "amountMinor") (string t.amount_minor) (
      field (codes "assetCode") (string t.asset_code) (
        field (codes "claimId") (string t.claim_id) (
          field (codes "destination") (string t.destination) (
            field (codes "envelopeHash") (string t.envelope_hash) (
              field (codes "networkPassphrase") (string t.network_passphrase) (
                field (codes "operation") (string (operation_text t.operation)) (
                  field (codes "sequence") (string t.sequence)
                    (field (codes "source") (string t.source) end)))))))))

-- The fields that a revision must not change.
unfoldable pub same_intent : IssuerTransactionPayload → IssuerTransactionPayload → Bool
same_intent proposed revised =
    text_eq proposed.amount_minor revised.amount_minor
    && text_eq proposed.asset_code revised.asset_code
    && text_eq proposed.claim_id revised.claim_id
    && text_eq proposed.destination revised.destination
    && text_eq proposed.network_passphrase revised.network_passphrase
    && same_operation proposed.operation revised.operation
    && text_eq proposed.source revised.source

unfoldable pub validate_revised_issuer_transaction :
    IssuerTransactionPayload → IssuerTransactionPayload → Result (Unit {0})
validate_revised_issuer_transaction proposed revised = do
  validate_issuer_transaction proposed
  validate_issuer_transaction revised
  accept (same_intent proposed revised)
  accept (not (text_eq proposed.envelope_hash revised.envelope_hash))

module _ (platform : Platform) where
  unfoldable pub issuer_transaction_hash : IssuerTransactionPayload → Result Text
  issuer_transaction_hash transaction = do
    validate_issuer_transaction transaction
    canonical_hash platform (transaction_json transaction)
