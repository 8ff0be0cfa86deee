-- ===== src/Facility/Receipt.antt =====
-- apps/api/src/modules/facility/domain/chain-receipt.ts: the guards of an answer of the chain port.
-- `sandbox` is a Boolean by its type.
use jejak.Prelude.{Bool, true, false, not, ◌&&◌, Option, none, some, [], ◌∷◌}
use jejak.Prelude.Tests.{ltb, ◌==◌}
use jejak.Prelude.Lists.{length}
use jejak.Prelude.Int.{pos, negsuc}
use jejak.Prelude.Text.{Text, codes, text_eq}
use jejak.Shared.Errors.{Result, ◌>>=◌, ◌>>◌, throw_if, domain, partner_rejected}
use jejak.Shared.Number.{Number, int, fraction, infinite, nan}
use jejak.Shared.Json.{Json, string, number, boolean, object, undefined, Platform, canonical_hash}
use jejak.Shared.Money.{money_json}
use jejak.Facility.Types.{ChainActionRequest, ChainActionReceipt, action_text, same_action, entries}

abbrev pub request_json : ChainActionRequest → Json
request_json r = object (
    entries (
      (codes "action", string (action_text r.action))
      ∷ (codes "acceptedTermsHash", string r.accepted_terms_hash)
      ∷ (codes "assetControllerContractId", string r.asset_controller_contract_id)
      ∷ (codes "claimId", string r.claim_id)
      ∷ (codes "claimKey", string r.claim_key)
      ∷ (codes "envelopeHash", string r.envelope_hash)
      ∷ (codes "facilityContractId", string r.facility_contract_id)
      ∷ (codes "facilityHolder", string r.facility_holder)
      ∷ (codes "facilityId", string r.facility_id)
      ∷ (codes "facilityOperator", string r.facility_operator)
      ∷ (codes "facilityTreasury", string r.facility_treasury)
      ∷ (codes "firstLossAmountMinor", string r.first_loss_amount_minor)
      ∷ (codes "idempotencyKey", string r.idempotency_key)
      ∷ (codes "issuerOperator", string r.issuer_operator)
      ∷ (codes "network", string r.network)
      ∷ (codes "requestedAt", string r.requested_at)
      ∷ (codes "resultHash", string r.result_hash)
      ∷ (codes "sellerPayoutAccount", string r.seller_payout_account)
      ∷ (codes "source", money_json r.source)
      ∷ (codes "tenantId", string r.tenant_id)
      ∷ []))

abbrev optional_number : Option Number → Json
optional_number none = undefined
optional_number (some n) = number n

-- The receipt without its hash.
abbrev pub unsigned_json : ChainActionReceipt → Json
unsigned_json r = object (
    entries (
      (codes "action", string (action_text r.action))
      ∷ (codes "envelopeHash", string r.envelope_hash)
      ∷ (codes "ledgerSequence", optional_number r.ledger_sequence)
      ∷ (codes "network", string r.network)
      ∷ (codes "requestHash", string r.request_hash)
      ∷ (codes "sandbox", boolean r.sandbox)
      ∷ (codes "status", string r.status)
      ∷ (codes "transactionHash", string r.transaction_hash)
      ∷ []))

-- `Number.isInteger(n) && n >= 1`
abbrev is_positive_number : Number → Bool
is_positive_number (int (pos n)) = ltb 0 n
is_positive_number (int (negsuc n)) = false
is_positive_number (fraction n) = false
is_positive_number (infinite s) = false
is_positive_number nan = false

abbrev pub is_ledger_sequence : Option Number → Bool
is_ledger_sequence none = true
is_ledger_sequence (some n) = is_positive_number n

-- A FundingSagaError, unless the test holds.
abbrev require : Bool → Result (Unit {0})
require b = throw_if (not b) (domain partner_rejected false)

-- The tests before the one that hashes the receipt.
abbrev pub is_bound : ChainActionRequest → Text → ChainActionReceipt → Bool
is_bound request request_hash receipt =
    text_eq receipt.status (codes "SUBMITTED")
    && same_action receipt.action request.action
    && text_eq receipt.envelope_hash request.envelope_hash
    && text_eq receipt.network request.network
    && text_eq receipt.request_hash request_hash

module _ (platform : Platform) where
  unfoldable pub chain_action_request_hash : ChainActionRequest → Result Text
  unfolding canonical_hash
  chain_action_request_hash request = canonical_hash platform (request_json request)

  unfoldable pub validate_chain_action_receipt :
      ChainActionRequest → ChainActionReceipt → Result (Unit {0})
  unfolding chain_action_request_hash canonical_hash text_eq
  validate_chain_action_receipt request receipt = do
    request_hash ← chain_action_request_hash request
    require (is_bound request request_hash receipt)
    unsigned ← canonical_hash platform (unsigned_json receipt)
    require (text_eq receipt.receipt_hash unsigned)
    require (length receipt.transaction_hash == 64)
    require (is_ledger_sequence receipt.ledger_sequence)
