-- ===== src/Facility/Request.antt =====
-- apps/api/src/modules/facility/application/funding-saga.ts: the hash of a command, the contexts of
-- the partners and the request to the chain.
use jejak.Prelude.{[], ◌∷◌, ◌++◌}
use jejak.Prelude.Text.{Text, codes}
use jejak.Shared.Errors.{Result}
use jejak.Shared.Json.{Json, string, number, object, Platform, canonical_hash}
use jejak.Shared.Money.{money_json}
use jejak.Issuer.Transaction.{transaction_json}
use jejak.Issuer.Ports.{IssuerOperationContext}
use jejak.Anchor.Payout.{AnchorPayoutContext}
use jejak.Facility.Types.{
  FundingChainAction, FundingChainIntent, FundingSagaContext, ChainActionRequest, action_text,
  chain_mode_text, entries,
}

abbrev intent_json : FundingChainIntent → Json
intent_json i = object (
    entries (
      (codes "acceptedTermsHash", string i.accepted_terms_hash)
      ∷ (codes "assetControllerContractId", string i.asset_controller_contract_id)
      ∷ (codes "claimKey", string i.claim_key)
      ∷ (codes "controlEvidenceHash", string i.control_evidence_hash)
      ∷ (codes "controlEvidenceId", string i.control_evidence_id)
      ∷ (codes "facilityContractId", string i.facility_contract_id)
      ∷ (codes "facilityHolder", string i.facility_holder)
      ∷ (codes "facilityId", string i.facility_id)
      ∷ (codes "facilityOperator", string i.facility_operator)
      ∷ (codes "facilityTreasury", string i.facility_treasury)
      ∷ (codes "firstLossAmountMinor", string i.first_loss_amount_minor)
      ∷ (codes "attestationEnvelopeHash", string i.attestation_envelope_hash)
      ∷ (codes "attestationId", string i.attestation_id)
      ∷ (codes "issuerOperator", string i.issuer_operator)
      ∷ (codes "payoutReference", string i.payout_reference)
      ∷ (codes "resultHash", string i.result_hash)
      ∷ (codes "sellerPayoutAccount", string i.seller_payout_account)
      ∷ []))

-- The context without the ids of the request, its key and its time.
abbrev business_payload : FundingSagaContext → Json
business_payload c = object (
    entries (
      (codes "actorId", string c.actor_id)
      ∷ (codes "chainMode", string (chain_mode_text c.chain_mode))
      ∷ (codes "claimId", string c.claim_id)
      ∷ (codes "compensationEnvelopeHash", string c.compensation_envelope_hash)
      ∷ (codes "expectedClaimVersion", number c.expected_claim_version)
      ∷ (codes "facilityPositionId", string c.facility_position_id)
      ∷ (codes "fundEnvelopeHash", string c.fund_envelope_hash)
      ∷ (codes "issueEnvelopeHash", string c.issue_envelope_hash)
      ∷ (codes "issuerTransaction", transaction_json c.issuer_transaction)
      ∷ (codes "network", string c.network)
      ∷ (codes "offerId", string c.offer_id)
      ∷ (codes "operationId", string c.operation_id)
      ∷ (codes "source", money_json c.source)
      ∷ (codes "tenantId", string c.tenant_id)
      ∷ (codes "chainIntent", intent_json c.chain_intent)
      ∷ []))

unfoldable pub issuer_context : FundingSagaContext → IssuerOperationContext
issuer_context c = record {
  actor_id = c.actor_id;
  aggregate_id = c.claim_id;
  correlation_id = c.correlation_id;
  idempotency_key = c.idempotency_key ++ codes ":issuer";
  operation_id = codes "facilityFundingIssuerApproval";
  request_id = c.request_id;
  requested_at = c.requested_at;
  tenant_id = c.tenant_id;
  transaction = c.issuer_transaction;
}

unfoldable pub anchor_context : FundingSagaContext → Text → AnchorPayoutContext
anchor_context c operation_record_id = record {
  actor_id = c.actor_id;
  aggregate_id = c.claim_id;
  idempotency_key = c.idempotency_key ++ codes ":anchor";
  operation_id = codes "facilityFundingAnchor:" ++ operation_record_id;
  request_id = c.request_id;
  requested_at = c.requested_at;
  source = c.source;
  tenant_id = c.tenant_id;
}

abbrev pub chain_request :
    FundingSagaContext → FundingChainAction → Text → Text → ChainActionRequest
chain_request c action envelope_hash idempotency_key = record {
  action = action;
  accepted_terms_hash = c.chain_intent.accepted_terms_hash;
  asset_controller_contract_id = c.chain_intent.asset_controller_contract_id;
  claim_id = c.claim_id;
  claim_key = c.chain_intent.claim_key;
  envelope_hash = envelope_hash;
  facility_contract_id = c.chain_intent.facility_contract_id;
  facility_holder = c.chain_intent.facility_holder;
  facility_id = c.chain_intent.facility_id;
  facility_operator = c.chain_intent.facility_operator;
  facility_treasury = c.chain_intent.facility_treasury;
  first_loss_amount_minor = c.chain_intent.first_loss_amount_minor;
  idempotency_key = idempotency_key;
  issuer_operator = c.chain_intent.issuer_operator;
  network = c.network;
  requested_at = c.requested_at;
  result_hash = c.chain_intent.result_hash;
  seller_payout_account = c.chain_intent.seller_payout_account;
  source = c.source;
  tenant_id = c.tenant_id;
}

module _ (platform : Platform) where
  unfoldable pub funding_payload_hash : FundingSagaContext → Result Text
  unfolding canonical_hash
  funding_payload_hash context = canonical_hash platform (business_payload context)

  -- The keys of an action and of a compensation.
  unfoldable pub action_key : FundingSagaContext → Text → FundingChainAction → Result Text
  unfolding canonical_hash
  action_key c operation_record_id action = canonical_hash platform (
      object (
        entries (
          (codes "action", string (action_text action))
          ∷ (codes "claimId", string c.claim_id)
          ∷ (codes "operationRecordId", string operation_record_id)
          ∷ (codes "tenantId", string c.tenant_id)
          ∷ [])))

  unfoldable pub compensation_key : Text → Result Text
  unfolding canonical_hash
  compensation_key operation_record_id = canonical_hash platform (
      object (
        entries (
          (codes "action", string (codes "COMPENSATE"))
          ∷ (codes "operationRecordId", string operation_record_id)
          ∷ [])))
