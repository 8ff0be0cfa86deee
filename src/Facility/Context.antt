-- ===== src/Facility/Context.antt =====
-- apps/api/src/modules/facility/application/build-funding-context.ts. The source of the facts is a
-- parameter.
use jejak.Prelude.{Bool, not, ◌||◌}
use jejak.Prelude.Text.{Text, text_eq}
use jejak.Shared.Errors.{throw_if, failure}
use jejak.Shared.Number.{Number}
use jejak.Shared.Action.{Action, ◌>>=◌, ◌>>◌, give, lift}
use jejak.Shared.Money.{MoneyValue}
use jejak.Issuer.Transaction.{IssuerTransactionPayload}
use jejak.Facility.Types.{FundingChainIntent, ChainMode, FundingSagaContext}

pub record FundingServerFacts : Type 0 where
  pub chain_intent : FundingChainIntent
  pub chain_mode : ChainMode
  pub claim_id : Text
  pub compensation_envelope_hash : Text
  pub facility_position_id : Text
  pub fund_envelope_hash : Text
  pub issue_envelope_hash : Text
  pub issuer_transaction : IssuerTransactionPayload
  pub network : Text
  pub operation_id : Text
  pub offer_id : Text
  pub tenant_id : Text

-- What `FundingFactsSource.load` is asked with.
pub record FactsQuery : Type 0 where
  pub actor_id : Text
  pub claim_id : Text
  pub expected_claim_version : Number
  pub idempotency_key : Text
  pub offer_id : Text
  pub tenant_id : Text

-- The actor of the route (`FacilityFundingRouteActor`) with the fields of the command.
pub record BuildInput : Type 0 where
  pub actor_id : Text
  pub correlation_id : Text
  pub idempotency_key : Text
  pub request_id : Text
  pub requested_at : Text
  pub tenant_id : Text
  pub claim_id : Text
  pub expected_claim_version : Number
  pub maximum_amount : MoneyValue
  pub offer_id : Text

abbrev pub facts_query : BuildInput → FactsQuery
facts_query input = record {
  actor_id = input.actor_id;
  claim_id = input.claim_id;
  expected_claim_version = input.expected_claim_version;
  idempotency_key = input.idempotency_key;
  offer_id = input.offer_id;
  tenant_id = input.tenant_id;
}

abbrev pub is_other : BuildInput → FundingServerFacts → Bool
is_other input facts =
    not (text_eq facts.claim_id input.claim_id)
    || not (text_eq facts.offer_id input.offer_id)
    || not (text_eq facts.tenant_id input.tenant_id)

-- The fields of the route, over which those of the facts are spread.
abbrev pub saga_context : BuildInput → FundingServerFacts → FundingSagaContext
saga_context input facts = record {
  actor_id = input.actor_id;
  chain_mode = facts.chain_mode;
  claim_id = facts.claim_id;
  compensation_envelope_hash = facts.compensation_envelope_hash;
  correlation_id = input.correlation_id;
  expected_claim_version = input.expected_claim_version;
  facility_position_id = facts.facility_position_id;
  fund_envelope_hash = facts.fund_envelope_hash;
  idempotency_key = input.idempotency_key;
  issue_envelope_hash = facts.issue_envelope_hash;
  issuer_transaction = facts.issuer_transaction;
  network = facts.network;
  offer_id = facts.offer_id;
  operation_id = facts.operation_id;
  request_id = input.request_id;
  requested_at = input.requested_at;
  source = input.maximum_amount;
  tenant_id = facts.tenant_id;
  chain_intent = facts.chain_intent;
}

module _ {W : Type 0} (load : FactsQuery → Action W FundingServerFacts) where
  unfoldable pub build : BuildInput → Action W FundingSagaContext
  unfolding text_eq
  build input = do
    facts ← load (facts_query input)
    lift (throw_if (is_other input facts) failure)
    lift (throw_if (not (text_eq facts.issuer_transaction.claim_id input.claim_id)) failure)
    give (saga_context input facts)
