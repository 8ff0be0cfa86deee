-- ===== src/Risk/Evaluation.antt =====
-- apps/api/src/modules/risk/domain/evaluation.ts: the request of an evaluation, its guards, and
-- `validateRiskEvaluation`, the guards of the answer of the risk service. The decision and the reason codes come from the service: they are texts, as
-- the guards read them.
pub mod Request
pub mod Trust
use jejak.Prelude.{Bool, true, false, not, ◌&&◌, ◌||◌, Option, none, some, List, [], ◌∷◌, ◌++◌, ◌-◌}
use jejak.Prelude.Tests.{ltb, if◌then◌else◌}
use jejak.Prelude.Int.{ℤ, pos}
use jejak.Prelude.Lists.{length}
use jejak.Prelude.Text.{Text, codes, text_eq, text_mem, unique}
use jejak.Shared.Errors.{
  Result, ok, err, ◌>>=◌, ◌>>◌, throw_if, domain_error, partner_rejected, validation_error,
}
use jejak.Shared.Number.{Number, integer_between}
use jejak.Shared.Json.{Json, Platform}
use jejak.Shared.Hash.{sorted_hash}
use jejak.Shared.Money.{
  MoneyValue, assert_same_money_unit, compare_money, zero_money, is_less, is_greater,
}

-- The features are a JSON value, as only their hash is looked at.
pub record RiskEvaluationRequest : Type 0 where
  pub request_id : Text
  pub claim_id : Text
  pub claim_key : Text
  pub seller_subject_hash : Text
  pub settlement_stream_id : Text
  pub data_snapshot_hash : Text
  pub snapshot_cutoff_at : Text
  pub source_currency : Text
  pub features : Json
  pub feature_snapshot_hash : Text
  pub gross_unsettled : MoneyValue
  pub policy_version : Text

pub record RiskEvaluationResponse : Type 0 where
  pub request_id : Text
  pub claim_id : Text
  pub data_snapshot_hash : Text
  pub policy_version : Text
  pub evaluation_id : Text
  pub model_id : Text
  pub model_version : Text
  pub decision : Text
  pub sds_bps : Number
  pub expected_dilution_bps : Number
  pub tail_dilution_bps : Number
  pub eligible_settlement_value : MoneyValue
  pub max_advance_amount : MoneyValue
  pub reason_codes : List Text
  pub feature_snapshot_hash : Text
  pub evaluated_at : Text

pub record TrustedRiskEvaluation : Type 0 where
  pub response : RiskEvaluationResponse
  pub effective_decision : Text
  pub effective_reason_codes : List Text

unfoldable pub reason_codes : List Text
reason_codes =
    codes "HIGH_REFUND_RATE"
    ∷ codes "HIGH_RTO_RATE"
    ∷ codes "CHARGEBACK_SPIKE"
    ∷ codes "ACCOUNT_HOLD"
    ∷ codes "MISSING_PAYOUT_HISTORY"
    ∷ codes "DATA_INCONSISTENT"
    ∷ codes "CONCENTRATION_HIGH"
    ∷ codes "STALE_SNAPSHOT"
    ∷ codes "CONTROL_NOT_VERIFIED"
    ∷ codes "POLICY_LIMIT"
    ∷ codes "MODEL_UNAVAILABLE"
    ∷ codes "MANUAL_REVIEW_REQUIRED"
    ∷ codes "SETTLEMENT_SHORTFALL"
    ∷ codes "PARTNER_UNAVAILABLE"
    ∷ []

abbrev pub decisions : List Text
decisions = codes "ELIGIBLE" ∷ codes "REVIEW" ∷ codes "INELIGIBLE" ∷ []

abbrev pub all_supported : List Text → Bool
all_supported [] = true
all_supported (c ∷ cs) = text_mem c reason_codes && all_supported cs

-- `buildRiskEvaluationRequest`; the hash of the input is not looked at.
unfoldable pub build_risk_evaluation_request :
    Platform → RiskEvaluationRequest → Result RiskEvaluationRequest
build_risk_evaluation_request platform input = do
  hash ← sorted_hash platform input.features
  ok (record input { feature_snapshot_hash = hash })

unfoldable pub assert_risk_request : Platform → RiskEvaluationRequest → Result (Unit {0})
assert_risk_request platform request = do
  throw_if (not (text_eq request.source_currency request.gross_unsettled.currency)) validation_error
  hash ← sorted_hash platform request.features
  throw_if (not (text_eq hash request.feature_snapshot_hash)) validation_error

-- `protocolFailure`, unless the test holds.
abbrev pub require : Bool → Result (Unit {0})
require b = throw_if (not b) (domain_error partner_rejected)

abbrev pub is_bps : Number → Bool
is_bps n = integer_between (pos 0) (pos 10000) n

-- `value.endsWith("Z")`
unfoldable pub ends_with_z : Text → Bool
ends_with_z [] = false
ends_with_z (c ∷ []) = text_eq (c ∷ []) (codes "Z")
ends_with_z (c ∷ d ∷ t) = ends_with_z (d ∷ t)

-- `Number.isNaN` of a date does not hold.
abbrev pub is_date : Option ℤ → Bool
is_date none = false
is_date (some t) = true

abbrev pub same_identity : RiskEvaluationRequest → RiskEvaluationResponse → Bool
same_identity request response =
    text_eq response.request_id request.request_id
    && text_eq response.claim_id request.claim_id
    && text_eq response.data_snapshot_hash request.data_snapshot_hash
    && text_eq response.policy_version request.policy_version

abbrev pub are_bps : RiskEvaluationResponse → Bool
are_bps response =
    is_bps response.sds_bps
    && is_bps response.expected_dilution_bps
    && is_bps response.tail_dilution_bps

-- The body of the `try` block. A comparison is made only where the ones before it did not fail.
unfoldable pub check_money : MoneyValue → MoneyValue → MoneyValue → Result (Unit {0})
check_money gross eligible advance = do
  assert_same_money_unit gross eligible
  assert_same_money_unit gross advance
  eligible_zero ← zero_money eligible
  eligible_sign ← compare_money eligible eligible_zero
  require (not (is_less eligible_sign))
  eligible_order ← compare_money eligible gross
  require (not (is_greater eligible_order))
  advance_zero ← zero_money advance
  advance_sign ← compare_money advance advance_zero
  require (not (is_less advance_sign))
  advance_order ← compare_money advance eligible
  require (not (is_greater advance_order))

-- The `catch` block: every error becomes a failure of the protocol.
abbrev pub as_protocol_failure : Result (Unit {0}) → Result (Unit {0})
as_protocol_failure (ok u) = ok u
as_protocol_failure (err e) = err (domain_error partner_rejected)

-- `options.blocksAutomation && response.decision === "ELIGIBLE"`
abbrev pub is_overridden : Bool → Text → Bool
is_overridden blocks decision = blocks && text_eq decision (codes "ELIGIBLE")

abbrev pub trusted_evaluation : RiskEvaluationResponse → Bool → TrustedRiskEvaluation
trusted_evaluation response overridden = record {
  response = response;
  effective_decision = if overridden then codes "REVIEW" else response.decision;
  effective_reason_codes =
      unique
        (response.reason_codes ++ (if overridden then codes "MANUAL_REVIEW_REQUIRED" ∷ [] else []));
}

unfoldable pub validate_risk_evaluation :
    Platform → RiskEvaluationRequest → RiskEvaluationResponse → Bool → Result TrustedRiskEvaluation
validate_risk_evaluation platform request response blocks_automation = do
  require (same_identity request response)
  require (text_eq response.feature_snapshot_hash request.feature_snapshot_hash)
  require (are_bps response)
  require (text_mem response.decision decisions)
  require (is_date (platform.date_value response.evaluated_at) && ends_with_z response.evaluated_at)
  require (all_supported response.reason_codes)
  as_protocol_failure (
      check_money request.gross_unsettled response.eligible_settlement_value
        response.max_advance_amount)
  require (text_eq response.eligible_settlement_value.currency request.source_currency)
  ok (trusted_evaluation response (is_overridden blocks_automation response.decision))
