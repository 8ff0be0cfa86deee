-- ===== src/Risk/Tests.antt =====
-- An evaluation of 800 rupiah of a gross value of 1000, with an advance of 600, and the features of a
-- snapshot.
use jejak.Prelude.{◌≡◌, ◌≢◌, refl, true, false, none, arith, [], ◌∷◌}
use jejak.Prelude.Int.{pos, ◌+ℤ◌, ◌-ℤ◌, ◌*ℤ◌, ◌/ℤ◌}
use jejak.Prelude.Text.{
  Text, codes, text_eq, text_mem, is_integer, is_positive_integer, bigint_of, bigint_text,
  digits_value,
}
use jejak.Shared.Errors.{ok}
use jejak.Shared.Number.{int}
use jejak.Shared.Json.{Json, number, boolean, object, end, field}
use jejak.Shared.Hash.{sorted_hash, normalized_json, sort_keys}
use jejak.Shared.Sample.{sample_platform, rupiah}
use jejak.Shared.Money.{
  assert_money, same_money_unit, assert_same_money_unit, money_amount, with_money_amount,
  compare_amounts, compare_money, zero_money, is_currency, is_scale,
}
use jejak.Ingestion.Types.{MarketplaceEventType, refund, chargeback, CanonicalMarketplaceEvent}
use jejak.Risk.Features.{
  DecisionSnapshot, absolute, bps, sum_amounts, earliest_from, hash_features,
  build_risk_feature_snapshot,
}
use jejak.Risk.Features.Cutoff.{build_risk_feature_snapshot_cutoff}
use jejak.Risk.Evaluation.{
  RiskEvaluationRequest, RiskEvaluationResponse, TrustedRiskEvaluation, reason_codes, ends_with_z,
  check_money, trusted_evaluation, validate_risk_evaluation, build_risk_evaluation_request,
  assert_risk_request,
}
use jejak.Risk.Evaluation.Request.{validate_risk_evaluation_built}
use jejak.Risk.Evaluation.Trust.{
  IsAnswer, IsBounded, validate_risk_evaluation_bounds, validate_risk_evaluation_blocked,
}

abbrev request : RiskEvaluationRequest
request = record {
  request_id = codes "request";
  claim_id = codes "claim";
  claim_key = codes "key";
  seller_subject_hash = codes "seller";
  settlement_stream_id = codes "stream";
  data_snapshot_hash = codes "data";
  snapshot_cutoff_at = codes "2026Z";
  source_currency = codes "IDR";
  features = object (field (codes "accountHold") (boolean false) end);
  feature_snapshot_hash = codes "features";
  gross_unsettled = rupiah (codes "1000");
  policy_version = codes "1";
}

abbrev response : RiskEvaluationResponse
response = record {
  request_id = codes "request";
  claim_id = codes "claim";
  data_snapshot_hash = codes "data";
  policy_version = codes "1";
  evaluation_id = codes "evaluation";
  model_id = codes "model";
  model_version = codes "2";
  decision = codes "ELIGIBLE";
  sds_bps = int (pos 9000);
  expected_dilution_bps = int (pos 200);
  tail_dilution_bps = int (pos 800);
  eligible_settlement_value = rupiah (codes "800");
  max_advance_amount = rupiah (codes "600");
  reason_codes = codes "POLICY_LIMIT" ∷ [];
  feature_snapshot_hash = codes "features";
  evaluated_at = codes "2026Z";
}

abbrev trusted : TrustedRiskEvaluation
trusted = trusted_evaluation response true

trusted-computed : validate_risk_evaluation sample_platform request response true ≡ ok trusted
unfolding validate_risk_evaluation check_money reason_codes ends_with_z assert_money same_money_unit
    assert_same_money_unit money_amount with_money_amount compare_amounts compare_money zero_money
    is_currency is_scale is_integer is_positive_integer text_eq text_mem bigint_of bigint_text ◌-ℤ◌
trusted-computed = refl

validate_risk_evaluation_bounds_example :
    (trusted.response ≡ response)
    × IsAnswer request response
    × IsBounded (rupiah (codes "1000")) (rupiah (codes "800")) (rupiah (codes "600"))
validate_risk_evaluation_bounds_example =
    validate_risk_evaluation_bounds sample_platform request response true trusted trusted-computed

validate_risk_evaluation_blocked_example : trusted.effective_decision ≢ codes "ELIGIBLE"
validate_risk_evaluation_blocked_example =
    validate_risk_evaluation_blocked sample_platform request response true trusted trusted-computed
      refl

abbrev features_hash : Text
features_hash = codes "{accountHold:false}"

abbrev built : RiskEvaluationRequest
built = record request { feature_snapshot_hash = features_hash }

abbrev answer : RiskEvaluationResponse
answer = record response { feature_snapshot_hash = features_hash }

built-computed : build_risk_evaluation_request sample_platform request ≡ ok built
unfolding build_risk_evaluation_request sorted_hash normalized_json sort_keys
built-computed = refl

answer-computed :
    validate_risk_evaluation sample_platform built answer false
    ≡ ok (trusted_evaluation answer false)
unfolding validate_risk_evaluation check_money reason_codes ends_with_z assert_money same_money_unit
    assert_same_money_unit money_amount with_money_amount compare_amounts compare_money zero_money
    is_currency is_scale is_integer is_positive_integer text_eq text_mem bigint_of bigint_text ◌-ℤ◌
answer-computed = refl

validate_risk_evaluation_built_example :
    (sorted_hash sample_platform request.features ≡ ok answer.feature_snapshot_hash)
    × (assert_risk_request sample_platform built ≡ ok tt)
validate_risk_evaluation_built_example =
    validate_risk_evaluation_built sample_platform request built answer false
      (trusted_evaluation answer false) built-computed answer-computed

abbrev snapshot : DecisionSnapshot
snapshot = record {
  snapshot_cutoff_at = codes "20";
  gross_unsettled = rupiah (codes "1000");
  order_count = int (pos 1);
  data_quality_score_bps = int (pos 10000);
}

abbrev event_at : MarketplaceEventType → Text → Text → CanonicalMarketplaceEvent
event_at kind occurred_at amount = record {
  external_event_id = codes "event";
  event_type = kind;
  occurred_at = occurred_at;
  amount = rupiah amount;
  order_reference = none;
  payout_reference = none;
  source_status = none;
  source_row_hash = codes "row";
  source_row_number = 2;
}

abbrev early : CanonicalMarketplaceEvent
early = event_at refund (codes "10") (codes "-50")

abbrev late : CanonicalMarketplaceEvent
late = event_at chargeback (codes "30") (codes "700")

-- A refund of 50 of 1000 is 500 basis points.
abbrev features : Json
features = object (
    field (codes "missingPayoutHistory") (boolean true) (
      field (codes "refundRateBps") (number (int (pos 500))) (
        field (codes "rtoRateBps") (number (int (pos 0))) (
          field (codes "chargebackRateBps") (number (int (pos 0))) (
            field (codes "accountHold") (boolean false) (
              field (codes "dataQualityScoreBps") (number (int (pos 10000))) (
                field (codes "orderCount") (number (int (pos 1)))
                  (field (codes "sellerTenureDays") (number (int (pos 0))) end))))))))

features-computed :
    build_risk_feature_snapshot sample_platform int snapshot (early ∷ [])
    ≡ hash_features sample_platform int features
unfolding build_risk_feature_snapshot sum_amounts absolute bps earliest_from assert_money
    money_amount is_currency is_scale is_integer is_positive_integer text_eq bigint_of digits_value
    ◌+ℤ◌ ◌-ℤ◌ ◌*ℤ◌ ◌/ℤ◌
features-computed = refl

build_risk_feature_snapshot_cutoff_example :
    build_risk_feature_snapshot sample_platform int snapshot (early ∷ late ∷ [])
    ≡ build_risk_feature_snapshot sample_platform int snapshot (early ∷ [])
unfolding digits_value
build_risk_feature_snapshot_cutoff_example =
    build_risk_feature_snapshot_cutoff sample_platform int snapshot (early ∷ []) [] late (pos 20)
      (pos 30) refl refl (omega arith)
