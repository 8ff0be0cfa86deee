-- ===== src/Risk/Evaluation/Request.antt =====
-- The request of an evaluation and the answer to it (apps/api/src/modules/risk/domain/evaluation.ts).
use jejak.Prelude.{◌≡◌, refl, sym, ap, ◌∙◌, Bool, arith}
use jejak.Prelude.Text.{text_eq_iff, text_eq_refl}
use jejak.Shared.Errors.{ok, >>=-eq-ok}
use jejak.Shared.Json.{Platform}
use jejak.Shared.Hash.{sorted_hash}
use jejak.Shared.Money.{MoneyValue, same_money_unit}
use jejak.Shared.Money.Amounts.{SameUnit}
use jejak.Risk.Evaluation.{
  RiskEvaluationRequest, RiskEvaluationResponse, TrustedRiskEvaluation,
  build_risk_evaluation_request, assert_risk_request, validate_risk_evaluation,
}
use jejak.Risk.Evaluation.Trust.{validate_risk_evaluation_bounds}

SameUnit-currency : (a b : MoneyValue) → SameUnit a b → a.currency ≡ b.currency
unfolding same_money_unit
SameUnit-currency a b u = let k = u.unit in ground (arith, text_eq_iff a.currency b.currency)

module _ (platform : Platform) (input q : RiskEvaluationRequest) where
  build-hash :
      build_risk_evaluation_request platform input ≡ ok q
      → (sorted_hash platform input.features ≡ ok q.feature_snapshot_hash)
        × (q.features ≡ input.features)
  unfolding build_risk_evaluation_request
  build-hash h = let (hash, e, k) = >>=-eq-ok (sorted_hash platform input.features) _ h in (cc, cc)

  assert-built :
      sorted_hash platform q.features ≡ ok q.feature_snapshot_hash
      → q.source_currency ≡ q.gross_unsettled.currency
      → assert_risk_request platform q ≡ ok tt
  unfolding assert_risk_request
  assert-built h e =
      rw
        (
          h,
          (text_eq_iff q.source_currency q.gross_unsettled.currency).1 e,
          text_eq_refl q.feature_snapshot_hash,
        )
        refl

  -- An evaluation that is trusted as the answer to a request that was built of an input bears the
  -- hash of the features of the input, and the request passes its guards.
  pub validate_risk_evaluation_built :
      (r : RiskEvaluationResponse) (blocks : Bool) (t : TrustedRiskEvaluation)
      → build_risk_evaluation_request platform input ≡ ok q
      → validate_risk_evaluation platform q r blocks ≡ ok t
      → (sorted_hash platform input.features ≡ ok t.response.feature_snapshot_hash)
        × (assert_risk_request platform q ≡ ok tt)
  validate_risk_evaluation_built r blocks t b v =
      let (hash, same) = build-hash b in
      let (e, a, bounds) = validate_risk_evaluation_bounds platform q r blocks t v in
      (
        hash ∙ ap ok (sym (ap (λ x. x.feature_snapshot_hash) e ∙ a.features)),
        assert-built (ap (sorted_hash platform) same ∙ hash)
            (sym a.currency ∙ sym (SameUnit-currency _ _ bounds.eligible_unit)),
      )
