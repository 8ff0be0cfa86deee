-- ===== src/Risk/Evaluation/Trust.antt =====
-- What a trusted evaluation guarantees (apps/api/src/modules/risk/domain/evaluation.ts).
use jejak.Prelude.{◌≡◌, ◌≢◌, refl, ap, inl, inr, Bool, true, arith}
use jejak.Prelude.Tests.{Bool-cases}
use jejak.Prelude.Int.{pos, ◌≤ℤ◌}
use jejak.Prelude.Text.{codes, text_eq, text_eq_iff}
use jejak.Shared.Errors.{Result, ok, err, >>-eq-ok}
use jejak.Shared.Json.{Platform}
use jejak.Shared.Money.{MoneyValue, assert_same_money_unit}
use jejak.Shared.Money.Amounts.{
  value, SameUnit, SameUnit-symm, SameUnit-trans, assert_same_money_unit-ok,
  assert_same_money_unit-SameUnit, zero_money-ok, compare_money-ok, with_money_amount-SameUnit,
  value-with_money_amount, is_greater-compare_amounts, is_less-compare_amounts,
}
use jejak.Risk.Evaluation.{
  RiskEvaluationRequest, RiskEvaluationResponse, TrustedRiskEvaluation, check_money,
  as_protocol_failure, same_identity, is_overridden, trusted_evaluation, validate_risk_evaluation,
}

-- The amounts of an evaluation: in one unit, and each within the one before it.
pub record IsBounded (gross eligible advance : MoneyValue) : Type 0 where
  pub eligible_unit : SameUnit gross eligible
  pub advance_unit : SameUnit gross advance
  pub eligible_natural : pos 0 ≤ℤ value eligible
  pub eligible_low : value eligible ≤ℤ value gross
  pub advance_natural : pos 0 ≤ℤ value advance
  pub advance_low : value advance ≤ℤ value eligible

check_money-units :
    (gross eligible advance : MoneyValue)
    → check_money gross eligible advance ≡ ok tt
    → SameUnit gross eligible × SameUnit gross advance
unfolding check_money
check_money-units gross eligible advance h =
    let (a, h1) = >>-eq-ok (assert_same_money_unit gross eligible) _ h in
    let (b, h2) = >>-eq-ok (assert_same_money_unit gross advance) _ h1 in
    (
      assert_same_money_unit-SameUnit gross eligible a,
      assert_same_money_unit-SameUnit gross advance b,
    )

check_money-IsBounded :
    (gross eligible advance : MoneyValue)
    → check_money gross eligible advance ≡ ok tt
    → IsBounded gross eligible advance
unfolding check_money
check_money-IsBounded gross eligible advance h =
    let (u, v) = check_money-units gross eligible advance h in
    let w = SameUnit-trans (SameUnit-symm v) u in
    let h' =
      (rw
        (
          assert_same_money_unit-ok gross eligible u,
          assert_same_money_unit-ok gross advance v,
          zero_money-ok eligible u.right,
          compare_money-ok eligible _ (with_money_amount-SameUnit eligible (pos 0) u.right),
          value-with_money_amount eligible (pos 0),
          is_less-compare_amounts (value eligible) (pos 0),
          compare_money-ok eligible gross (SameUnit-symm u),
          is_greater-compare_amounts (value eligible) (value gross),
          zero_money-ok advance v.right,
          compare_money-ok advance _ (with_money_amount-SameUnit advance (pos 0) v.right),
          value-with_money_amount advance (pos 0),
          is_less-compare_amounts (value advance) (pos 0),
          compare_money-ok advance eligible w,
          is_greater-compare_amounts (value advance) (value eligible),
        )
        at h) in
    record {
      eligible_unit = u;
      advance_unit = v;
      eligible_natural = ground arith;
      eligible_low = ground arith;
      advance_natural = ground arith;
      advance_low = ground arith;
    }

caught-ok : (m : Result (Unit {0})) → as_protocol_failure m ≡ ok tt → m ≡ ok tt
caught-ok (ok u) h = refl
caught-ok (err e) h = cc

-- The trusted evaluation is that of the request.
pub record IsAnswer (q : RiskEvaluationRequest) (r : RiskEvaluationResponse) : Type 0 where
  pub request_id : r.request_id ≡ q.request_id
  pub claim_id : r.claim_id ≡ q.claim_id
  pub snapshot : r.data_snapshot_hash ≡ q.data_snapshot_hash
  pub policy : r.policy_version ≡ q.policy_version
  pub features : r.feature_snapshot_hash ≡ q.feature_snapshot_hash
  pub currency : r.eligible_settlement_value.currency ≡ q.source_currency

review-not-eligible : text_eq (codes "REVIEW") (codes "ELIGIBLE") ≢ true
unfolding text_eq
review-not-eligible h = cc

module _ (platform : Platform) (q : RiskEvaluationRequest) (r : RiskEvaluationResponse)
    (blocks : Bool) (t : TrustedRiskEvaluation) where
  validate_risk_evaluation-trusted :
      validate_risk_evaluation platform q r blocks ≡ ok t
      → t ≡ trusted_evaluation r (is_overridden blocks r.decision)
  unfolding validate_risk_evaluation
  validate_risk_evaluation-trusted h = ground arith

  validate_risk_evaluation-tests :
      validate_risk_evaluation platform q r blocks ≡ ok t
      → (same_identity q r ≡ true)
        × (text_eq r.feature_snapshot_hash q.feature_snapshot_hash ≡ true)
        × (text_eq r.eligible_settlement_value.currency q.source_currency ≡ true)
        × (as_protocol_failure
              (check_money q.gross_unsettled r.eligible_settlement_value r.max_advance_amount)
            ≡ ok tt)
  unfolding validate_risk_evaluation
  validate_risk_evaluation-tests h = (ground arith, ground arith, ground arith, ground arith)

  -- An evaluation that is trusted answers the request and its policy; its amounts are in the unit
  -- of the gross value, with the eligible value between zero and the gross value and the advance
  -- between zero and the eligible value.
  pub validate_risk_evaluation_bounds :
      validate_risk_evaluation platform q r blocks ≡ ok t
      → (t.response ≡ r)
        × IsAnswer q r
        × IsBounded q.gross_unsettled r.eligible_settlement_value r.max_advance_amount
  validate_risk_evaluation_bounds h =
      let (a, b, i, g) = validate_risk_evaluation-tests h in
      (
        ap (λ e. e.response) (validate_risk_evaluation-trusted h),
        record {
          request_id = ground (arith, text_eq_iff r.request_id q.request_id);
          claim_id = ground (arith, text_eq_iff r.claim_id q.claim_id);
          snapshot = ground (arith, text_eq_iff r.data_snapshot_hash q.data_snapshot_hash);
          policy = ground (arith, text_eq_iff r.policy_version q.policy_version);
          features = (text_eq_iff r.feature_snapshot_hash q.feature_snapshot_hash).0 b;
          currency = (text_eq_iff r.eligible_settlement_value.currency q.source_currency).0 i;
        },
        check_money-IsBounded _ _ _ (caught-ok _ g),
      )

  -- While automation is blocked no evaluation is trusted to be eligible.
  pub validate_risk_evaluation_blocked :
      validate_risk_evaluation platform q r blocks ≡ ok t
      → blocks ≡ true
      → t.effective_decision ≢ codes "ELIGIBLE"
  validate_risk_evaluation_blocked h b e =
      let k : text_eq t.effective_decision (codes "ELIGIBLE") ≡ true =
        (text_eq_iff t.effective_decision (codes "ELIGIBLE")).1 e in
      let k' = (rw (validate_risk_evaluation-trusted h, b) at k) in
      elim (Bool-cases (text_eq r.decision (codes "ELIGIBLE"))) [
        | inl y ↦ review-not-eligible (rw (y) at k')
        | inr n ↦ cc
      ]
