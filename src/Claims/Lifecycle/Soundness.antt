-- ===== src/Claims/Lifecycle/Soundness.antt =====
-- The amounts of a claim: what `createClaim` accepts, and the bounds that every command keeps
-- (apps/api/src/modules/claims/domain/lifecycle.ts).
use jejak.Prelude.{ℕ, ◌≤◌, ◌≡◌, refl, sym, ◌∙◌, ◌↔◌, false, arith}
use jejak.Prelude.{none}
use jejak.Prelude.Int.{pos, ◌≤ℤ◌, ltb_ℤ}
use jejak.Prelude.Text.{Text}
use jejak.Shared.Errors.{ok, ◌>>◌, throw_if, validation_error}
use jejak.Shared.Money.{with_money_amount}
use jejak.Shared.Money.Amounts.{
  SameUnit, SameUnit-symm, SameUnit-trans, value, assert_same_money_unit-ok,
  assert_same_money_unit-SameUnit, assert_same_money_unit-cases, with_money_amount-SameUnit,
  value-with_money_amount, compare_money-ok, zero_money-ok, is_less-compare_amounts,
  is_greater-compare_amounts,
}
use jejak.Claims.Lifecycle.{
  LifecycleClaim, ClaimTransition, CreateClaimInput, initial_claim, claim_created, create_claim,
  start_claim_analysis, RiskDecision, apply_risk_decision,
}

-- All amounts of a claim are in the unit of its gross value, it asks for no more than that value
-- and for nothing negative, and it is advanced no more than it asks for.
pub record IsSound (c : LifecycleClaim) : Type 0 where
  pub requested : SameUnit c.gross_unsettled c.requested_advance
  pub advance : SameUnit c.gross_unsettled c.advance_amount
  pub eligible : SameUnit c.gross_unsettled c.eligible_settlement_value
  pub outstanding : SameUnit c.gross_unsettled c.outstanding_principal
  pub nonnegative : pos 0 ≤ℤ value c.requested_advance
  pub covered : value c.requested_advance ≤ℤ value c.gross_unsettled
  pub capped : value c.advance_amount ≤ℤ value c.requested_advance
  pub versioned : 1 ≤ c.version
  pub currency : c.source_currency ≡ c.gross_unsettled.currency

-- What `createClaim` asks of its input.
pub record IsCreatable (i : CreateClaimInput) : Type 0 where
  pub free : i.snapshot_encumbered ≡ false
  pub unit : SameUnit i.gross_unsettled i.requested_advance
  pub nonnegative : pos 0 ≤ℤ value i.requested_advance
  pub covered : value i.requested_advance ≤ℤ value i.gross_unsettled

-- The transition that `createClaim` returns.
abbrev pub created : CreateClaimInput → ClaimTransition
created i = record {
  claim = initial_claim i (with_money_amount i.gross_unsettled (pos 0));
  event_type = claim_created;
  previous_state = none;
}

-- With a unit in common the comparisons of the code are those of the integers.
create_claim-tests :
    (i : CreateClaimInput)
    → i.snapshot_encumbered ≡ false
    → SameUnit i.gross_unsettled i.requested_advance
    → create_claim i ≡ (
        throw_if (ltb_ℤ (value i.requested_advance) (pos 0)) validation_error
        >> (throw_if (ltb_ℤ (value i.gross_unsettled) (value i.requested_advance)) validation_error
            >> ok (created i)))
unfolding create_claim
create_claim-tests i f u =
    let r = i.requested_advance in
    let zero = with_money_amount-SameUnit r (pos 0) u.right in
    rw (
      f,
      assert_same_money_unit-ok i.gross_unsettled r u,
      zero_money-ok r u.right,
      compare_money-ok r _ zero,
      value-with_money_amount r (pos 0),
      is_less-compare_amounts (value r) (pos 0),
      compare_money-ok r i.gross_unsettled (SameUnit-symm u),
      is_greater-compare_amounts (value r) (value i.gross_unsettled),
      zero_money-ok i.gross_unsettled u.left,
    )

create_claim-unit :
    (i : CreateClaimInput) (t : ClaimTransition)
    → create_claim i ≡ ok t
    → (i.snapshot_encumbered ≡ false) × SameUnit i.gross_unsettled i.requested_advance
unfolding create_claim
create_claim-unit i t e = ground (
  arith,
  assert_same_money_unit-SameUnit i.gross_unsettled i.requested_advance,
  assert_same_money_unit-cases i.gross_unsettled i.requested_advance,
)

-- `createClaim` accepts an input exactly if its snapshot is free, its two amounts are in one unit
-- and the requested advance lies between zero and the gross value; the transition is then that of
-- the new claim.
pub create_claim_exact :
    (i : CreateClaimInput) (t : ClaimTransition)
    → (create_claim i ≡ ok t) ↔ (IsCreatable i × (t ≡ created i))
create_claim_exact i t = (accepted, λ h. creatable h.0 h.1)
  where
    accepted : create_claim i ≡ ok t → IsCreatable i × (t ≡ created i)
    accepted e =
        let h = create_claim-unit i t e in
        let tests = sym (create_claim-tests i h.0 h.1) ∙ e in
        (
          record { free = h.0; unit = h.1; nonnegative = ground arith; covered = ground arith },
          ground arith,
        )

    creatable : IsCreatable i → t ≡ created i → create_claim i ≡ ok t
    creatable h e = create_claim-tests i h.free h.unit ∙ ground arith

pub created-IsSound : (i : CreateClaimInput) → IsCreatable i → IsSound (created i).claim
created-IsSound i h =
    let zero = with_money_amount-SameUnit i.gross_unsettled (pos 0) h.unit.left in
    record {
      requested = h.unit;
      advance = zero;
      eligible = zero;
      outstanding = zero;
      nonnegative = h.nonnegative;
      covered = h.covered;
      capped = rw (value-with_money_amount i.gross_unsettled (pos 0)) h.nonnegative;
      versioned = omega arith;
      currency = refl;
    }

pub start_claim_analysis-IsSound :
    (c : LifecycleClaim) (v : ℕ) (now : Text) (t : ClaimTransition)
    → IsSound c
    → start_claim_analysis c v now ≡ ok t
    → IsSound t.claim
unfolding start_claim_analysis
start_claim_analysis-IsSound c v now t h e = ground arith

apply_risk_decision-units :
    (c : LifecycleClaim) (d : RiskDecision) (t : ClaimTransition)
    → apply_risk_decision c d ≡ ok t
    → SameUnit c.gross_unsettled d.eligible_settlement_value
      × SameUnit c.gross_unsettled d.max_advance_amount
unfolding apply_risk_decision
apply_risk_decision-units c d t e = ground (
  arith,
  assert_same_money_unit-cases c.gross_unsettled d.eligible_settlement_value,
  assert_same_money_unit-cases c.gross_unsettled d.max_advance_amount,
)

-- The advance is the smaller of the two amounts, and it is in the unit of the claim.
pub apply_risk_decision-IsSound :
    (c : LifecycleClaim) (d : RiskDecision) (t : ClaimTransition)
    → IsSound c
    → apply_risk_decision c d ≡ ok t
    → IsSound t.claim
unfolding apply_risk_decision
apply_risk_decision-IsSound c d t h e =
    let u = apply_risk_decision-units c d t e in
    let m = d.max_advance_amount in
    ground (
      arith,
      compare_money-ok m c.requested_advance (SameUnit-trans (SameUnit-symm u.1) h.requested),
      is_greater-compare_amounts (value m) (value c.requested_advance),
    )
