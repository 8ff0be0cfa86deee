-- ===== src/Settlement/Waterfall.antt =====
-- apps/api/src/modules/settlement/domain/settlement.ts, `calculateWaterfall`: the cash of a
-- settlement pays the servicing fee, the principal, the financing fee and the seller, in this
-- order; the reserve and then the senior lender bear what principal is left unpaid.
pub mod Cash
pub mod Allocation
use jejak.Prelude.{Bool, true, false, not, ◌&&◌}
use jejak.Prelude.Tests.{if◌then◌else◌}
use jejak.Prelude.Int.{ℤ, pos, ◌+ℤ◌, ◌-ℤ◌, min_ℤ, ltb_ℤ}
use jejak.Prelude.Text.{Text, codes}
use jejak.Shared.Errors.{Result, ok, ◌>>=◌, ◌>>◌, throw_if, settlement, settlement_mismatch}
use jejak.Shared.Number.{int_eq}
use jejak.Shared.Json.{Json, Fields, boolean, string, object, end, field, Platform, canonical_hash}
use jejak.Shared.Money.{MoneyValue, assert_same_money_unit, with_money_amount, money_json}
use jejak.Settlement.Events.{invalid, nonnegative}

pub record WaterfallPosition : Type 0 where
  pub claim_id : Text
  pub claim_key : Text
  pub first_loss_consumed : MoneyValue
  pub first_loss_funded : MoneyValue
  pub outstanding_principal : MoneyValue
  pub state : Text

pub data ExpectedState : Type 0 where
  repaid settling shortfall : ExpectedState

abbrev pub state_text : ExpectedState → Text
state_text repaid = codes "REPAID"
state_text settling = codes "SETTLING"
state_text shortfall = codes "SHORTFALL"

pub record WaterfallBase : Type 0 where
  pub expected_claim_state : ExpectedState
  pub final_settlement : Bool
  pub financing_fee_due : MoneyValue
  pub financing_fee_paid : MoneyValue
  pub first_loss_applied : MoneyValue
  pub input_settlement : MoneyValue
  pub principal_paid : MoneyValue
  pub seller_residual : MoneyValue
  pub senior_loss : MoneyValue
  pub servicing_fee_due : MoneyValue
  pub servicing_fee_paid : MoneyValue
  pub settlement_event_id : Text

-- `WaterfallAllocation`: the base and its hash.
pub record WaterfallAllocation : Type 0 where
  pub base : WaterfallBase
  pub open base use *
  pub result_hash : Text

pub record WaterfallInput : Type 0 where
  pub final_settlement : Bool
  pub financing_fee_due : MoneyValue
  pub position : WaterfallPosition
  pub servicing_fee_due : MoneyValue
  pub settlement : MoneyValue
  pub settlement_event_id : Text

-- The amounts that go in, read from the input, and those that come out.
pub record Dues : Type 0 where
  pub settlement : ℤ
  pub servicing_due : ℤ
  pub financing_due : ℤ
  pub outstanding : ℤ
  pub first_loss_funded : ℤ
  pub first_loss_consumed : ℤ

pub record Shares : Type 0 where
  pub servicing_paid : ℤ
  pub principal_paid : ℤ
  pub financing_paid : ℤ
  pub seller_residual : ℤ
  pub first_loss_applied : ℤ
  pub senior_loss : ℤ

unfoldable pub divide_cash : Bool → Dues → Shares
divide_cash final dues =
    let servicing_paid = min_ℤ dues.settlement dues.servicing_due in
    let after_servicing = dues.settlement -ℤ servicing_paid in
    let principal_paid = min_ℤ after_servicing dues.outstanding in
    let after_principal = after_servicing -ℤ principal_paid in
    let financing_paid = min_ℤ after_principal dues.financing_due in
    let seller_residual = after_principal -ℤ financing_paid in
    let principal_gap = dues.outstanding -ℤ principal_paid in
    let first_loss_applied =
      min_ℤ principal_gap (dues.first_loss_funded -ℤ dues.first_loss_consumed) in
    let remaining_senior_exposure = principal_gap -ℤ first_loss_applied in
    record {
      servicing_paid = servicing_paid;
      principal_paid = principal_paid;
      financing_paid = financing_paid;
      seller_residual = seller_residual;
      first_loss_applied = first_loss_applied;
      senior_loss = if final then remaining_senior_exposure else pos 0;
    }

unfoldable pub expected_state : Bool → ℤ → ExpectedState
expected_state final senior_loss =
    if final then (if ltb_ℤ (pos 0) senior_loss then shortfall else repaid) else settling

-- The checks and the reading of the amounts.
unfoldable pub read_dues : WaterfallInput → Result Dues
read_dues input = do
  let unit = input.position.outstanding_principal
  assert_same_money_unit unit input.settlement
  assert_same_money_unit unit input.servicing_fee_due
  assert_same_money_unit unit input.financing_fee_due
  assert_same_money_unit unit input.position.first_loss_funded
  assert_same_money_unit unit input.position.first_loss_consumed
  cash ← nonnegative input.settlement
  throw_if (int_eq cash (pos 0)) invalid
  servicing_due ← nonnegative input.servicing_fee_due
  financing_due ← nonnegative input.financing_fee_due
  outstanding ← nonnegative input.position.outstanding_principal
  first_loss_funded ← nonnegative input.position.first_loss_funded
  first_loss_consumed ← nonnegative input.position.first_loss_consumed
  throw_if (ltb_ℤ first_loss_funded first_loss_consumed) invalid
  ok (record {
    settlement = cash;
    servicing_due = servicing_due;
    financing_due = financing_due;
    outstanding = outstanding;
    first_loss_funded = first_loss_funded;
    first_loss_consumed = first_loss_consumed;
  })

-- The object `base` of the code.
unfoldable pub waterfall_base : WaterfallInput → Dues → Shares → WaterfallBase
waterfall_base input dues shares =
    let unit = input.position.outstanding_principal in
    record {
      expected_claim_state = expected_state input.final_settlement shares.senior_loss;
      final_settlement = input.final_settlement;
      financing_fee_due = with_money_amount unit dues.financing_due;
      financing_fee_paid = with_money_amount unit shares.financing_paid;
      first_loss_applied = with_money_amount unit shares.first_loss_applied;
      input_settlement = with_money_amount unit dues.settlement;
      principal_paid = with_money_amount unit shares.principal_paid;
      seller_residual = with_money_amount unit shares.seller_residual;
      senior_loss = with_money_amount unit shares.senior_loss;
      servicing_fee_due = with_money_amount unit dues.servicing_due;
      servicing_fee_paid = with_money_amount unit shares.servicing_paid;
      settlement_event_id = input.settlement_event_id;
    }

abbrev pub base_json : WaterfallBase → Json
base_json b = object (
    field (codes "expectedClaimState") (string (state_text b.expected_claim_state)) (
      field (codes "finalSettlement") (boolean b.final_settlement) (
        field (codes "financingFeeDue") (money_json b.financing_fee_due) (
          field (codes "financingFeePaid") (money_json b.financing_fee_paid) (
            field (codes "firstLossApplied") (money_json b.first_loss_applied) (
              field (codes "inputSettlement") (money_json b.input_settlement) (
                field (codes "principalPaid") (money_json b.principal_paid) (
                  field (codes "sellerResidual") (money_json b.seller_residual) (
                    field (codes "seniorLoss") (money_json b.senior_loss) (
                      field (codes "servicingFeeDue") (money_json b.servicing_fee_due) (
                        field (codes "servicingFeePaid") (money_json b.servicing_fee_paid) (
                          field (codes "settlementEventId") (string b.settlement_event_id)
                            end))))))))))))

-- What `resultHash` is the hash of.
abbrev pub result_json : WaterfallPosition → WaterfallBase → Json
result_json position base = object (
    field (codes "allocation") (base_json base) (
      field (codes "claimId") (string position.claim_id) (
        field (codes "claimKey") (string position.claim_key) (
          field (codes "firstLossConsumed") (string position.first_loss_consumed.amount_minor) (
            field (codes "firstLossFunded") (string position.first_loss_funded.amount_minor) (
              field (codes "outstandingPrincipal")
                (string position.outstanding_principal.amount_minor) end))))))

-- The check that cash is conserved.
abbrev pub is_conserved : Dues → Shares → Bool
is_conserved dues s =
    int_eq (s.servicing_paid +ℤ s.principal_paid +ℤ s.financing_paid +ℤ s.seller_residual)
      dues.settlement

module _ (platform : Platform) where
  unfoldable pub calculate_waterfall : WaterfallInput → Result WaterfallAllocation
  calculate_waterfall input = do
    dues ← read_dues input
    let shares = divide_cash input.final_settlement dues
    throw_if (not (is_conserved dues shares)) (settlement settlement_mismatch)
    let base = waterfall_base input dues shares
    result_hash ← canonical_hash platform (result_json input.position base)
    ok (record { base = base; result_hash = result_hash })
