-- ===== src/Settlement/Tests.antt =====
-- A settlement of 1000 against a principal of 900 with a reserve of 300, and the theorems about
-- the waterfall at this input.
use jejak.Prelude.{◌≡◌, refl, true, arith}
use jejak.Prelude.Int.{pos, ◌+ℤ◌, ◌-ℤ◌, ◌≤ℤ◌, min_ℤ}
use jejak.Prelude.Text.{codes, is_integer, bigint_of, Text}
use jejak.Shared.Errors.{ok, Returns}
use jejak.Shared.Json.{canonical_hash}
use jejak.Shared.Sample.{sample_platform, rupiah, rupiah-IsMoney, rupiah-SameUnit}
use jejak.Shared.Money.Amounts.{value}
use jejak.Settlement.Events.{maximum_minor_amount}
use jejak.Settlement.Waterfall.{Dues, WaterfallInput, divide_cash, result_json, calculate_waterfall}
use jejak.Settlement.Waterfall.Cash.{IsWaterfall, divide_cash_mono}
use jejak.Settlement.Waterfall.Allocation.{
  IsAmount, IsPayable, dues_of, shares_of, ClosesWith, calculate_waterfall_total,
  calculate_waterfall_correct, calculate_waterfall_principal,
}

abbrev run_input : WaterfallInput
run_input = record {
  final_settlement = true;
  financing_fee_due = rupiah (codes "40");
  position = record {
    claim_id = codes "c1";
    claim_key = codes "k1";
    first_loss_consumed = rupiah (codes "100");
    first_loss_funded = rupiah (codes "300");
    outstanding_principal = rupiah (codes "1200");
    state = codes "SETTLING";
  };
  servicing_fee_due = rupiah (codes "50");
  settlement = rupiah (codes "1000");
  settlement_event_id = codes "e1";
}

run_input-IsPayable : IsPayable run_input
unfolding is_integer bigint_of
run_input-IsPayable =
    let unit = codes "1200" in
    record {
      settlement = rupiah-SameUnit unit (codes "1000") refl refl;
      servicing = rupiah-SameUnit unit (codes "50") refl refl;
      financing = rupiah-SameUnit unit (codes "40") refl refl;
      funded = rupiah-SameUnit unit (codes "300") refl refl;
      consumed = rupiah-SameUnit unit (codes "100") refl refl;
      cash = amount (codes "1000") refl (omega arith) (omega arith);
      servicing_amount = amount (codes "50") refl (omega arith) (omega arith);
      financing_amount = amount (codes "40") refl (omega arith) (omega arith);
      outstanding_amount = amount unit refl (omega arith) (omega arith);
      funded_amount = amount (codes "300") refl (omega arith) (omega arith);
      consumed_amount = amount (codes "100") refl (omega arith) (omega arith);
      positive = omega arith;
      reserve = omega arith;
    }
  where
    amount :
        (t : Text)
        → is_integer t ≡ true
        → pos 0 ≤ℤ value (rupiah t)
        → value (rupiah t) ≤ℤ maximum_minor_amount
        → IsAmount (rupiah t)
    amount t i l h = record { money = rupiah-IsMoney t i; low = l; high = h }

abbrev dues : Dues
dues = record {
  settlement = pos 1000;
  servicing_due = pos 50;
  financing_due = pos 40;
  outstanding = pos 1200;
  first_loss_funded = pos 300;
  first_loss_consumed = pos 100;
}

-- All cash is used up by the servicing fee and the principal; the reserve bears 200, the lender 50.
divide_dues : divide_cash true dues ≡ record {
  servicing_paid = pos 50;
  principal_paid = pos 950;
  financing_paid = pos 0;
  seller_residual = pos 0;
  first_loss_applied = pos 200;
  senior_loss = pos 50;
}
unfolding divide_cash min_ℤ ◌-ℤ◌
divide_dues = refl

divide_cash_mono_example :
    let s = divide_cash true dues in
    let t = divide_cash true (record dues { settlement = pos 1300 }) in
    (s.servicing_paid ≤ℤ t.servicing_paid)
    × (s.principal_paid ≤ℤ t.principal_paid)
    × (s.financing_paid ≤ℤ t.financing_paid)
    × (s.seller_residual ≤ℤ t.seller_residual)
    × (t.senior_loss ≤ℤ s.senior_loss)
divide_cash_mono_example = divide_cash_mono true dues (pos 1300) (omega arith)

calculate_waterfall_total_example : Returns (calculate_waterfall sample_platform run_input)
calculate_waterfall_total_example =
    calculate_waterfall_total sample_platform run_input run_input-IsPayable

-- The allocation of the run.
abbrev run_result : Returns (calculate_waterfall sample_platform run_input)
run_result = calculate_waterfall_total sample_platform run_input run_input-IsPayable

calculate_waterfall_correct_example :
    IsPayable run_input
    × IsWaterfall true (dues_of run_input) (shares_of run_result.0)
    × ClosesWith true (value run_result.0.senior_loss) run_result.0.expected_claim_state
    × (canonical_hash sample_platform (result_json run_input.position run_result.0.base)
        ≡ ok run_result.0.result_hash)
calculate_waterfall_correct_example =
    calculate_waterfall_correct sample_platform run_input run_result.0 run_result.1

calculate_waterfall_principal_example :
    value run_result.0.principal_paid
      +ℤ value run_result.0.first_loss_applied
      +ℤ value run_result.0.senior_loss
    ≡ value (rupiah (codes "1200"))
calculate_waterfall_principal_example =
    calculate_waterfall_principal sample_platform run_input run_result.0 run_result.1 refl
