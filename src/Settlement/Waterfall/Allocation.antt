-- ===== src/Settlement/Waterfall/Allocation.antt =====
-- `calculateWaterfall` as a whole (apps/api/src/modules/settlement/domain/settlement.ts): the inputs
-- that it accepts, and the division of cash that it returns for them.
use jejak.Prelude.{zero, suc, ◌≡◌, refl, ap, ◌∙◌, ◌⊎◌, inl, inr, Bool, true, false, arith}
use jejak.Prelude.Int.{ℤ, pos, negsuc, ◌+ℤ◌, ◌-ℤ◌, ◌≤ℤ◌, ◌<ℤ◌, ltb_ℤ}
use jejak.Shared.Errors.{ok, throw_if, >>=-eq-ok, >>-eq-ok, Returns, >>=-Returns}
use jejak.Shared.Json.{Platform, canonical_hash}
use jejak.Shared.Json.Totality.{
  is_finite, is_encodable, optional_text-encodable, canonical_hash-total,
}
use jejak.Shared.Number.{Number, int, fraction, infinite, nan, int_eq}
use jejak.Shared.Money.{
  MoneyValue, is_scale, assert_same_money_unit, money_amount, with_money_amount,
}
use jejak.Shared.Money.Amounts.{
  int_eq_refl, IsMoney, SameUnit, value, assert_money-cases, assert_money-ok, money_amount-ok,
  assert_same_money_unit-ok, assert_same_money_unit-SameUnit, value-with_money_amount,
}
use jejak.Settlement.Events.{invalid, nonnegative, bounded_amount, maximum_minor_amount}
use jejak.Settlement.Waterfall.{
  Dues, Shares, divide_cash, expected_state, WaterfallInput, WaterfallAllocation, read_dues,
  WaterfallBase, ExpectedState, settling, repaid, shortfall, waterfall_base, is_conserved,
  result_json, calculate_waterfall,
}
use jejak.Settlement.Waterfall.Cash.{
  IsDue, IsWaterfall, divide_cash-conserved, divide_cash-IsWaterfall, divide_cash_principal,
}

-- An amount that the settlement module accepts as not negative.
pub record IsAmount (m : MoneyValue) : Type 0 where
  pub money : IsMoney m
  pub low : pos 0 ≤ℤ value m
  pub high : value m ≤ℤ maximum_minor_amount

nonnegative-ok : (m : MoneyValue) → IsAmount m → nonnegative m ≡ ok (value m)
unfolding nonnegative bounded_amount ◌-ℤ◌
nonnegative-ok m h = ground (arith, money_amount-ok m h.money)

nonnegative-cases : (m : MoneyValue) (z : ℤ) → nonnegative m ≡ ok z → IsAmount m × (z ≡ value m)
unfolding nonnegative bounded_amount money_amount ◌-ℤ◌
nonnegative-cases m z e = elim (assert_money-cases m) [
  | inl h ↦
      let known = assert_money-ok m h in
      (record { money = h; low = ground arith; high = ground arith }, ground arith)
  | inr bad ↦ absurd (ground arith)
]

-- The dues that the moneys of an input stand for.
abbrev pub dues_of : WaterfallInput → Dues
dues_of i = record {
  settlement = value i.settlement;
  servicing_due = value i.servicing_fee_due;
  financing_due = value i.financing_fee_due;
  outstanding = value i.position.outstanding_principal;
  first_loss_funded = value i.position.first_loss_funded;
  first_loss_consumed = value i.position.first_loss_consumed;
}

-- What `calculateWaterfall` asks of its input: one unit, amounts in range and not negative, cash to
-- divide, and a reserve that is not overdrawn.
pub record IsPayable (i : WaterfallInput) : Type 0 where
  pub settlement : SameUnit i.position.outstanding_principal i.settlement
  pub servicing : SameUnit i.position.outstanding_principal i.servicing_fee_due
  pub financing : SameUnit i.position.outstanding_principal i.financing_fee_due
  pub funded : SameUnit i.position.outstanding_principal i.position.first_loss_funded
  pub consumed : SameUnit i.position.outstanding_principal i.position.first_loss_consumed
  pub cash : IsAmount i.settlement
  pub servicing_amount : IsAmount i.servicing_fee_due
  pub financing_amount : IsAmount i.financing_fee_due
  pub outstanding_amount : IsAmount i.position.outstanding_principal
  pub funded_amount : IsAmount i.position.first_loss_funded
  pub consumed_amount : IsAmount i.position.first_loss_consumed
  pub positive : pos 0 <ℤ value i.settlement
  pub reserve : value i.position.first_loss_consumed ≤ℤ value i.position.first_loss_funded

IsPayable-IsDue : (i : WaterfallInput) → IsPayable i → IsDue (dues_of i)
IsPayable-IsDue i h = record {
  settlement = h.positive;
  servicing = h.servicing_amount.low;
  financing = h.financing_amount.low;
  outstanding = h.outstanding_amount.low;
  consumed = h.consumed_amount.low;
  funded = h.reserve;
}

read_dues-ok : (i : WaterfallInput) → IsPayable i → read_dues i ≡ ok (dues_of i)
unfolding read_dues
read_dues-ok i h =
    rw
      (
        assert_same_money_unit-ok _ i.settlement h.settlement,
        assert_same_money_unit-ok _ i.servicing_fee_due h.servicing,
        assert_same_money_unit-ok _ i.financing_fee_due h.financing,
        assert_same_money_unit-ok _ i.position.first_loss_funded h.funded,
        assert_same_money_unit-ok _ i.position.first_loss_consumed h.consumed,
        nonnegative-ok i.settlement h.cash,
        nonnegative-ok i.servicing_fee_due h.servicing_amount,
        nonnegative-ok i.financing_fee_due h.financing_amount,
        nonnegative-ok i.position.outstanding_principal h.outstanding_amount,
        nonnegative-ok i.position.first_loss_funded h.funded_amount,
        nonnegative-ok i.position.first_loss_consumed h.consumed_amount,
      )
      (ground (arith, h.positive, h.reserve))

is_positive :
    (z v : ℤ) → pos 0 ≤ℤ v → z ≡ v → throw_if (int_eq z (pos 0)) invalid ≡ ok tt → pos 0 <ℤ v
is_positive z v low e h = ground arith

is_covered :
    (l c funded consumed : ℤ)
    → l ≡ funded
    → c ≡ consumed
    → throw_if (ltb_ℤ l c) invalid ≡ ok tt
    → consumed ≤ℤ funded
is_covered l c funded consumed p q h = ground arith

-- The accepted inputs are the payable ones.
read_dues-cases : (i : WaterfallInput) (d : Dues) → read_dues i ≡ ok d → IsPayable i
unfolding read_dues
read_dues-cases i d e =
    let p = i.position in
    let (u1, e1) = >>-eq-ok (assert_same_money_unit p.outstanding_principal i.settlement) _ e in
    let (u2, e2) =
      >>-eq-ok (assert_same_money_unit p.outstanding_principal i.servicing_fee_due) _ e1 in
    let (u3, e3) =
      >>-eq-ok (assert_same_money_unit p.outstanding_principal i.financing_fee_due) _ e2 in
    let (u4, e4) =
      >>-eq-ok (assert_same_money_unit p.outstanding_principal p.first_loss_funded) _ e3 in
    let (u5, e5) =
      >>-eq-ok (assert_same_money_unit p.outstanding_principal p.first_loss_consumed) _ e4 in
    let (cash, n1, e6) = >>=-eq-ok (nonnegative i.settlement) _ e5 in
    let (some_cash, e7) = >>-eq-ok (throw_if (int_eq cash (pos 0)) invalid) _ e6 in
    let (s, n2, e8) = >>=-eq-ok (nonnegative i.servicing_fee_due) _ e7 in
    let (f, n3, e9) = >>=-eq-ok (nonnegative i.financing_fee_due) _ e8 in
    let (o, n4, e10) = >>=-eq-ok (nonnegative p.outstanding_principal) _ e9 in
    let (l, n5, e11) = >>=-eq-ok (nonnegative p.first_loss_funded) _ e10 in
    let (c, n6, e12) = >>=-eq-ok (nonnegative p.first_loss_consumed) _ e11 in
    let (covered, e13) = >>-eq-ok (throw_if (ltb_ℤ l c) invalid) _ e12 in
    let cash_amount = nonnegative-cases i.settlement cash n1 in
    let funded_amount = nonnegative-cases p.first_loss_funded l n5 in
    let consumed_amount = nonnegative-cases p.first_loss_consumed c n6 in
    record {
      settlement = assert_same_money_unit-SameUnit _ _ u1;
      servicing = assert_same_money_unit-SameUnit _ _ u2;
      financing = assert_same_money_unit-SameUnit _ _ u3;
      funded = assert_same_money_unit-SameUnit _ _ u4;
      consumed = assert_same_money_unit-SameUnit _ _ u5;
      cash = cash_amount.0;
      servicing_amount = (nonnegative-cases i.servicing_fee_due s n2).0;
      financing_amount = (nonnegative-cases i.financing_fee_due f n3).0;
      outstanding_amount = (nonnegative-cases p.outstanding_principal o n4).0;
      funded_amount = funded_amount.0;
      consumed_amount = consumed_amount.0;
      positive = is_positive cash (value i.settlement) cash_amount.0.low cash_amount.1 some_cash;
      reserve = is_covered l c _ _ funded_amount.1 consumed_amount.1 covered;
    }

finite_scale : (n : Number) → is_scale n ≡ true → is_finite n ≡ true
unfolding is_scale
finite_scale (int n) h = refl
finite_scale (fraction n) h = cc
finite_scale (infinite s) h = cc
finite_scale nan h = cc

result_json-encodable :
    (i : WaterfallInput) (d : Dues) (s : Shares)
    → is_scale i.position.outstanding_principal.scale ≡ true
    → is_encodable (result_json i.position (waterfall_base i d s)) ≡ true
unfolding is_encodable waterfall_base with_money_amount
result_json-encodable i d s h =
    let unit = i.position.outstanding_principal in
    rw (finite_scale unit.scale h, optional_text-encodable unit.issuer)

is_conserved-divide_cash : (final : Bool) (d : Dues) → is_conserved d (divide_cash final d) ≡ true
is_conserved-divide_cash final d = rw (divide_cash-conserved final d) (int_eq_refl d.settlement)

-- A payable input gets an allocation: neither the check of cash conservation nor the hash fails.
pub calculate_waterfall_total :
    (platform : Platform) (i : WaterfallInput)
    → IsPayable i
    → Returns (calculate_waterfall platform i)
unfolding calculate_waterfall
calculate_waterfall_total platform i h =
    let d = dues_of i in
    let s = divide_cash i.final_settlement d in
    rw (read_dues-ok i h, is_conserved-divide_cash i.final_settlement d)
      (>>=-Returns (canonical_hash platform (result_json i.position (waterfall_base i d s))) _
        (canonical_hash-total platform _
          (result_json-encodable i d s h.outstanding_amount.money.scale))
        (λ t. (_, refl)))

-- The integers that an allocation's moneys stand for.
abbrev pub shares_of : WaterfallAllocation → Shares
shares_of a = record {
  servicing_paid = value a.servicing_fee_paid;
  principal_paid = value a.principal_paid;
  financing_paid = value a.financing_fee_paid;
  seller_residual = value a.seller_residual;
  first_loss_applied = value a.first_loss_applied;
  senior_loss = value a.senior_loss;
}

-- Any allocation is that of the cash division, and its hash is that of its content.
calculate_waterfall_inverse :
    (platform : Platform) (i : WaterfallInput) (a : WaterfallAllocation)
    → calculate_waterfall platform i ≡ ok a
    → IsPayable i
      × (a.base ≡ waterfall_base i (dues_of i) (divide_cash i.final_settlement (dues_of i)))
      × (canonical_hash platform (result_json i.position a.base) ≡ ok a.result_hash)
unfolding calculate_waterfall
calculate_waterfall_inverse platform i a e =
    let (d, r, e1) = >>=-eq-ok (read_dues i) _ e in
    let h = read_dues-cases i d r in
    let e2 =
      (rw (read_dues-ok i h, is_conserved-divide_cash i.final_settlement (dues_of i)) at e) in
    let (t, c, e3) = >>=-eq-ok (canonical_hash platform _) _ e2 in
    (h, ground arith, ground (arith, c))

shares_of-divide_cash :
    (i : WaterfallInput) (a : WaterfallAllocation)
    → a.base ≡ waterfall_base i (dues_of i) (divide_cash i.final_settlement (dues_of i))
    → shares_of a ≡ divide_cash i.final_settlement (dues_of i)
unfolding waterfall_base
shares_of-divide_cash i a e = rw e (simp value-with_money_amount)

-- The state that the claim is expected to take, by what the settlement leaves open.
abbrev pub ClosesWith : Bool → ℤ → ExpectedState → Type 0
ClosesWith final loss state =
    ((final ≡ false) × (state ≡ settling))
    ⊎ ((final ≡ true) × (loss ≡ pos 0) × (state ≡ repaid))
    ⊎ ((final ≡ true) × (pos 0 <ℤ loss) × (state ≡ shortfall))

expected_state-ClosesWith :
    (final : Bool) (loss : ℤ) → pos 0 ≤ℤ loss → ClosesWith final loss (expected_state final loss)
unfolding expected_state
expected_state-ClosesWith false loss h = inl (refl, refl)
expected_state-ClosesWith true (pos zero) h = inr (inl (refl, refl, refl))
expected_state-ClosesWith true (pos (suc n)) h = inr (inr (refl, omega arith, ground arith))
expected_state-ClosesWith true (negsuc n) h = absurd (omega arith)

-- Where the waterfall returns an allocation, the input is payable, and the moneys of the allocation
-- divide the cash in the order of the claims on it, no unit being lost; the claim's expected state
-- follows from finality and the senior loss, and the hash is that of the allocation's content.
pub calculate_waterfall_correct :
    (platform : Platform) (i : WaterfallInput) (a : WaterfallAllocation)
    → calculate_waterfall platform i ≡ ok a
    → IsPayable i
      × IsWaterfall i.final_settlement (dues_of i) (shares_of a)
      × ClosesWith i.final_settlement (value a.senior_loss) a.expected_claim_state
      × (canonical_hash platform (result_json i.position a.base) ≡ ok a.result_hash)
unfolding waterfall_base
calculate_waterfall_correct platform i a e =
    let (h, b, c) = calculate_waterfall_inverse platform i a e in
    let s = shares_of-divide_cash i a b in
    let w = divide_cash-IsWaterfall i.final_settlement (dues_of i) (IsPayable-IsDue i h) in
    let loss : value a.senior_loss ≡ (divide_cash i.final_settlement (dues_of i)).senior_loss =
      ap (λ (x : Shares). x.senior_loss) s in
    (
      h,
      rw s w,
      rw (ap (λ (x : WaterfallBase). x.expected_claim_state) b, loss)
          (expected_state-ClosesWith i.final_settlement _ w.senior),
      c,
    )

-- After a final settlement the principal is paid, borne by the reserve or lost to the senior
-- lender, to the last unit.
pub calculate_waterfall_principal :
    (platform : Platform) (i : WaterfallInput) (a : WaterfallAllocation)
    → calculate_waterfall platform i ≡ ok a
    → i.final_settlement ≡ true
    → value a.principal_paid +ℤ value a.first_loss_applied +ℤ value a.senior_loss
      ≡ value i.position.outstanding_principal
calculate_waterfall_principal platform i a e f =
    let (h, b, c) = calculate_waterfall_inverse platform i a e in
    let s = shares_of-divide_cash i a b in
    let t : shares_of a ≡ divide_cash true (dues_of i) = rw (← f) s in
    let total = λ (x : Shares). x.principal_paid +ℤ x.first_loss_applied +ℤ x.senior_loss in
    ap total t ∙ divide_cash_principal (dues_of i)
