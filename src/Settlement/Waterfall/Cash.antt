-- ===== src/Settlement/Waterfall/Cash.antt =====
-- The division of cash, on the integers (apps/api/src/modules/settlement/domain/settlement.ts).
use jejak.Prelude.{◌≡◌, refl, ◌⊎◌, inl, inr, Bool, true, false}
use jejak.Prelude.Int.{ℤ, pos, ◌+ℤ◌, ◌-ℤ◌, ◌≤ℤ◌, ◌<ℤ◌, min_ℤ, min_ℤ-cases, int_laws}
use jejak.Settlement.Waterfall.{Dues, Shares, divide_cash}

-- What the waterfall is run on: nothing negative, and no more consumed than funded.
pub record IsDue (d : Dues) : Type 0 where
  pub settlement : pos 0 <ℤ d.settlement
  pub servicing : pos 0 ≤ℤ d.servicing_due
  pub financing : pos 0 ≤ℤ d.financing_due
  pub outstanding : pos 0 ≤ℤ d.outstanding
  pub consumed : pos 0 ≤ℤ d.first_loss_consumed
  pub funded : d.first_loss_consumed ≤ℤ d.first_loss_funded

-- A correct division of the cash of `d` into `s`.
pub record IsWaterfall (final : Bool) (d : Dues) (s : Shares) : Type 0 where
  -- Every unit of cash goes somewhere, and no share is negative or above what is due.
  pub conserved :
      s.servicing_paid +ℤ s.principal_paid +ℤ s.financing_paid +ℤ s.seller_residual ≡ d.settlement
  pub servicing : (pos 0 ≤ℤ s.servicing_paid) × (s.servicing_paid ≤ℤ d.servicing_due)
  pub principal : (pos 0 ≤ℤ s.principal_paid) × (s.principal_paid ≤ℤ d.outstanding)
  pub financing : (pos 0 ≤ℤ s.financing_paid) × (s.financing_paid ≤ℤ d.financing_due)
  pub residual : pos 0 ≤ℤ s.seller_residual
  -- A later claim on the cash is paid only if the earlier ones are paid in full.
  pub principal_after : (s.servicing_paid ≡ d.servicing_due) ⊎ (s.principal_paid ≡ pos 0)
  pub financing_after : (s.principal_paid ≡ d.outstanding) ⊎ (s.financing_paid ≡ pos 0)
  pub residual_after : (s.financing_paid ≡ d.financing_due) ⊎ (s.seller_residual ≡ pos 0)
  -- The reserve bears the unpaid principal first, up to what is left of it.
  pub reserve :
      (pos 0 ≤ℤ s.first_loss_applied)
      × (s.first_loss_applied ≤ℤ d.first_loss_funded -ℤ d.first_loss_consumed)
  pub senior : pos 0 ≤ℤ s.senior_loss
  pub senior_after :
      (s.first_loss_applied ≡ d.first_loss_funded -ℤ d.first_loss_consumed)
      ⊎ (s.senior_loss ≡ pos 0)

pub divide_cash-conserved :
    (final : Bool) (d : Dues)
    → let s = divide_cash final d in
      s.servicing_paid +ℤ s.principal_paid +ℤ s.financing_paid +ℤ s.seller_residual ≡ d.settlement
unfolding divide_cash
divide_cash-conserved final d = omega int_laws

-- A claim that takes the smaller of the cash and its due leaves nothing, or is paid in full.
exhausted-or-paid :
    (cash due next : ℤ)
    → pos 0 ≤ℤ next
    → (min_ℤ cash due ≡ due) ⊎ (min_ℤ (cash -ℤ min_ℤ cash due) next ≡ pos 0)
exhausted-or-paid cash due next h = elim (min_ℤ-cases cash due) [
  | inl e ↦ inr (omega int_laws)
  | inr e ↦ inl e
]

residual-or-paid : (cash due : ℤ) → (min_ℤ cash due ≡ due) ⊎ (cash -ℤ min_ℤ cash due ≡ pos 0)
residual-or-paid cash due = elim (min_ℤ-cases cash due) [
  | inl e ↦ inr (omega int_laws)
  | inr e ↦ inl e
]

senior_nonneg : (final : Bool) (d : Dues) → IsDue d → pos 0 ≤ℤ (divide_cash final d).senior_loss
unfolding divide_cash
senior_nonneg true d h = omega int_laws
senior_nonneg false d h = omega int_laws

senior_last :
    (final : Bool) (d : Dues)
    → let s = divide_cash final d in
      (s.first_loss_applied ≡ d.first_loss_funded -ℤ d.first_loss_consumed)
      ⊎ (s.senior_loss ≡ pos 0)
unfolding divide_cash
senior_last true d = residual-or-paid _ (d.first_loss_funded -ℤ d.first_loss_consumed)
senior_last false d = inr refl

pub divide_cash-IsWaterfall :
    (final : Bool) (d : Dues) → IsDue d → IsWaterfall final d (divide_cash final d)
unfolding divide_cash
divide_cash-IsWaterfall final d h = record {
  conserved = divide_cash-conserved final d;
  servicing = omega int_laws;
  principal = omega int_laws;
  financing = omega int_laws;
  residual = omega int_laws;
  principal_after = exhausted-or-paid d.settlement d.servicing_due d.outstanding h.outstanding;
  financing_after = exhausted-or-paid _ d.outstanding d.financing_due h.financing;
  residual_after = residual-or-paid _ d.financing_due;
  reserve = omega int_laws;
  senior = senior_nonneg final d h;
  senior_after = senior_last final d;
}

-- A final settlement accounts for all of the principal: it is paid, borne by the reserve, or lost
-- to the senior lender.
pub divide_cash_principal :
    (d : Dues)
    → let s = divide_cash true d in
      s.principal_paid +ℤ s.first_loss_applied +ℤ s.senior_loss ≡ d.outstanding
unfolding divide_cash
divide_cash_principal d = omega int_laws

-- More cash never lowers what any party is paid, nor raises the senior loss.
pub divide_cash_mono :
    (final : Bool) (d : Dues) (more : ℤ)
    → d.settlement ≤ℤ more
    → let s = divide_cash final d in
      let t = divide_cash final (record d { settlement = more }) in
      (s.servicing_paid ≤ℤ t.servicing_paid)
      × (s.principal_paid ≤ℤ t.principal_paid)
      × (s.financing_paid ≤ℤ t.financing_paid)
      × (s.seller_residual ≤ℤ t.seller_residual)
      × (t.senior_loss ≤ℤ s.senior_loss)
unfolding divide_cash
divide_cash_mono true d more h = omega int_laws
divide_cash_mono false d more h = omega int_laws
