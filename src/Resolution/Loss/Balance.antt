-- ===== src/Resolution/Loss/Balance.antt =====
-- The balance of a loss (apps/api/src/modules/resolution/domain/resolution.ts).
use jejak.Prelude.{◌≡◌, refl, ◌⊎◌, inl, inr, arith}
use jejak.Prelude.Int.{ℤ, pos, ◌+ℤ◌, ◌-ℤ◌, ◌≤ℤ◌, min_ℤ, min_ℤ-cases, int_laws}
use jejak.Prelude.Text.{Text, bigint_of, bigint_text_lem, natural_value}
use jejak.Shared.Errors.{Result, ok, ◌>>=◌, >>-eq-ok, throw_if, validation_error, throw_if-eq-ok}
use jejak.Resolution.Loss.{
  ResolutionMoney, LossAllocation, LossInput, assert_same_unit, nonnegative, money, allocate_loss,
}

abbrev pub value : ResolutionMoney → ℤ
value m = bigint_of m.amount_minor

value-money : (z : ℤ) (u : ResolutionMoney) → value (money z u) ≡ z
unfolding money
value-money z u = (bigint_text_lem z).1

nonnegative-ok :
    {B : Type 0} (t : Text) (f : ℤ → Result B) (b : B)
    → (nonnegative t >>= f) ≡ ok b
    → (pos 0 ≤ℤ bigint_of t) × (f (bigint_of t) ≡ ok b)
unfolding nonnegative
nonnegative-ok t f b e = ground (arith, natural_value t)

-- What is left after the reserve, of numbers.
split_loss :
    (o c r v : ℤ)
    → c +ℤ r ≤ℤ o
    → pos 0 ≤ℤ v
    → let f = min_ℤ (o -ℤ c -ℤ r) v in
      let l = o -ℤ c -ℤ r -ℤ f in
      (c +ℤ r +ℤ f +ℤ l ≡ o) × (pos 0 ≤ℤ f) × (f ≤ℤ v) × (pos 0 ≤ℤ l) × ((f ≡ v) ⊎ (l ≡ pos 0))
split_loss o c r v h h' = (
  omega int_laws,
  omega int_laws,
  omega int_laws,
  omega int_laws,
  elim (min_ℤ-cases (o -ℤ c -ℤ r) v) [ inl e ↦ inr (omega int_laws) | inr e ↦ inl e ],
)

pub record IsBalanced (i : LossInput) (a : LossAllocation) : Type 0 where
  pub total :
      value i.collectible +ℤ value i.recovery +ℤ value a.first_loss_applied +ℤ value a.final_loss
      ≡ value i.obligation
  pub applied_is_natural : pos 0 ≤ℤ value a.first_loss_applied
  pub applied_is_available : value a.first_loss_applied ≤ℤ value i.first_loss_available
  pub final_is_natural : pos 0 ≤ℤ value a.final_loss
  pub reserve_first :
      (value a.first_loss_applied ≡ value i.first_loss_available) ⊎ (value a.final_loss ≡ pos 0)
  pub senior : a.senior_loss ≡ a.final_loss

abbrev unresolved : LossInput → ℤ
unresolved i = value i.obligation -ℤ value i.collectible -ℤ value i.recovery

abbrev applied : LossInput → ℤ
applied i = min_ℤ (unresolved i) (value i.first_loss_available)

abbrev loss_of : LossInput → LossAllocation
loss_of i = record {
  final_loss = money (unresolved i -ℤ applied i) i.obligation;
  first_loss_applied = money (applied i) i.obligation;
  senior_loss = money (unresolved i -ℤ applied i) i.obligation;
}

loss_of-IsBalanced :
    (i : LossInput)
    → value i.collectible +ℤ value i.recovery ≤ℤ value i.obligation
    → pos 0 ≤ℤ value i.first_loss_available
    → IsBalanced i (loss_of i)
loss_of-IsBalanced i h h' =
    let (t, z, b, z', r) =
      split_loss (value i.obligation) (value i.collectible) (value i.recovery)
        (value i.first_loss_available) h h' in
    let f = value-money (applied i) i.obligation in
    let l = value-money (unresolved i -ℤ applied i) i.obligation in
    record {
      total = rw (f, l) t;
      applied_is_natural = rw (f) z;
      applied_is_available = rw (f) b;
      final_is_natural = rw (l) z';
      reserve_first = rw (f, l) r;
      senior = refl;
    }

-- The allocation of a loss that is returned balances: the cash, the share of the reserve and the
-- final loss make up the obligation. The share of the reserve is no more than what is available,
-- neither it nor the final loss is negative, and a final loss is only left when all of the reserve
-- is used. The senior loss is the final loss.
pub allocate_loss_balance :
    (i : LossInput) (a : LossAllocation) → allocate_loss i ≡ ok a → IsBalanced i a
unfolding allocate_loss
allocate_loss_balance i a e =
    let (_, e1) = >>-eq-ok (assert_same_unit _) _ e in
    let (zo, e2) = nonnegative-ok i.obligation.amount_minor _ a e1 in
    let (zc, e3) = nonnegative-ok i.collectible.amount_minor _ a e2 in
    let (zr, e4) = nonnegative-ok i.recovery.amount_minor _ a e3 in
    let (zv, e5) = nonnegative-ok i.first_loss_available.amount_minor _ a e4 in
    let (t, e6) = >>-eq-ok (throw_if _ validation_error) (ok (loss_of i)) e5 in
    let s = loss_of-IsBalanced i (ground (arith, throw_if-eq-ok _ _ t)) zv in
    let e7 : loss_of i ≡ a = cc in (rw (e7) at s)
