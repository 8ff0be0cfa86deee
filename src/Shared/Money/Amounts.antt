-- ===== src/Shared/Money/Amounts.antt =====
-- What the operations on money compute, in terms of one predicate: a money value stands for an
-- integer in the unit of another value.
use jejak.Prelude.{◌≡◌, refl, sym, ap, ◌∙◌, true, false, ◌⊎◌, inl, inr, Option, none, some, arith}
use jejak.Prelude.Int.{ℤ, pos, negsuc, ltb_ℤ, ◌+ℤ◌, ◌-ℤ◌, ◌<ℤ◌, -ℤ_parts, eq_of_parts}
use jejak.Prelude.Text.{Text, option_text_eq, is_integer, bigint_of, bigint_text_lem, text_eq_iff}
use jejak.Shared.Errors.{ok, err, validation_error}
use jejak.Shared.Number.{Number, int, fraction, infinite, nan, number_eq, int_eq}
use jejak.Shared.Money.{
  MoneyValue, is_currency, is_scale, assert_money, same_money_unit, assert_same_money_unit,
  money_amount, with_money_amount, add_money, Comparison, less, same, greater, compare_amounts,
  compare_money, zero_money, is_less, is_greater,
}

-- The fields that `assertMoney` checks are in order.
pub record IsMoney (m : MoneyValue) : Type 0 where
  pub integer : is_integer m.amount_minor ≡ true
  pub currency : is_currency m.currency ≡ true
  pub scale : is_scale m.scale ≡ true

-- The integer that a money value stands for.
abbrev pub value : MoneyValue → ℤ
value m = bigint_of m.amount_minor

pub assert_money-ok : (m : MoneyValue) → IsMoney m → assert_money m ≡ ok tt
unfolding assert_money
assert_money-ok m h = rw (h.integer, h.currency, h.scale)

pub assert_money-IsMoney : (m : MoneyValue) → assert_money m ≡ ok tt → IsMoney m
unfolding assert_money
assert_money-IsMoney m h = ground arith

pub assert_money-cases : (m : MoneyValue) → IsMoney m ⊎ (assert_money m ≡ err validation_error)
unfolding assert_money
assert_money-cases m = ground arith

-- Two money values in order, in one unit.
pub record SameUnit (l r : MoneyValue) : Type 0 where
  pub left : IsMoney l
  pub right : IsMoney r
  pub unit : same_money_unit l r ≡ true

pub assert_same_money_unit-ok :
    (l r : MoneyValue) → SameUnit l r → assert_same_money_unit l r ≡ ok tt
unfolding assert_same_money_unit
assert_same_money_unit-ok l r h = rw (assert_money-ok l h.left, assert_money-ok r h.right, h.unit)

pub assert_same_money_unit-SameUnit :
    (l r : MoneyValue) → assert_same_money_unit l r ≡ ok tt → SameUnit l r
unfolding assert_same_money_unit
assert_same_money_unit-SameUnit l r e =
    ground (arith, assert_money-IsMoney l, assert_money-IsMoney r)

pub assert_same_money_unit-cases :
    (l r : MoneyValue) → SameUnit l r ⊎ (assert_same_money_unit l r ≡ err validation_error)
unfolding assert_same_money_unit
assert_same_money_unit-cases l r =
    ground (arith, assert_money-cases l, assert_money-cases r, assert_money-ok l, assert_money-ok r)

pub money_amount-ok : (m : MoneyValue) → IsMoney m → money_amount m ≡ ok (value m)
unfolding money_amount
money_amount-ok m h = rw (assert_money-ok m h)

pub with_money_amount-IsMoney :
    (t : MoneyValue) (z : ℤ) → IsMoney t → IsMoney (with_money_amount t z)
unfolding with_money_amount
with_money_amount-IsMoney t z h = record {
  integer = (bigint_text_lem z).0;
  currency = h.currency;
  scale = h.scale;
}

-- Writing an amount as text and reading it back gives the amount.
pub value-with_money_amount : (t : MoneyValue) (z : ℤ) → value (with_money_amount t z) ≡ z
unfolding with_money_amount
value-with_money_amount t z = (bigint_text_lem z).1

option_text_eq_refl : (o : Option Text) → option_text_eq o o ≡ true
option_text_eq_refl none = refl
option_text_eq_refl (some s) = (text_eq_iff s s).1 refl

pub int_eq_refl : (a : ℤ) → int_eq a a ≡ true
int_eq_refl (pos n) = ground arith
int_eq_refl (negsuc n) = ground arith

number_eq_refl : (n : Number) → is_scale n ≡ true → number_eq n n ≡ true
unfolding is_scale
number_eq_refl (int n) h = int_eq_refl n
number_eq_refl (fraction n) h = cc
number_eq_refl (infinite b) h = cc
number_eq_refl nan h = cc

pub with_money_amount-SameUnit :
    (t : MoneyValue) (z : ℤ) → IsMoney t → SameUnit t (with_money_amount t z)
unfolding same_money_unit with_money_amount
with_money_amount-SameUnit t z h = record {
  left = h;
  right = with_money_amount-IsMoney t z h;
  unit = rw (
    (text_eq_iff t.currency t.currency).1 refl,
    number_eq_refl t.scale h.scale,
    option_text_eq_refl t.issuer,
  );
}

pub add_money-ok :
    (l r : MoneyValue)
    → SameUnit l r
    → add_money l r ≡ ok (with_money_amount l (value l +ℤ value r))
unfolding add_money
add_money-ok l r h =
    rw (assert_same_money_unit-ok l r h, money_amount-ok l h.left, money_amount-ok r h.right)

pub compare_money-ok :
    (l r : MoneyValue)
    → SameUnit l r
    → compare_money l r ≡ ok (compare_amounts (value l -ℤ value r))
unfolding compare_money
compare_money-ok l r h =
    rw (assert_same_money_unit-ok l r h, money_amount-ok l h.left, money_amount-ok r h.right)

pub zero_money-ok : (t : MoneyValue) → IsMoney t → zero_money t ≡ ok (with_money_amount t (pos 0))
unfolding zero_money
zero_money-ok t h = rw (assert_money-ok t h)

-- What a comparison says of two integers.
abbrev pub Compares : ℤ → ℤ → Comparison → Type 0
Compares a b less = a <ℤ b
Compares a b same = a ≡ b
Compares a b greater = b <ℤ a

pub compare_amounts-Compares : (a b : ℤ) → Compares a b (compare_amounts (a -ℤ b))
unfolding compare_amounts
compare_amounts-Compares a b = ground (arith, -ℤ_parts a b, eq_of_parts a b)

pub is_less-compare_amounts : (a b : ℤ) → is_less (compare_amounts (a -ℤ b)) ≡ ltb_ℤ a b
unfolding compare_amounts
is_less-compare_amounts a b = ground (arith, -ℤ_parts a b)

pub is_greater-compare_amounts : (a b : ℤ) → is_greater (compare_amounts (a -ℤ b)) ≡ ltb_ℤ b a
unfolding compare_amounts
is_greater-compare_amounts a b = ground (arith, -ℤ_parts a b)

int_eq_sound : (a b : ℤ) → int_eq a b ≡ true → a ≡ b
int_eq_sound (pos a) (pos b) h = ground arith
int_eq_sound (pos a) (negsuc b) h = cc
int_eq_sound (negsuc a) (pos b) h = cc
int_eq_sound (negsuc a) (negsuc b) h = ground arith

number_eq_sound : (m n : Number) → number_eq m n ≡ true → m ≡ n
number_eq_sound (int a) (int b) h = ap int (int_eq_sound a b h)
number_eq_sound (fraction a) (fraction b) h = ground arith
number_eq_sound (infinite true) (infinite true) h = refl
number_eq_sound (infinite false) (infinite false) h = refl
number_eq_sound _ _ h = cc

option_text_eq_sound : (o p : Option Text) → option_text_eq o p ≡ true → o ≡ p
option_text_eq_sound none none h = refl
option_text_eq_sound none (some t) h = cc
option_text_eq_sound (some s) none h = cc
option_text_eq_sound (some s) (some t) h = ap some ((text_eq_iff s t).0 h)

-- One unit means the same currency, scale and issuer.
pub same_money_unit_fields :
    (l r : MoneyValue)
    → same_money_unit l r ≡ true
    → (l.currency ≡ r.currency) × (l.scale ≡ r.scale) × (l.issuer ≡ r.issuer)
unfolding same_money_unit
same_money_unit_fields l r h = ground (
  arith,
  text_eq_iff l.currency r.currency,
  number_eq_sound l.scale r.scale,
  option_text_eq_sound l.issuer r.issuer,
)

pub same_money_unit_of_fields :
    (l r : MoneyValue)
    → IsMoney l
    → l.currency ≡ r.currency
    → l.scale ≡ r.scale
    → l.issuer ≡ r.issuer
    → same_money_unit l r ≡ true
unfolding same_money_unit
same_money_unit_of_fields l r h c s i = rw (
  ← c,
  ← s,
  ← i,
  (text_eq_iff l.currency l.currency).1 refl,
  number_eq_refl l.scale h.scale,
  option_text_eq_refl l.issuer,
)

pub SameUnit-symm : {l r : MoneyValue} → SameUnit l r → SameUnit r l
SameUnit-symm {l} {r} h =
    let f = same_money_unit_fields l r h.unit in
    record {
      left = h.right;
      right = h.left;
      unit = same_money_unit_of_fields r l h.right (sym f.0) (sym f.1) (sym f.2);
    }

pub SameUnit-trans : {l m r : MoneyValue} → SameUnit l m → SameUnit m r → SameUnit l r
SameUnit-trans {l} {m} {r} h k =
    let f = same_money_unit_fields l m h.unit in
    let g = same_money_unit_fields m r k.unit in
    record {
      left = h.left;
      right = k.right;
      unit = same_money_unit_of_fields l r h.left (f.0 ∙ g.0) (f.1 ∙ g.1) (f.2 ∙ g.2);
    }

-- A value made from a template in order and any integer is in order and in the template's unit,
-- and its amount reads back as that integer.
pub money_round_trip :
    (t : MoneyValue) (z : ℤ)
    → IsMoney t
    → SameUnit t (with_money_amount t z) × (money_amount (with_money_amount t z) ≡ ok z)
money_round_trip t z h = (
  with_money_amount-SameUnit t z h,
  money_amount-ok _ (with_money_amount-IsMoney t z h) ∙ ap ok (value-with_money_amount t z),
)

-- The sum of two values in one unit is a value in that unit that stands for the sum of their
-- integers; of values that are not in one unit there is no sum.
pub add_money-value :
    (l r : MoneyValue)
    → (SameUnit l r
        × ((m : MoneyValue) × (add_money l r ≡ ok m)
            × SameUnit l m
            × (value m ≡ value l +ℤ value r)))
      ⊎ (add_money l r ≡ err validation_error)
unfolding add_money
add_money-value l r = elim (assert_same_money_unit-cases l r) [
  | inl h ↦
      let z = value l +ℤ value r in
      inl (
        h,
        (
          with_money_amount l z,
          add_money-ok l r h,
          with_money_amount-SameUnit l z h.left,
          value-with_money_amount l z,
        ),
      )
  | inr e ↦ inr (rw e)
]

-- Values in one unit compare as their integers do.
pub compare_money_order :
    (l r : MoneyValue)
    → SameUnit l r
    → (c : Comparison) × (compare_money l r ≡ ok c) × Compares (value l) (value r) c
compare_money_order l r h =
    (_, compare_money-ok l r h, compare_amounts-Compares (value l) (value r))
