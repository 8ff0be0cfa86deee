-- ===== src/Shared/Money.antt =====
-- apps/api/src/modules/shared/money.ts: amounts in minor units as canonical integer texts, with
-- the unit (currency or asset code, scale, issuer) in which they are counted.
pub mod Amounts
use jejak.Prelude.{ℕ, Bool, true, false, not, ◌&&◌, ◌||◌, Option, none, some, [], ◌∷◌}
use jejak.Prelude.Tests.{leb}
use jejak.Prelude.Lists.{all, length}
use jejak.Prelude.Int.{ℤ, pos, ◌+ℤ◌, ◌-ℤ◌, ltb_ℤ}
use jejak.Prelude.Text.{
  Text, codes, option_text_eq, text_eq, within, is_integer, bigint_of, bigint_text,
}
use jejak.Shared.Errors.{Result, ok, ◌>>=◌, ◌>>◌, throw_if, validation_error}
use jejak.Shared.Number.{Number, number_eq, integer_between}
use jejak.Shared.Json.{Json, Fields, string, number, object, end, field, optional_text}

pub record MoneyValue : Type 0 where
  pub amount_minor : Text
  pub currency : Text
  pub scale : Number
  pub issuer : Option Text

abbrev pub is_code_unit : ℕ → Bool
is_code_unit c = within b'A' b'Z' c || within b'0' b'9' c

-- /^[A-Z0-9]{3,12}$/
unfoldable pub is_currency : Text → Bool
is_currency s = leb 3 (length s) && leb (length s) 12 && all is_code_unit s

unfoldable pub is_scale : Number → Bool
is_scale n = integer_between (pos 0) (pos 18) n

unfoldable pub assert_money : MoneyValue → Result (Unit {0})
assert_money value = do
  throw_if (not (is_integer value.amount_minor)) validation_error
  throw_if (not (is_currency value.currency)) validation_error
  throw_if (not (is_scale value.scale)) validation_error

unfoldable pub same_money_unit : MoneyValue → MoneyValue → Bool
same_money_unit left right =
    text_eq left.currency right.currency
    && number_eq left.scale right.scale
    && option_text_eq left.issuer right.issuer

unfoldable pub assert_same_money_unit : MoneyValue → MoneyValue → Result (Unit {0})
assert_same_money_unit left right = do
  assert_money left
  assert_money right
  throw_if (not (same_money_unit left right)) validation_error

unfoldable pub money_amount : MoneyValue → Result ℤ
money_amount value = do assert_money value; ok (bigint_of value.amount_minor)

unfoldable pub with_money_amount : MoneyValue → ℤ → MoneyValue
with_money_amount template amount = record {
  amount_minor = bigint_text amount;
  currency = template.currency;
  scale = template.scale;
  issuer = template.issuer;
}

unfoldable pub add_money : MoneyValue → MoneyValue → Result MoneyValue
add_money left right = do
  assert_same_money_unit left right
  l ← money_amount left
  r ← money_amount right
  ok (with_money_amount left (l +ℤ r))

-- The results of `compareMoney`: -1, 0 and 1.
pub data Comparison : Type 0 where
  less same greater : Comparison

unfoldable pub compare_amounts : ℤ → Comparison
compare_amounts difference = elim (ltb_ℤ difference (pos 0)) [
  | true ↦ less
  | false ↦ elim (ltb_ℤ (pos 0) difference) [ true ↦ greater | false ↦ same ]
]

unfoldable pub compare_money : MoneyValue → MoneyValue → Result Comparison
compare_money left right = do
  assert_same_money_unit left right
  l ← money_amount left
  r ← money_amount right
  ok (compare_amounts (l -ℤ r))

unfoldable pub zero_money : MoneyValue → Result MoneyValue
zero_money template = do assert_money template; ok (with_money_amount template (pos 0))

-- `compareMoney(…) < 0` and `compareMoney(…) > 0`.
abbrev pub is_less : Comparison → Bool
is_less less = true
is_less same = false
is_less greater = false

abbrev pub is_greater : Comparison → Bool
is_greater less = false
is_greater same = false
is_greater greater = true

-- The value as JSON; an absent issuer is `undefined`.
abbrev pub money_json : MoneyValue → Json
money_json m = object (
    field (codes "amountMinor") (string m.amount_minor) (
      field (codes "currency") (string m.currency) (
        field (codes "scale") (number m.scale)
          (field (codes "issuer") (optional_text m.issuer) end))))
