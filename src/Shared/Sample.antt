-- ===== src/Shared/Sample.antt =====
-- A platform and amounts of money at which the theorems are instantiated.
use jejak.Prelude.{true, ◌≡◌, refl, none, some, arith}
use jejak.Prelude.Tests.{ltb}
use jejak.Prelude.Lists.{length}
use jejak.Prelude.Int.{pos}
use jejak.Prelude.Text.{Text, codes, digits_value, is_integer, text_eq}
use jejak.Shared.Number.{int}
use jejak.Shared.Json.{Platform}
use jejak.Shared.Json.KeyOrder.{IsKeyOrder}
use jejak.Shared.Money.{MoneyValue, is_currency, is_scale, same_money_unit}
use jejak.Shared.Money.Amounts.{IsMoney, SameUnit}

-- Keys are ordered by their length, a date is a number of milliseconds, and a text is its own hash.
abbrev pub sample_platform : Platform
sample_platform = record {
  quote = λ t. t;
  number_text = λ n. codes "0";
  before = λ s t. ltb (length s) (length t);
  sha256 = λ t. t;
  date_value = λ t. some (pos (digits_value 0 t));
}

pub sample_platform-IsKeyOrder : IsKeyOrder sample_platform.before
sample_platform-IsKeyOrder = record {
  asymmetric = λ j k h. ground arith;
  weak = λ j k l h g. ground arith;
}

-- An amount in rupiah, at scale 2.
abbrev pub rupiah : Text → MoneyValue
rupiah amount = record {
  amount_minor = amount;
  currency = codes "IDR";
  scale = int (pos 2);
  issuer = none;
}

pub rupiah-IsMoney : (t : Text) → is_integer t ≡ true → IsMoney (rupiah t)
unfolding is_currency is_scale
rupiah-IsMoney t h = record { integer = h; currency = refl; scale = refl }

pub rupiah-SameUnit :
    (s t : Text) → is_integer s ≡ true → is_integer t ≡ true → SameUnit (rupiah s) (rupiah t)
unfolding same_money_unit text_eq
rupiah-SameUnit s t g h = record {
  left = rupiah-IsMoney s g;
  right = rupiah-IsMoney t h;
  unit = refl;
}
