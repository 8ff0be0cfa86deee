-- ===== src/Shared/Tests.antt =====
-- Runs of the shared code, and the theorems about it at concrete inputs.
use jejak.Prelude.{◌≡◌, refl, true, inl, ◌⊎◌}
use jejak.Prelude.Int.{pos, negsuc, ◌+ℤ◌}
use jejak.Prelude.Text.{codes, decimal, bigint_of, bigint_text, is_integer}
use jejak.Shared.Errors.{ok, err, validation_error}
use jejak.Shared.Json.{string, object, end, field, Fields, canonical_hash}
use jejak.Shared.Json.KeyOrder.{swapped, canonical_hash-Reordered}
use jejak.Shared.Money.{
  MoneyValue, Comparison, with_money_amount, money_amount, add_money, compare_money,
}
use jejak.Shared.Money.Amounts.{
  value, SameUnit, money_round_trip, add_money-value, compare_money_order, Compares,
}
use jejak.Shared.Sample.{
  sample_platform, sample_platform-IsKeyOrder, rupiah, rupiah-IsMoney, rupiah-SameUnit,
}

large-decimal : decimal 100_000_000_000_000_000_000 ≡ codes "100000000000000000000"
unfolding decimal
large-decimal = refl

negative-bigint_text : bigint_text (negsuc 41) ≡ codes "-42"
unfolding bigint_text
negative-bigint_text = refl

-- The pattern of a canonical integer admits a negative zero.
negative_zero : (is_integer (codes "-0") ≡ true) × (bigint_of (codes "-0") ≡ pos 0)
unfolding is_integer bigint_of
negative_zero = (refl, refl)

abbrev forwards : Fields
forwards = field (codes "id") (string (codes "7")) (field (codes "kind") (string (codes "x")) end)

abbrev backwards : Fields
backwards = field (codes "kind") (string (codes "x")) (field (codes "id") (string (codes "7")) end)

canonical_hash-Reordered_example :
    canonical_hash sample_platform (object forwards)
    ≡ canonical_hash sample_platform (object backwards)
canonical_hash-Reordered_example =
    canonical_hash-Reordered sample_platform sample_platform-IsKeyOrder forwards backwards
      (swapped (codes "id") (codes "kind") (string (codes "7")) (string (codes "x")) (inl refl))

money_round_trip_example :
    let m = with_money_amount (rupiah (codes "5")) (negsuc 2) in
    SameUnit (rupiah (codes "5")) m × (money_amount m ≡ ok (negsuc 2))
unfolding is_integer
money_round_trip_example =
    money_round_trip (rupiah (codes "5")) (negsuc 2) (rupiah-IsMoney (codes "5") refl)

add_money-value_example :
    let l = rupiah (codes "5") in
    let r = rupiah (codes "-7") in
    (SameUnit l r
      × ((m : MoneyValue) × (add_money l r ≡ ok m) × SameUnit l m × (value m ≡ value l +ℤ value r)))
    ⊎ (add_money l r ≡ err validation_error)
add_money-value_example = add_money-value (rupiah (codes "5")) (rupiah (codes "-7"))

compare_money_order_example :
    (c : Comparison) × (compare_money (rupiah (codes "5")) (rupiah (codes "70")) ≡ ok c)
    × Compares (pos 5) (pos 70) c
unfolding is_integer bigint_of
compare_money_order_example =
    compare_money_order (rupiah (codes "5")) (rupiah (codes "70"))
      (rupiah-SameUnit (codes "5") (codes "70") refl refl)
