-- ===== src/Resolution/Loss.antt =====
-- apps/api/src/modules/resolution/domain/resolution.ts, `allocateLoss`: what is left of an
-- obligation after the recovered and the collectible cash is borne by the reserve, then lost.
pub mod Balance
use jejak.Prelude.{Bool, true, false, not, ◌&&◌, ◌||◌, Option, List, [], ◌∷◌}
use jejak.Prelude.Lists.{any}
use jejak.Prelude.Int.{ℤ, ◌+ℤ◌, ◌-ℤ◌, ltb_ℤ, min_ℤ}
use jejak.Prelude.Text.{Text, text_eq, option_text_eq, is_natural, bigint_of, bigint_text}
use jejak.Shared.Errors.{Result, ok, ◌>>=◌, ◌>>◌, throw_if, validation_error}
use jejak.Shared.Number.{Number, number_eq}

pub record ResolutionMoney : Type 0 where
  pub amount_minor : Text
  pub currency : Text
  pub scale : Number
  pub issuer : Option Text

pub record LossAllocation : Type 0 where
  pub final_loss : ResolutionMoney
  pub first_loss_applied : ResolutionMoney
  pub senior_loss : ResolutionMoney

pub record LossInput : Type 0 where
  pub collectible : ResolutionMoney
  pub first_loss_available : ResolutionMoney
  pub obligation : ResolutionMoney
  pub recovery : ResolutionMoney

unfoldable pub differs : ResolutionMoney → ResolutionMoney → Bool
differs first item =
    not (text_eq item.currency first.currency)
    || not (number_eq item.scale first.scale)
    || not (option_text_eq item.issuer first.issuer)

-- `assertSameUnit`, which fails on no values.
unfoldable pub assert_same_unit : List ResolutionMoney → Result (Unit {0})
assert_same_unit [] = throw_if true validation_error
assert_same_unit (first ∷ rest) = throw_if (any (differs first) rest) validation_error

unfoldable pub nonnegative : Text → Result ℤ
nonnegative value = do throw_if (not (is_natural value)) validation_error; ok (bigint_of value)

unfoldable pub money : ℤ → ResolutionMoney → ResolutionMoney
money amount unit = record {
  amount_minor = bigint_text amount;
  currency = unit.currency;
  scale = unit.scale;
  issuer = unit.issuer;
}

unfoldable pub allocate_loss : LossInput → Result LossAllocation
allocate_loss input = do
  assert_same_unit
      (input.collectible ∷ input.first_loss_available ∷ input.obligation ∷ input.recovery ∷ [])
  obligation ← nonnegative input.obligation.amount_minor
  collectible ← nonnegative input.collectible.amount_minor
  recovery ← nonnegative input.recovery.amount_minor
  available ← nonnegative input.first_loss_available.amount_minor
  throw_if (ltb_ℤ obligation (collectible +ℤ recovery)) validation_error
  let unresolved = obligation -ℤ collectible -ℤ recovery
  let first_loss = min_ℤ unresolved available
  let senior_loss = unresolved -ℤ first_loss
  ok (record {
    final_loss = money senior_loss input.obligation;
    first_loss_applied = money first_loss input.obligation;
    senior_loss = money senior_loss input.obligation;
  })
