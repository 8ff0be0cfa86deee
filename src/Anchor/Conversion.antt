-- ===== src/Anchor/Conversion.antt =====
-- apps/api/src/modules/anchor/domain/conversion.ts: the target amount of a payout, rounded down,
-- and the fee that is taken from it.
pub mod Exactness
use jejak.Prelude.{ℕ, ◌^◌, Bool, true, false, not, ◌&&◌, ◌||◌, Option, none, some}
use jejak.Prelude.Tests.{leb}
use jejak.Prelude.Int.{ℤ, pos, negsuc, ◌-ℤ◌, ◌*ℤ◌, ◌/ℤ◌, ◌%ℤ◌, leb_ℤ}
use jejak.Prelude.Text.{Text, codes, text_eq, is_positive_integer, bigint_of, bigint_text}
use jejak.Shared.Errors.{Result, ok, ◌>>=◌, ◌>>◌, throw_if, validation_error}
use jejak.Shared.Number.{Number, int, fraction, infinite, nan, number_eq, integer_between}
use jejak.Shared.Money.{
  MoneyValue, assert_money, is_currency, is_scale, money_amount, with_money_amount,
}

pub record AnchorRate : Type 0 where
  pub denominator : Text
  pub numerator : Text
  pub source_currency : Text
  pub target_currency : Text

pub record AnchorSandboxConfig : Type 0 where
  pub fee_bps : Number
  pub rate_denominator : Text
  pub rate_numerator : Text
  pub source_currency : Option Text
  pub source_scale : Option Number
  pub target_currency : Option Text
  pub target_issuer : Option Text
  pub target_scale : Option Number

-- `Required<AnchorSandboxConfig>`
pub record FullConfig : Type 0 where
  pub fee_bps : Number
  pub rate_denominator : Text
  pub rate_numerator : Text
  pub source_currency : Text
  pub source_scale : Number
  pub target_currency : Text
  pub target_issuer : Text
  pub target_scale : Number

pub record AnchorConversion : Type 0 where
  pub fee : MoneyValue
  pub fee_bps : Number
  pub rate : AnchorRate
  pub remainder_numerator : Text
  pub target_gross : MoneyValue
  pub target_net : MoneyValue

-- `value !== undefined && !test(value)`
abbrev pub is_bad {ℓ} : {A : Type ℓ} → (A → Bool) → Option A → Bool
is_bad test none = false
is_bad test (some a) = not (test a)

abbrev pub or_default {ℓ} : {A : Type ℓ} → Option A → A → A
or_default none d = d
or_default (some a) d = a

unfoldable pub normalize_sandbox_config : AnchorSandboxConfig → Result FullConfig
normalize_sandbox_config config = do
  throw_if (not (is_positive_integer config.rate_numerator)) validation_error
  throw_if (not (is_positive_integer config.rate_denominator)) validation_error
  throw_if (not (integer_between (pos 0) (pos 10000) config.fee_bps)) validation_error
  throw_if (is_bad is_currency config.source_currency) validation_error
  throw_if (is_bad is_scale config.source_scale) validation_error
  throw_if (is_bad is_currency config.target_currency) validation_error
  throw_if (is_bad is_scale config.target_scale) validation_error
  ok (record {
    fee_bps = config.fee_bps;
    rate_denominator = config.rate_denominator;
    rate_numerator = config.rate_numerator;
    source_currency = or_default config.source_currency (codes "USDC");
    source_scale = or_default config.source_scale (int (pos 6));
    target_currency = or_default config.target_currency (codes "TIDR");
    target_issuer = or_default config.target_issuer (codes "SANDBOX");
    target_scale = or_default config.target_scale (int (pos 2));
  })

-- `BigInt(n)` of a number that the guards have found to be a natural number; elsewhere the guards
-- have thrown, and the value is not used.
abbrev pub number_value : Number → ℕ
number_value (int (pos n)) = n
number_value (int (negsuc n)) = 0
number_value (fraction n) = 0
number_value (infinite s) = 0
number_value nan = 0

unfoldable pub power_of_ten : Number → ℤ
power_of_ten scale = pos (10 ^ number_value scale)

pub record Quote : Type 0 where
  pub gross : ℤ
  pub remainder : ℤ
  pub fee : ℤ
  pub net : ℤ

-- The arithmetic of the conversion.
unfoldable pub quote_payout : FullConfig → ℤ → Number → Quote
quote_payout config source_amount source_scale =
    let numerator = bigint_of config.rate_numerator in
    let denominator = bigint_of config.rate_denominator in
    let scaled_numerator = source_amount *ℤ numerator *ℤ power_of_ten config.target_scale in
    let scaled_denominator = denominator *ℤ power_of_ten source_scale in
    let gross = scaled_numerator /ℤ scaled_denominator in
    let fee = gross *ℤ pos (number_value config.fee_bps) /ℤ pos 10000 in
    record {
      gross = gross;
      remainder = scaled_numerator %ℤ scaled_denominator;
      fee = fee;
      net = gross -ℤ fee;
    }

unfoldable pub target_template : FullConfig → MoneyValue
target_template config = record {
  amount_minor = codes "0";
  currency = config.target_currency;
  scale = config.target_scale;
  issuer = some config.target_issuer;
}

-- `convertSandboxPayout` from the test of the source amount on.
unfoldable pub convert_amount : FullConfig → Number → ℤ → Result AnchorConversion
convert_amount config source_scale source_amount = do
  throw_if (leb_ℤ source_amount (pos 0)) validation_error
  let quote = quote_payout config source_amount source_scale
  throw_if (leb_ℤ quote.gross (pos 0) || leb_ℤ quote.net (pos 0)) validation_error
  ok (record {
    fee = with_money_amount (target_template config) quote.fee;
    fee_bps = config.fee_bps;
    rate = record {
      denominator = config.rate_denominator;
      numerator = config.rate_numerator;
      source_currency = config.source_currency;
      target_currency = config.target_currency;
    };
    remainder_numerator = bigint_text quote.remainder;
    target_gross = with_money_amount (target_template config) quote.gross;
    target_net = with_money_amount (target_template config) quote.net;
  })

unfoldable pub convert_sandbox_payout : MoneyValue → AnchorSandboxConfig → Result AnchorConversion
convert_sandbox_payout source raw_config = do
  assert_money source
  config ← normalize_sandbox_config raw_config
  throw_if
      (not (text_eq source.currency config.source_currency)
        || not (number_eq source.scale config.source_scale))
      validation_error
  source_amount ← money_amount source
  convert_amount config source.scale source_amount
