-- ===== src/Anchor/Conversion/Exactness.antt =====
-- What the conversion of a payout computes (apps/api/src/modules/anchor/domain/conversion.ts).
use jejak.Prelude.{
  ℕ, zero, suc, ◌+◌, ◌-◌, ◌*◌, ◌/◌, ◌%◌, ◌^◌, ◌≤◌, ◌<◌, ◌≡◌, refl, true, false, Option, none, some,
  arith, ◌∙◌, sym, ap,
}
use native.Mathlib.Nat.{pow-suc, mod-lt, div-add-mod}
use jejak.Prelude.Int.{ℤ, pos, negsuc, leb_ℤ, pos-sub, pos_laws}
use jejak.Prelude.Text.{
  is_positive_integer, bigint_of, bigint_text_lem, digits_value, positive_integer_value,
}
use jejak.Shared.Errors.{ok, >>-eq-ok, >>=-eq-ok}
use jejak.Shared.Number.{Number, int, fraction, infinite, nan, integer_between}
use jejak.Shared.Money.{MoneyValue, is_scale, assert_money, with_money_amount}
use jejak.Shared.Money.Amounts.{
  IsMoney, value, assert_money-IsMoney, money_amount-ok, value-with_money_amount,
}
use jejak.Anchor.Conversion.{
  AnchorSandboxConfig, FullConfig, AnchorConversion, is_bad, or_default, number_value, power_of_ten,
  quote_payout, normalize_sandbox_config, target_template, convert_amount, convert_sandbox_payout,
}

-- The terms of a conversion as numbers: `amount` minor units of the source, at the rate
-- `numerator / denominator`, between two scales, for a fee in basis points.
pub record Terms : Type 0 where
  pub amount : ℕ
  pub numerator : ℕ
  pub denominator : ℕ
  pub source_scale : ℕ
  pub target_scale : ℕ
  pub fee_bps : ℕ

pub record Payout : Type 0 where
  pub gross : ℕ
  pub remainder : ℕ
  pub fee : ℕ
  pub net : ℕ

abbrev pub dividend : Terms → ℕ
dividend t = t.amount * t.numerator * 10 ^ t.target_scale

abbrev pub divisor : Terms → ℕ
divisor t = t.denominator * 10 ^ t.source_scale

-- The gross amount is the exact quotient rounded down, with its remainder; the fee is the share of
-- the gross amount rounded down; and both parts of the payout are positive or nothing is lost.
pub record IsPayout (t : Terms) (p : Payout) : Type 0 where
  pub exact : p.gross * divisor t + p.remainder ≡ dividend t
  pub rounded : p.remainder < divisor t
  pub split : p.fee + p.net ≡ p.gross
  pub fee_low : p.fee * 10000 ≤ p.gross * t.fee_bps
  pub fee_high : p.gross * t.fee_bps < p.fee * 10000 + 10000
  pub positive : 0 < p.net

payout_of : Terms → Payout
payout_of t =
    let gross = dividend t / divisor t in
    let fee = gross * t.fee_bps / 10000 in
    record { gross = gross; remainder = dividend t % divisor t; fee = fee; net = gross - fee }

pow_pos : (n : ℕ) → 0 < 10 ^ n
pow_pos zero = omega arith
pow_pos (suc n) = rw pow-suc (omega (arith, pow_pos n))

share-le : (g f : ℕ) → f ≤ 10000 → g * f / 10000 ≤ g
share-le g f h = omega (arith, scaled)
  where
    scaled : g * f ≤ g * 10000
    scaled = grind arith

divisor_pos : (t : Terms) → 0 < t.denominator → 0 < divisor t
divisor_pos t d = grind (arith, pow_pos t.source_scale)

payout_of-IsPayout :
    (t : Terms)
    → 0 < t.denominator
    → t.fee_bps ≤ 10000
    → 0 < (payout_of t).net
    → IsPayout t (payout_of t)
unfolding payout_of
payout_of-IsPayout t d f n = record {
  exact = omega (arith, div-add-mod (dividend t) (divisor t));
  rounded = mod-lt (dividend t) (divisor_pos t d);
  split = omega (arith, share-le (dividend t / divisor t) t.fee_bps f);
  fee_low = omega arith;
  fee_high = omega arith;
  positive = n;
}

-- The terms that a configuration sets for an amount.
terms_of : FullConfig → ℕ → Number → Terms
terms_of config amount source_scale = record {
  amount = amount;
  numerator = digits_value 0 config.rate_numerator;
  denominator = digits_value 0 config.rate_denominator;
  source_scale = number_value source_scale;
  target_scale = number_value config.target_scale;
  fee_bps = number_value config.fee_bps;
}

-- What the checks of the configuration leave.
pub record IsConfig (raw : AnchorSandboxConfig) (c : FullConfig) : Type 0 where
  pub numerator : is_positive_integer c.rate_numerator ≡ true
  pub denominator : is_positive_integer c.rate_denominator ≡ true
  pub fee : number_value c.fee_bps ≤ 10000
  pub fee_natural : c.fee_bps ≡ int (pos (number_value c.fee_bps))
  pub target_natural : c.target_scale ≡ int (pos (number_value c.target_scale))
  pub same_numerator : c.rate_numerator ≡ raw.rate_numerator
  pub same_denominator : c.rate_denominator ≡ raw.rate_denominator
  pub same_fee : c.fee_bps ≡ raw.fee_bps

natural_number :
    (hi : ℕ) (n : Number)
    → integer_between (pos 0) (pos hi) n ≡ true
    → (n ≡ int (pos (number_value n))) × (number_value n ≤ hi)
natural_number hi (int (pos n)) h = ground arith
natural_number hi (int (negsuc n)) h = absurd (ground arith)
natural_number hi (fraction n) h = cc
natural_number hi (infinite b) h = cc
natural_number hi nan h = cc

is_scale-between : (n : Number) → is_scale n ≡ true → integer_between (pos 0) (pos 18) n ≡ true
unfolding is_scale
is_scale-between n h = h

target_scale_natural :
    (o : Option Number)
    → is_bad is_scale o ≡ false
    → let n = or_default o (int (pos 2)) in n ≡ int (pos (number_value n))
unfolding is_scale
target_scale_natural none h = refl
target_scale_natural (some n) h = (natural_number 18 n (ground arith)).0

normalize_sandbox_config-IsConfig :
    (c : AnchorSandboxConfig) (d : FullConfig) → normalize_sandbox_config c ≡ ok d → IsConfig c d
unfolding normalize_sandbox_config
normalize_sandbox_config-IsConfig c d e =
    ground (arith, natural_number 10000 c.fee_bps, target_scale_natural c.target_scale)

-- The integers of the code are the natural numbers of the specification.
quote_payout-eq :
    (raw : AnchorSandboxConfig) (c : FullConfig) (amount : ℕ) (scale : Number)
    → IsConfig raw c
    → let p = payout_of (terms_of c amount scale) in
      quote_payout c (pos amount) scale ≡ record {
        gross = pos p.gross;
        remainder = pos p.remainder;
        fee = pos p.fee;
        net = pos p.net;
      }
unfolding quote_payout power_of_ten payout_of terms_of
quote_payout-eq raw c amount scale h =
    let n = positive_integer_value c.rate_numerator h.numerator in
    let d = positive_integer_value c.rate_denominator h.denominator in
    let t = terms_of c amount scale in
    simp (n.0, d.0, pos_laws)
      (rw (pos-sub _ _ (share-le (dividend t / divisor t) (number_value c.fee_bps) h.fee)))

-- The terms `t` are those of the source amount and the configuration.
pub record AreTerms (source : MoneyValue) (config : AnchorSandboxConfig) (c : AnchorConversion)
    (t : Terms) : Type 0 where
  pub amount : value source ≡ pos t.amount
  pub numerator : bigint_of config.rate_numerator ≡ pos t.numerator
  pub denominator : bigint_of config.rate_denominator ≡ pos t.denominator
  pub source_scale : source.scale ≡ int (pos t.source_scale)
  pub target_scale : c.target_gross.scale ≡ int (pos t.target_scale)
  pub fee_bps : config.fee_bps ≡ int (pos t.fee_bps)

-- The amounts of a conversion are those of the payout `p`.
pub record AreAmounts (c : AnchorConversion) (p : Payout) : Type 0 where
  pub gross : value c.target_gross ≡ pos p.gross
  pub fee : value c.fee ≡ pos p.fee
  pub net : value c.target_net ≡ pos p.net
  pub remainder : bigint_of c.remainder_numerator ≡ pos p.remainder

positive_amount : (z : ℤ) → leb_ℤ z (pos 0) ≡ false → (n : ℕ) × (z ≡ pos n)
positive_amount (pos n) h = (n, refl)
positive_amount (negsuc n) h = absurd (ground arith)

template_scale :
    (d : FullConfig) (z : ℤ) → (with_money_amount (target_template d) z).scale ≡ d.target_scale
unfolding with_money_amount target_template
template_scale d z = refl

-- The conversion of an amount, by the numbers of the specification.
convert_amount-cases :
    (raw : AnchorSandboxConfig) (d : FullConfig) (scale : Number) (z : ℤ) (c : AnchorConversion)
    → IsConfig raw d
    → convert_amount d scale z ≡ ok c
    → (amount : ℕ) × (z ≡ pos amount)
      × (0 < (payout_of (terms_of d amount scale)).net)
      × AreAmounts c (payout_of (terms_of d amount scale))
      × (c.target_gross.scale ≡ d.target_scale)
unfolding convert_amount target_template
convert_amount-cases raw d scale (negsuc n) c h e = absurd (ground arith)
convert_amount-cases raw d scale (pos n) c h e =
    let template = target_template d in
    let p = payout_of (terms_of d n scale) in
    let e' = (rw (quote_payout-eq raw d n scale h) at e) in
    (
      n,
      refl,
      ground arith,
      record {
        gross = ground (arith, value-with_money_amount template (pos p.gross));
        fee = ground (arith, value-with_money_amount template (pos p.fee));
        net = ground (arith, value-with_money_amount template (pos p.net));
        remainder = ground (arith, (bigint_text_lem (pos p.remainder)).1);
      },
      ground (arith, template_scale d (pos p.gross)),
    )

convert_sandbox_payout-steps :
    (source : MoneyValue) (config : AnchorSandboxConfig) (c : AnchorConversion)
    → convert_sandbox_payout source config ≡ ok c
    → (d : FullConfig) × IsMoney source
      × IsConfig config d
      × (convert_amount d source.scale (value source) ≡ ok c)
unfolding convert_sandbox_payout
convert_sandbox_payout-steps source config c e =
    let (m, e1) = >>-eq-ok (assert_money source) _ e in
    let money = assert_money-IsMoney source m in
    let (d, n, e2) = >>=-eq-ok (normalize_sandbox_config config) _ e1 in
    (
      d,
      money,
      normalize_sandbox_config-IsConfig config d n,
      ground (arith, money_amount-ok source money),
    )

-- A conversion that is returned is exact: the gross amount is the amount at the rate, rounded down,
-- and the reported remainder is what rounding left; fee and net amount add up to the gross amount,
-- the fee is its share rounded down, and the net amount is positive.
pub convert_sandbox_payout_exact :
    (source : MoneyValue) (config : AnchorSandboxConfig) (c : AnchorConversion)
    → convert_sandbox_payout source config ≡ ok c
    → (t : Terms) × (p : Payout) × AreTerms source config c t × AreAmounts c p × IsPayout t p
unfolding terms_of
convert_sandbox_payout_exact source config c e =
    let (d, money, h, e1) = convert_sandbox_payout-steps source config c e in
    let (amount, a, net, amounts, scale) =
      convert_amount-cases config d source.scale (value source) c h e1 in
    let n = positive_integer_value d.rate_numerator h.numerator in
    let m = positive_integer_value d.rate_denominator h.denominator in
    (
      terms_of d amount source.scale,
      payout_of (terms_of d amount source.scale),
      record {
        amount = a;
        numerator = ap bigint_of (sym h.same_numerator) ∙ n.0;
        denominator = ap bigint_of (sym h.same_denominator) ∙ m.0;
        source_scale =
            (natural_number 18 source.scale (is_scale-between source.scale money.scale)).0;
        target_scale = scale ∙ h.target_natural;
        fee_bps = sym h.same_fee ∙ h.fee_natural;
      },
      amounts,
      payout_of-IsPayout (terms_of d amount source.scale) m.1 h.fee net,
    )
