-- ===== src/Claims/Offers.antt =====
-- apps/api/src/modules/claims/domain/offers.ts: a financing offer on an eligible claim, and its
-- acceptance. Dates are read by the platform's `date_value`.
pub mod Acceptance
use jejak.Prelude.{ℕ, ◌+◌, Bool, true, false, not, ◌&&◌, ◌||◌, Option, none, some, List, [], ◌∷◌}
use jejak.Prelude.Tests.{◌==◌, if◌then◌else◌}
use jejak.Prelude.Lists.{all, length}
use jejak.Prelude.Int.{ℤ, pos, negsuc, leb_ℤ}
use jejak.Prelude.Text.{Text, text_eq, within, is_digit}
use jejak.Shared.Errors.{
  Result, ok, ◌>>=◌, ◌>>◌, throw_if, domain_error, version_conflict, invalid_state_transition,
  validation_error,
}
use jejak.Shared.Number.{Number, int, fraction, infinite, nan, integer_between}
use jejak.Shared.Json.{Platform}
use jejak.Shared.Money.{
  MoneyValue, Comparison, assert_same_money_unit, compare_money, zero_money, is_less, is_greater,
}
use jejak.Claims.Lifecycle.{ClaimState, LifecycleClaim, state_eq}

pub data OfferStatus : Type 0 where
  offered accepted expired cancelled : OfferStatus

pub record LifecycleOffer : Type 0 where
  pub id : Text
  pub claim_id : Text
  pub originator_id : Text
  pub principal : MoneyValue
  pub fee : MoneyValue
  pub annualized_rate_bps : Number
  pub advance_rate_bps : Number
  pub expires_at : Text
  pub terms_hash : Text
  pub status : OfferStatus
  pub created_at : Text
  pub version : ℕ

pub record CreateOfferInput : Type 0 where
  pub id : Text
  pub originator_id : Text
  pub claim : LifecycleClaim
  pub principal : MoneyValue
  pub fee : MoneyValue
  pub annualized_rate_bps : Number
  pub advance_rate_bps : Number
  pub expires_at : Text
  pub terms_hash : Text
  pub has_active_offer : Bool
  pub now : Text

-- /^[0-9a-f]{64}$/
unfoldable pub is_sha256 : Text → Bool
is_sha256 s = length s == 64 && all (λ c. is_digit c || within b'a' b'f' c) s

-- `Number.isInteger(n) && n >= 0`
abbrev pub is_rate : Number → Bool
is_rate (int n) = leb_ℤ (pos 0) n
is_rate (fraction n) = false
is_rate (infinite s) = false
is_rate nan = false

-- `expiresAt <= now`, which is false where one of the dates is invalid.
abbrev pub is_due : Option ℤ → Option ℤ → Bool
is_due none now = false
is_due (some expiry) none = false
is_due (some expiry) (some now) = leb_ℤ expiry now

abbrev pub is_invalid_date : Option ℤ → Bool
is_invalid_date none = true
is_invalid_date (some t) = false

abbrev pub status_is_offered : OfferStatus → Bool
status_is_offered offered = true
status_is_offered accepted = false
status_is_offered expired = false
status_is_offered cancelled = false

module _ (platform : Platform) where
  open platform use {date_value}

  unfoldable pub create_financing_offer : CreateOfferInput → Result LifecycleOffer
  create_financing_offer input = do
    throw_if (not (state_eq input.claim.state ClaimState.eligible))
        (domain_error invalid_state_transition)
    throw_if input.has_active_offer validation_error
    assert_same_money_unit input.claim.advance_amount input.principal
    assert_same_money_unit input.principal input.fee
    principal_zero ← zero_money input.principal
    sign ← compare_money input.principal principal_zero
    throw_if (not (is_greater sign)) validation_error
    order ← compare_money input.principal input.claim.advance_amount
    throw_if (is_greater order) validation_error
    fee_zero ← zero_money input.fee
    fee_sign ← compare_money input.fee fee_zero
    throw_if (is_less fee_sign) validation_error
    throw_if (not (is_rate input.annualized_rate_bps)) validation_error
    throw_if (not (integer_between (pos 0) (pos 10000) input.advance_rate_bps)) validation_error
    throw_if (not (is_sha256 input.terms_hash)) validation_error
    let expires_at = date_value input.expires_at
    let now = date_value input.now
    throw_if (is_invalid_date expires_at || is_invalid_date now || is_due expires_at now)
        validation_error
    ok (record {
      id = input.id;
      claim_id = input.claim.id;
      originator_id = input.originator_id;
      principal = input.principal;
      fee = input.fee;
      annualized_rate_bps = input.annualized_rate_bps;
      advance_rate_bps = input.advance_rate_bps;
      expires_at = input.expires_at;
      terms_hash = input.terms_hash;
      status = offered;
      created_at = input.now;
      version = 1;
    })

  unfoldable pub accept_financing_offer :
      LifecycleOffer → ℕ → Text → Bool → Text → Result LifecycleOffer
  accept_financing_offer offer expected_version accepted_terms_hash seller_authorized now = do
    throw_if (not (offer.version == expected_version)) (domain_error version_conflict)
    throw_if (not seller_authorized) validation_error
    throw_if (not (status_is_offered offer.status)) (domain_error invalid_state_transition)
    throw_if
        (is_invalid_date (date_value now) || is_due (date_value offer.expires_at) (date_value now))
        (domain_error invalid_state_transition)
    throw_if (not (text_eq offer.terms_hash accepted_terms_hash)) validation_error
    ok (record offer { status = accepted; version = offer.version + 1 })
