-- ===== src/Claims/Offers/Acceptance.antt =====
-- What an offer that is made or accepted satisfies (apps/api/src/modules/claims/domain/offers.ts).
use jejak.Prelude.{ℕ, ◌+◌, ◌≡◌, refl, Bool, true, false, Option, none, some, arith, ◌↔◌}
use jejak.Prelude.Int.{ℤ, pos, ◌≤ℤ◌, ◌<ℤ◌}
use jejak.Prelude.Text.{Text, text_eq_iff}
use jejak.Shared.Errors.{ok, err, domain_error, invalid_state_transition}
use jejak.Shared.Json.{Platform}
use jejak.Shared.Money.Amounts.{
  SameUnit, SameUnit-symm, value, assert_same_money_unit-cases, assert_same_money_unit-ok,
  with_money_amount-SameUnit, value-with_money_amount, compare_money-ok, zero_money-ok,
  is_less-compare_amounts, is_greater-compare_amounts,
}
use jejak.Claims.Lifecycle.{ClaimState}
use jejak.Claims.Offers.{
  offered, accepted, LifecycleOffer, CreateOfferInput, create_financing_offer,
  accept_financing_offer,
}

-- An offer has not expired at a time if its expiry is later, or is no date.
abbrev pub IsOpenAt : Option ℤ → Option ℤ → Type 0
IsOpenAt e none = ⊥
IsOpenAt none (some t) = Unit
IsOpenAt (some e) (some t) = t <ℤ e

module _ (platform : Platform) where
  open platform use {date_value}

  -- Acceptance succeeds exactly for an authorized seller who names the version and the terms of an
  -- offer that is still open at that time; it then changes the status and the version alone.
  pub accept_financing_offer_exact :
      (o : LifecycleOffer) (v : ℕ) (terms : Text) (authorized : Bool) (now : Text)
      (p : LifecycleOffer)
      → (accept_financing_offer platform o v terms authorized now ≡ ok p) ↔ (
          (o.version ≡ v)
          × (authorized ≡ true)
          × (o.status ≡ offered)
          × IsOpenAt (date_value o.expires_at) (date_value now)
          × (o.terms_hash ≡ terms)
          × (p ≡ record o { status = accepted; version = o.version + 1 }))
  unfolding accept_financing_offer
  accept_financing_offer_exact o v terms authorized now p = (
    λ h. (
      ground arith,
      ground arith,
      ground arith,
      ground arith,
      ground (arith, text_eq_iff o.terms_hash terms),
      ground arith,
    ),
    λ h. ground (arith, text_eq_iff o.terms_hash terms),
  )

  create_financing_offer-units :
      (i : CreateOfferInput) (o : LifecycleOffer)
      → create_financing_offer platform i ≡ ok o
      → SameUnit i.claim.advance_amount i.principal × SameUnit i.principal i.fee
  unfolding create_financing_offer
  create_financing_offer-units i o e = ground (
    arith,
    assert_same_money_unit-cases i.claim.advance_amount i.principal,
    assert_same_money_unit-cases i.principal i.fee,
  )

  create_financing_offer-tests :
      (i : CreateOfferInput) (o : LifecycleOffer)
      → create_financing_offer platform i ≡ ok o
      → (pos 0 <ℤ value i.principal)
        × (value i.principal ≤ℤ value i.claim.advance_amount)
        × (pos 0 ≤ℤ value i.fee)
  unfolding create_financing_offer
  create_financing_offer-tests i o e =
      let u = create_financing_offer-units i o e in
      let p = i.principal in
      let c = i.claim.advance_amount in
      let f = i.fee in
      let found =
        (rw
          (
            assert_same_money_unit-ok c p u.0,
            assert_same_money_unit-ok p f u.1,
            zero_money-ok p u.0.right,
            compare_money-ok p _ (with_money_amount-SameUnit p (pos 0) u.0.right),
            value-with_money_amount p (pos 0),
            is_greater-compare_amounts (value p) (pos 0),
            compare_money-ok p c (SameUnit-symm u.0),
            is_greater-compare_amounts (value p) (value c),
            zero_money-ok f u.1.right,
            compare_money-ok f _ (with_money_amount-SameUnit f (pos 0) u.1.right),
            value-with_money_amount f (pos 0),
            is_less-compare_amounts (value f) (pos 0),
          )
          at e) in
      ground arith

  -- An offer is made on an eligible claim that has no active offer, with a positive principal
  -- within the verified advance and a fee that is not negative, in one unit, and it is open when
  -- it is made.
  pub create_financing_offer_bounds :
      (i : CreateOfferInput) (o : LifecycleOffer)
      → create_financing_offer platform i ≡ ok o
      → (i.claim.state ≡ ClaimState.eligible)
        × (i.has_active_offer ≡ false)
        × SameUnit i.claim.advance_amount o.principal
        × SameUnit o.principal o.fee
        × (pos 0 <ℤ value o.principal)
        × (value o.principal ≤ℤ value i.claim.advance_amount)
        × (pos 0 ≤ℤ value o.fee)
        × IsOpenAt (date_value o.expires_at) (date_value o.created_at)
  unfolding create_financing_offer
  create_financing_offer_bounds i o e =
      let u = create_financing_offer-units i o e in
      let t = create_financing_offer-tests i o e in
      (
        ground arith,
        ground arith,
        ground arith,
        ground arith,
        ground arith,
        ground arith,
        ground arith,
        ground arith,
      )

  -- A new offer can be accepted at once, by an authorized seller who names its version and terms;
  -- an accepted offer cannot be accepted again.
  pub create_then_accept :
      (i : CreateOfferInput) (o : LifecycleOffer) (terms later : Text)
      → create_financing_offer platform i ≡ ok o
      → let p = record o { status = accepted; version = 2 } in
        (accept_financing_offer platform o 1 o.terms_hash true o.created_at ≡ ok p)
        × (accept_financing_offer platform p 2 terms true later
            ≡ err (domain_error invalid_state_transition))
  unfolding create_financing_offer accept_financing_offer
  create_then_accept i o terms later e = (
    (accept_financing_offer_exact o 1 o.terms_hash true o.created_at _).1 (
      ground arith,
      refl,
      ground arith,
      (create_financing_offer_bounds i o e).7,
      refl,
      ground arith,
    ),
    ground arith,
  )
