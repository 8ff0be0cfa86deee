-- ===== src/Resolution/Finalization/Closing.antt =====
-- What has happened when a claim is closed
-- (apps/api/src/modules/resolution/application/finalization-service.ts).
use jejak.Prelude.{
  ◌≡◌, ◌≢◌, refl, sym, ◌⊎◌, Bool, true, false, not, ◌&&◌, Option, none, some, arith,
}
use jejak.Prelude.Tests.{◌==◌}
use jejak.Prelude.Text.{codes, text_mem, text_eq, text_eq_iff}
use jejak.Shared.Errors.{
  Result, Error, ok, err, throw_if, throw_if-eq-ok, domain_error, version_conflict,
  invalid_state_transition,
}
use jejak.Shared.Action.{
  Action, throw, ◌>>◌, continue_with, continue_with-lift, continue_with-eq-ok,
}
use jejak.Resolution.Finalization.{
  FinalizationSnapshot, FinalizationInput, Kind, redeemed, closed, closed_with_loss, redemption,
  resolution, ClaimFinalizationRepository, ClaimFinalizationReconciliationPort, closed_states,
  found_claim, required, reconciled_or_request, redeem_and_close, finalize_happy, finalize_adverse,
}

module _ {W : Type 0} (repository : ClaimFinalizationRepository W)
    (chain : ClaimFinalizationReconciliationPort W) (input : FinalizationInput) where
  -- The claim was loaded at the expected version, is not closed yet, and the chain has confirmed
  -- it; `w2` is the world after that.
  pub record Confirmed (kind : Kind) (claim : FinalizationSnapshot) (w w2 : W) : Type 0 where
    pub w1 : W
    pub loaded : repository.load input w ≡ (ok (some claim), w1)
    pub version : claim.version ≡ input.expected_version
    pub still_open : text_mem claim.state closed_states ≡ false
    pub reconciled : chain.is_reconciled input kind w1 ≡ (ok true, w2)

  -- The transitions of a closing by the state of the claim.
  abbrev pub ClosedFrom : Bool → FinalizationSnapshot → W → W → Type 0
  ClosedFrom true result w w' =
      (claim : FinalizationSnapshot) × (w1 : W) × (repository.transition input redeemed w
        ≡ (ok claim, w1))
      × (repository.transition (record input { expected_version = claim.version }) closed w1
          ≡ (ok result, w'))
  ClosedFrom false result w w' = repository.transition input closed w ≡ (ok result, w')

  found_claim-then :
      {B : Type 0} (o : Option FinalizationSnapshot) (w : W) (f : FinalizationSnapshot → Action W B)
      {b : B} {w' : W}
      → continue_with (found_claim repository chain o w) f ≡ (ok b, w')
      → (claim : FinalizationSnapshot) × (o ≡ some claim) × (f claim w ≡ (ok b, w'))
  found_claim-then none w f h = cc
  found_claim-then (some claim) w f h = (claim, refl, h)

  required-eq-ok :
      (claim : FinalizationSnapshot) (w w' : W)
      → required repository chain input w ≡ (ok claim, w')
      → (repository.load input w ≡ (ok (some claim), w'))
        × (claim.version ≡ input.expected_version)
        × (text_mem claim.state closed_states ≡ false)
  unfolding required
  required-eq-ok claim w w' h =
      let (found, w1, e, h1) = continue_with-eq-ok (repository.load input w) _ h in
      let (c, f, h2) = found_claim-then found w1 _ h1 in
      let (u, v, h3) =
        continue_with-lift
          (throw_if (not (c.version == input.expected_version)) (domain_error version_conflict)) w1
          _ h2 in
      let (u', t, h4) =
        continue_with-lift
          (throw_if (text_mem c.state closed_states) (domain_error invalid_state_transition)) w1 _
          h3 in
      let q : c ≡ claim = cc in
      let q' : w1 ≡ w' = cc in
      let v' = throw_if-eq-ok (not (c.version == input.expected_version)) _ v in
      let t' = throw_if-eq-ok (text_mem c.state closed_states) _ t in
      let v'' : c.version ≡ input.expected_version = ground arith in
      (rw (sym q, sym q', sym f) e, (rw (q) at v''), (rw (q) at t'))

  throws-after :
      {A B : Type 0} (r : Result A × W) (e : Error) (f : Unit {0} → Action W B) {b : B} {w' : W}
      → continue_with (continue_with r (λ _. throw e)) f ≢ (ok b, w')
  throws-after (ok a, w) e f h = cc
  throws-after (err d, w) e f h = cc

  reconciled-then :
      {B : Type 0} (kind : Kind) (r : Result Bool × W) (k : Action W B) {b : B} {w' : W}
      → continue_with r
          (λ reconciled. reconciled_or_request repository chain input kind reconciled >> k)
        ≡ (ok b, w')
      → (w2 : W) × (r ≡ (ok true, w2)) × (k w2 ≡ (ok b, w'))
  reconciled-then kind (ok true, w) k h = (w, refl, h)
  reconciled-then kind (ok false, w) k h =
      absurd (throws-after (chain.request input kind w) _ (λ _. k) h)
  reconciled-then kind (err e, w) k h = cc

  redeem_and_close-ClosedFrom :
      (b : Bool) (result : FinalizationSnapshot) (w w' : W)
      → redeem_and_close repository chain input b w ≡ (ok result, w')
      → ClosedFrom b result w w'
  redeem_and_close-ClosedFrom true result w w' h = continue_with-eq-ok _ _ h
  redeem_and_close-ClosedFrom false result w w' h = h

  -- A claim that is closed was loaded at the expected version, in the state REPAID or REDEEMED, and
  -- its redemption was confirmed by the chain. From REPAID it has first become redeemed, and the
  -- version of that transition is the one at which it is closed.
  pub finalize_happy_closing :
      (result : FinalizationSnapshot) (w w' : W)
      → finalize_happy repository chain input w ≡ (ok result, w')
      → (claim : FinalizationSnapshot) × (w2 : W) × Confirmed redemption claim w w2
        × ((claim.state ≡ codes "REPAID") ⊎ (claim.state ≡ codes "REDEEMED"))
        × ClosedFrom (text_eq claim.state (codes "REPAID")) result w2 w'
  unfolding finalize_happy
  finalize_happy_closing result w w' h =
      let (claim, w1, e, h1) = continue_with-eq-ok (required repository chain input w) _ h in
      let (l, v, o) = required-eq-ok claim w w1 e in
      let (u, t, h2) =
        continue_with-lift (throw_if _ (domain_error invalid_state_transition)) w1 _ h1 in
      let (w2, r, h3) =
        reconciled-then redemption (chain.is_reconciled input redemption w1)
          (redeem_and_close repository chain input (text_eq claim.state (codes "REPAID"))) h2 in
      let q =
        throw_if-eq-ok
          (not (text_eq claim.state (codes "REPAID"))
            && not (text_eq claim.state (codes "REDEEMED")))
          _ t in
      (
        claim,
        w2,
        record { w1 = w1; loaded = l; version = v; still_open = o; reconciled = r },
        ground (
          arith,
          text_eq_iff claim.state (codes "REPAID"),
          text_eq_iff claim.state (codes "REDEEMED"),
        ),
        redeem_and_close-ClosedFrom _ result w2 w' h3,
      )

  -- A claim that is closed with a loss was loaded at the expected version, in the state RESOLUTION,
  -- and its resolution was confirmed by the chain.
  pub finalize_adverse_closing :
      (result : FinalizationSnapshot) (w w' : W)
      → finalize_adverse repository chain input w ≡ (ok result, w')
      → (claim : FinalizationSnapshot) × (w2 : W) × Confirmed resolution claim w w2
        × (claim.state ≡ codes "RESOLUTION")
        × (repository.transition input closed_with_loss w2 ≡ (ok result, w'))
  unfolding finalize_adverse
  finalize_adverse_closing result w w' h =
      let (claim, w1, e, h1) = continue_with-eq-ok (required repository chain input w) _ h in
      let (l, v, o) = required-eq-ok claim w w1 e in
      let (u, t, h2) =
        continue_with-lift (throw_if _ (domain_error invalid_state_transition)) w1 _ h1 in
      let (w2, r, h3) = reconciled-then resolution (chain.is_reconciled input resolution w1) _ h2 in
      let q = throw_if-eq-ok (not (text_eq claim.state (codes "RESOLUTION"))) _ t in
      (
        claim,
        w2,
        record { w1 = w1; loaded = l; version = v; still_open = o; reconciled = r },
        ground (arith, text_eq_iff claim.state (codes "RESOLUTION")),
        h3,
      )
