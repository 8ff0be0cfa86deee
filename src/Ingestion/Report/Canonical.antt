-- ===== src/Ingestion/Report/Canonical.antt =====
-- The events that `normalizeRow` accepts.
use jejak.Prelude.{
  ℕ, ◌≤◌, Bool, true, false, not, ◌≡◌, refl, Option, none, some, List, [], ◌∷◌, inl, inr, ◌||◌,
  arith,
}
use jejak.Prelude.Tests.{ltb, ◌==◌, Bool-cases}
use jejak.Prelude.Lists.{length}
use jejak.Prelude.Text.{Text, is_nil, is_integer}
use jejak.Shared.Errors.{ok, >>=-eq-ok}
use jejak.Shared.Json.{Platform}
use jejak.Shared.Hash.{sorted_hash}
use jejak.Shared.Money.{MoneyValue, is_currency, is_scale, assert_money}
use jejak.Ingestion.Types.{DataQualityIssue, CanonicalMarketplaceEvent, MarketplaceEventType}
use jejak.Ingestion.Cells.{Clock, is_formula}
use jejak.Ingestion.Rows.{
  NormalizedRow, issues_of, row_checks, row_amount, identity_of, row_event, safe_row, accepted,
  accept_row, normalize_row,
}

-- An amount that the guards of money accept, and an identity of 1 to 255 units that is no formula.
pub record IsCanonical (e : CanonicalMarketplaceEvent) : Type 0 where
  pub sound_amount : assert_money e.amount ≡ ok tt
  pub named : is_nil e.external_event_id ≡ false
  pub short : length e.external_event_id ≤ 255
  pub harmless : is_formula e.external_event_id ≡ false

-- Tests none of which holds.
abbrev Passed : List (Bool × DataQualityIssue) → Type 0
Passed [] = Unit
Passed ((test, issue) ∷ checks) = (test ≡ false) × Passed checks

issues_of-Passed : (checks : List (Bool × DataQualityIssue)) → issues_of checks ≡ [] → Passed checks
unfolding issues_of
issues_of-Passed [] h = tt
issues_of-Passed ((true, issue) ∷ checks) h = cc
issues_of-Passed ((false, issue) ∷ checks) h = (refl, issues_of-Passed checks h)

either : (a b : Bool) → (a || b) ≡ false → (a ≡ false) × (b ≡ false)
either a b h = ground arith

sound :
    (m : MoneyValue) (first : Bool)
    → not (is_integer m.amount_minor) ≡ false
    → not (is_currency m.currency) ≡ false
    → (first || not (is_scale m.scale)) ≡ false
    → assert_money m ≡ ok tt
unfolding assert_money
sound m first h k l = ground (arith, either first (not (is_scale m.scale)) l)

module _ (clock : Clock) (values headers : List Text) (row_number : ℕ) where
  row_event-IsCanonical :
      (ty : MarketplaceEventType) (time hash : Text)
      → issues_of (row_checks clock values headers row_number) ≡ []
      → IsCanonical (row_event clock values headers row_number ty time hash)
  unfolding row_checks row_event row_amount assert_money
  row_event-IsCanonical ty time hash h =
      let named = (issues_of-Passed (row_checks clock values headers row_number) h).1 in
      let amount = named.1.1 in
      let scale = amount.1.1 in
      let identity = identity_of clock values headers row_number in
      let (present, short) = either (is_nil identity) (ltb 255 (length identity)) named.0 in
      record {
        sound_amount =
            sound (row_amount clock values headers row_number) _ amount.0 amount.1.0 scale.0;
        named = present;
        short = ground (arith, short);
        harmless = scale.1.0;
      }

  accept_row-IsCanonical :
      (platform : Platform) (ty : Option MarketplaceEventType) (time : Option Text)
      (issues : List DataQualityIssue) {r : NormalizedRow} {e : CanonicalMarketplaceEvent}
      → issues_of (row_checks clock values headers row_number) ≡ issues
      → accept_row platform clock values headers row_number ty time issues ≡ ok r
      → r.event ≡ some e
      → IsCanonical e
  unfolding accept_row
  accept_row-IsCanonical platform none time issues n h k = cc
  accept_row-IsCanonical platform (some ty) none issues n h k = cc
  accept_row-IsCanonical platform (some ty) (some time) (x ∷ xs) n h k = cc
  accept_row-IsCanonical platform (some ty) (some time) [] {r = r} {e = e} n h k =
      let safe = safe_row clock values headers row_number ty time in
      let made =
        λ (hash : Text). ok (accepted (row_event clock values headers row_number ty time hash)) in
      let (hash, hashed, returned) = >>=-eq-ok (sorted_hash platform safe) made h in
      let canonical = row_event-IsCanonical ty time hash n in
      let same : row_event clock values headers row_number ty time hash ≡ e = cc in
      rw same at canonical

  -- An accepted row is canonical.
  pub normalize_row-IsCanonical :
      (platform : Platform) {r : NormalizedRow} {e : CanonicalMarketplaceEvent}
      → normalize_row platform clock values headers row_number ≡ ok r
      → r.event ≡ some e
      → IsCanonical e
  unfolding normalize_row accept_row
  normalize_row-IsCanonical platform {r = r} {e = e} h k =
      elim (Bool-cases (length values == length headers)) [
        | inl same ↦ accept_row-IsCanonical platform _ _ _ refl (rw same at h) k
        | inr other ↦ ground arith
      ]
