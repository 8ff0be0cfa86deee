-- ===== src/Risk/Features.antt =====
-- apps/api/src/modules/risk/domain/feature-snapshot.ts: the features of a claim, from the events of
-- its marketplace up to the cutoff of a snapshot.
--
-- `Number` of a bigint, which rounds, is a parameter. The tenure in days is computed in integers: a
-- date is a whole number of milliseconds below 2 ^ 53, for which the division of the source and its
-- floor agree with that.
pub mod Cutoff
use jejak.Prelude.{Bool, true, false, not, ◌&&◌, ◌||◌, Option, none, some, List, [], ◌∷◌}
use jejak.Prelude.Tests.{if◌then◌else◌}
use jejak.Prelude.Int.{ℤ, pos, ◌+ℤ◌, ◌-ℤ◌, ◌*ℤ◌, ◌/ℤ◌, ltb_ℤ, leb_ℤ}
use jejak.Prelude.Lists.{any, select}
use jejak.Prelude.Text.{Text, codes, text_eq}
use jejak.Shared.Errors.{Result, ok, err, ◌>>=◌}
use jejak.Shared.Number.{Number, int, nan}
use jejak.Shared.Json.{Json, Fields, number, boolean, object, end, field, Platform}
use jejak.Shared.Hash.{sorted_hash}
use jejak.Shared.Money.{MoneyValue, money_amount}
use jejak.Ingestion.Types.{
  MarketplaceEventType, order_settled, payout, refund, return, chargeback, fee, adjustment,
  event_type_text, CanonicalMarketplaceEvent,
}

-- Of a `DecisionSnapshot` (reconciliation/domain/snapshot.ts), the properties that are read.
pub record DecisionSnapshot : Type 0 where
  pub snapshot_cutoff_at : Text
  pub gross_unsettled : MoneyValue
  pub order_count : Number
  pub data_quality_score_bps : Number

pub record RiskFeatureSnapshot : Type 0 where
  pub features : Json
  pub feature_snapshot_hash : Text

unfoldable pub absolute : MoneyValue → Result ℤ
absolute amount = do
  value ← money_amount amount
  ok (if ltb_ℤ value (pos 0) then pos 0 -ℤ value else value)

-- `<=` and `<` of two dates, of which one may be NaN.
abbrev pub is_until : Option ℤ → Option ℤ → Bool
is_until (some a) (some b) = leb_ℤ a b
is_until _ _ = false

abbrev pub is_before : Option ℤ → Option ℤ → Bool
is_before (some a) (some b) = ltb_ℤ a b
is_before _ _ = false

abbrev pub same_type : MarketplaceEventType → CanonicalMarketplaceEvent → Bool
same_type kind event = text_eq (event_type_text event.event_type) (event_type_text kind)

-- `event.sourceStatus === "ACCOUNT_HOLD"`
abbrev pub is_hold : Option Text → Bool
is_hold none = false
is_hold (some status) = text_eq status (codes "ACCOUNT_HOLD")

-- The `reduce` of `sum`, over the events of one kind.
unfoldable pub sum_amounts : ℤ → List CanonicalMarketplaceEvent → Result ℤ
sum_amounts total [] = ok total
sum_amounts total (event ∷ events) = do
  amount ← absolute event.amount
  sum_amounts (total +ℤ amount) events

abbrev pub sum : MarketplaceEventType → List CanonicalMarketplaceEvent → Result ℤ
sum kind events = sum_amounts (pos 0) (select (same_type kind) events)

-- The dates of a `reduce` that starts with `undefined`, where each date may be NaN.
abbrev pub earlier : Option (Option ℤ) → Option ℤ → Option (Option ℤ)
earlier none occurred = some occurred
earlier (some earliest) occurred = some (if is_before occurred earliest then occurred else earliest)

-- `Math.max(0, Math.floor((cutoff - firstEventAt) / 86_400_000))`
abbrev pub tenure_days : Option ℤ → Option (Option ℤ) → Number
tenure_days cutoff none = int (pos 0)
tenure_days (some cutoff) (some (some first)) =
    if ltb_ℤ cutoff first then int (pos 0) else int ((cutoff -ℤ first) /ℤ pos 86400000)
tenure_days _ (some _) = nan

module _ (platform : Platform) (number_of : ℤ → Number) where
  unfoldable pub bps : ℤ → ℤ → Number
  bps numerator denominator =
      if leb_ℤ denominator (pos 0)
      then int (pos 0)
      else number_of ((numerator *ℤ pos 10000) /ℤ denominator)

  abbrev pub date_of : CanonicalMarketplaceEvent → Option ℤ
  date_of event = platform.date_value event.occurred_at

  -- The events up to the cutoff.
  abbrev pub is_included : DecisionSnapshot → CanonicalMarketplaceEvent → Bool
  is_included snapshot event =
      is_until (date_of event) (platform.date_value snapshot.snapshot_cutoff_at)

  unfoldable pub earliest_from :
      Option (Option ℤ) → List CanonicalMarketplaceEvent → Option (Option ℤ)
  earliest_from earliest [] = earliest
  earliest_from earliest (event ∷ events) = earliest_from (earlier earliest (date_of event)) events

  abbrev pub features_json :
      DecisionSnapshot → List CanonicalMarketplaceEvent → ℤ → ℤ → ℤ → ℤ → Json
  features_json snapshot included gross refunds returns chargebacks = object (
      field (codes "missingPayoutHistory") (boolean (not (any (same_type payout) included))) (
        field (codes "refundRateBps") (number (bps refunds gross)) (
          field (codes "rtoRateBps") (number (bps returns gross)) (
            field (codes "chargebackRateBps") (number (bps chargebacks gross)) (
              field (codes "accountHold")
                (boolean (any (λ event. is_hold event.source_status) included))
                (field (codes "dataQualityScoreBps") (number snapshot.data_quality_score_bps) (
                  field (codes "orderCount") (number snapshot.order_count) (
                    field (codes "sellerTenureDays")
                      (number (
                        tenure_days (platform.date_value snapshot.snapshot_cutoff_at)
                          (earliest_from none included)))
                      end))))))))

  abbrev pub hash_features : Json → Result RiskFeatureSnapshot
  hash_features features = do
    hash ← sorted_hash platform features
    ok (record { features = features; feature_snapshot_hash = hash })

  abbrev pub features_of :
      DecisionSnapshot → List CanonicalMarketplaceEvent → Result RiskFeatureSnapshot
  features_of snapshot included = do
    gross ← money_amount snapshot.gross_unsettled
    refunds ← sum refund included
    returns ← sum return included
    chargebacks ← sum chargeback included
    hash_features (features_json snapshot included gross refunds returns chargebacks)

  unfoldable pub build_risk_feature_snapshot :
      DecisionSnapshot → List CanonicalMarketplaceEvent → Result RiskFeatureSnapshot
  build_risk_feature_snapshot snapshot events =
      features_of snapshot (select (is_included snapshot) events)
