-- ===== src/Ingestion/Types.antt =====
-- apps/api/src/modules/ingestion/domain/types.ts: the events of a marketplace, the issues of the
-- data and the report on them.
use jejak.Prelude.{ℕ, Bool, Option, none, some, List}
use jejak.Prelude.Tests.{if◌then◌else◌}
use jejak.Prelude.Text.{Text, codes, text_eq}
use jejak.Shared.Money.{MoneyValue}

pub data MarketplaceEventType : Type 0 where
  order_settled payout refund return chargeback fee adjustment : MarketplaceEventType

abbrev pub event_type_text : MarketplaceEventType → Text
event_type_text order_settled = codes "ORDER_SETTLED"
event_type_text payout = codes "PAYOUT"
event_type_text refund = codes "REFUND"
event_type_text return = codes "RETURN"
event_type_text chargeback = codes "CHARGEBACK"
event_type_text fee = codes "FEE"
event_type_text adjustment = codes "ADJUSTMENT"

-- The type that a text names, when `marketplaceEventTypes` includes it.
unfoldable pub event_type_of : Text → Option MarketplaceEventType
unfolding text_eq
event_type_of t =
    if text_eq t (event_type_text order_settled)
    then some order_settled
    else if text_eq t (event_type_text payout)
    then some payout
    else if text_eq t (event_type_text refund)
    then some refund
    else if text_eq t (event_type_text return)
    then some return
    else if text_eq t (event_type_text chargeback)
    then some chargeback
    else if text_eq t (event_type_text fee)
    then some fee
    else if text_eq t (event_type_text adjustment)
    then some adjustment
    else none

pub record CanonicalMarketplaceEvent : Type 0 where
  pub external_event_id : Text
  pub event_type : MarketplaceEventType
  pub occurred_at : Text
  pub amount : MoneyValue
  pub order_reference : Option Text
  pub payout_reference : Option Text
  pub source_status : Option Text
  pub source_row_hash : Text
  pub source_row_number : ℕ

pub data IssueCode : Type 0 where
  data_inconsistent missing_payout_history : IssueCode

pub data Severity : Type 0 where
  warning blocking : Severity

pub record DataQualityIssue : Type 0 where
  pub code : IssueCode
  pub severity : Severity
  pub blocks_automation : Bool
  pub row_number : Option ℕ
  pub field : Option Text
  pub detail : Text

pub data Format : Type 0 where
  jejak_canonical_csv_v1 jejak_marketplace_batch_v1 : Format

pub record IngestionQualityReport : Type 0 where
  pub format : Format
  pub total_rows : ℕ
  pub valid_unique_rows : ℕ
  pub duplicate_rows : ℕ
  pub rejected_rows : ℕ
  pub quality_score_bps : ℕ
  pub issues : List DataQualityIssue

pub record ParsedIngestion : Type 0 where
  pub events : List CanonicalMarketplaceEvent
  pub report : IngestionQualityReport
