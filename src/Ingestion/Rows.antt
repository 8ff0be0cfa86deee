-- ===== src/Ingestion/Rows.antt =====
-- apps/api/src/modules/ingestion/domain/canonical-csv.ts: `normalizeRow`.
use Prim.Native.String.{String}
use jejak.Prelude.{ℕ, Bool, true, false, not, ◌||◌, Option, none, some, List, [], ◌∷◌}
use jejak.Prelude.Tests.{ltb, ◌==◌, if◌then◌else◌}
use jejak.Prelude.Lists.{length, all}
use jejak.Prelude.Text.{Text, codes, is_digit, is_nil, is_integer}
use jejak.Shared.Errors.{Result, ok, ◌>>=◌}
use jejak.Shared.Json.{Json, Platform, string, object, end, field, optional_text}
use jejak.Shared.Hash.{sorted_hash}
use jejak.Shared.Money.{MoneyValue, money_json, is_currency, is_scale}
use jejak.Ingestion.Cells.{
  Clock, column, is_formula, normalized_timestamp, scale_number, row_issue, optional_headers,
}
use jejak.Ingestion.Types.{
  DataQualityIssue, CanonicalMarketplaceEvent, MarketplaceEventType, event_type_of, event_type_text,
}

-- What `normalizeRow` returns: an event, or none with the issues of the row.
pub record NormalizedRow : Type 0 where
  pub event : Option CanonicalMarketplaceEvent
  pub issues : List DataQualityIssue

-- The issues of the tests that hold, in order.
unfoldable pub issues_of : List (Bool × DataQualityIssue) → List DataQualityIssue
issues_of [] = []
issues_of ((test, issue) ∷ checks) =
    let rest = issues_of checks in if test then issue ∷ rest else rest

abbrev absent {ℓ} : {A : Type ℓ} → Option A → Bool
absent none = true
absent (some a) = false

-- `value ? { key: value } : {}`
abbrev nonempty : Text → Option Text
nonempty t = if is_nil t then none else some t

abbrev no_issue : List DataQualityIssue → Bool
no_issue [] = true
no_issue (x ∷ xs) = false

abbrev pub formula_checks : ℕ → List Text → List Text → List Text → List (Bool × DataQualityIssue)
formula_checks row_number headers values [] = []
formula_checks row_number headers values (name ∷ names) =
    (
      is_formula (column name headers values),
      row_issue row_number name (codes "Formula-like text is not accepted."),
    )
    ∷ formula_checks row_number headers values names

module _ (clock : Clock) (values headers : List Text) (row_number : ℕ) where
  abbrev pub value_of : Text → Text
  value_of name = column name headers values

  abbrev pub currency_of : Text
  currency_of = clock.upper (value_of (codes "currency"))

  abbrev pub identity_of : Text
  identity_of = value_of (codes "external_event_id")

  abbrev pub event_type_read : Option MarketplaceEventType
  event_type_read = event_type_of (clock.upper (value_of (codes "event_type")))

  abbrev pub occurred_at_read : Option Text
  occurred_at_read = normalized_timestamp clock (value_of (codes "occurred_at"))

  unfoldable pub row_checks : List (Bool × DataQualityIssue)
  unfolding column is_formula row_issue event_type_of normalized_timestamp scale_number
  row_checks =
      (absent event_type_read, issue "event_type" "Unsupported marketplace event type.")
      ∷ (
        is_nil identity_of || ltb 255 (length identity_of),
        issue "external_event_id" "External event ID is required.",
      )
      ∷ (absent occurred_at_read, issue "occurred_at" "Timestamp must be UTC RFC 3339.")
      ∷ (
        not (is_integer (value_of (codes "amount_minor"))),
        issue "amount_minor" "Amount must be a canonical integer string.",
      )
      ∷ (not (is_currency currency_of), issue "currency" "Currency must be an uppercase code.")
      ∷ (
        is_nil scale || not (all is_digit scale) || not (is_scale (scale_number scale)),
        issue "scale" "Scale must be an integer from 0 through 18.",
      )
      ∷ formula_checks row_number headers values (codes "external_event_id" ∷ optional_headers)
    where
      scale : Text
      scale = value_of (codes "scale")

      issue : String → String → DataQualityIssue
      issue name detail = row_issue row_number (codes name) (codes detail)

  unfoldable pub row_amount : MoneyValue
  unfolding column scale_number
  row_amount = record {
    amount_minor = value_of (codes "amount_minor");
    currency = currency_of;
    scale = scale_number (value_of (codes "scale"));
    issuer = none;
  }

  -- `safeRow`, as the JSON that is hashed.
  unfoldable pub safe_row : MarketplaceEventType → Text → Json
  unfolding column row_amount
  safe_row event_type occurred_at = object (
      field (codes "externalEventId") (string identity_of) (
        field (codes "eventType") (string (event_type_text event_type)) (
          field (codes "occurredAt") (string occurred_at) (
            field (codes "amount") (money_json row_amount) (
              field (codes "orderReference") (optional (codes "order_reference")) (
                field (codes "payoutReference") (optional (codes "payout_reference"))
                  (field (codes "sourceStatus") (optional (codes "source_status")) end)))))))
    where
      optional : Text → Json
      optional name = optional_text (nonempty (value_of name))

  unfoldable pub row_event : MarketplaceEventType → Text → Text → CanonicalMarketplaceEvent
  unfolding column row_amount
  row_event event_type occurred_at hash = record {
    external_event_id = identity_of;
    event_type = event_type;
    occurred_at = occurred_at;
    amount = row_amount;
    order_reference = nonempty (value_of (codes "order_reference"));
    payout_reference = nonempty (value_of (codes "payout_reference"));
    source_status = nonempty (value_of (codes "source_status"));
    source_row_hash = hash;
    source_row_number = row_number;
  }

abbrev refused : List DataQualityIssue → NormalizedRow
refused issues = record { event = none; issues = issues }

abbrev pub accepted : CanonicalMarketplaceEvent → NormalizedRow
accepted event = record { event = some event; issues = [] }

module _ (platform : Platform) (clock : Clock) (values headers : List Text) (row_number : ℕ) where
  -- A row without issues has a type and a time.
  unfoldable pub accept_row :
      Option MarketplaceEventType → Option Text → List DataQualityIssue → Result NormalizedRow
  unfolding safe_row row_event sorted_hash
  accept_row none occurred_at issues = ok (refused issues)
  accept_row (some ty) none issues = ok (refused issues)
  accept_row (some ty) (some time) (x ∷ xs) = ok (refused (x ∷ xs))
  accept_row (some ty) (some time) [] = do
    hash ← sorted_hash platform (safe_row clock values headers row_number ty time)
    ok (accepted (row_event clock values headers row_number ty time hash))

  unfoldable pub normalize_row : Result NormalizedRow
  unfolding accept_row row_checks issues_of column
  normalize_row =
      if length values == length headers
      then accept_row event_type occurred_at
          (issues_of (row_checks clock values headers row_number))
      else ok (refused (count_issue ∷ []))
    where
      event_type : Option MarketplaceEventType
      event_type = event_type_read clock values headers row_number

      occurred_at : Option Text
      occurred_at = occurred_at_read clock values headers row_number

      count_issue : DataQualityIssue
      count_issue =
          row_issue row_number (codes "row") (codes "Row column count does not match header.")
