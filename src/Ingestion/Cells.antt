-- ===== src/Ingestion/Cells.antt =====
-- apps/api/src/modules/ingestion/domain/canonical-csv.ts: the headers, and how
-- `normalizeRow` reads a cell.
--
-- `toUpperCase`, and `new Date(value)` with `toISOString`, are JavaScript's: the fields of `Clock`.
use jejak.Prelude.{ℕ, Bool, true, false, ◌&&◌, ◌||◌, Option, none, some, List, [], ◌∷◌, ◌++◌}
use jejak.Prelude.Tests.{◌==◌, if◌then◌else◌}
use jejak.Prelude.Lists.{all}
use jejak.Prelude.Int.{pos}
use jejak.Prelude.Text.{Text, codes, is_digit, is_nil, text_eq, text_mem, digits_value}
use jejak.Shared.Number.{Number, int, nan}
use jejak.Ingestion.Types.{DataQualityIssue, data_inconsistent, blocking}

abbrev pub required_headers : List Text
required_headers =
    codes "external_event_id"
    ∷ codes "event_type"
    ∷ codes "occurred_at"
    ∷ codes "amount_minor"
    ∷ codes "currency"
    ∷ codes "scale"
    ∷ []

abbrev pub optional_headers : List Text
optional_headers = codes "order_reference" ∷ codes "payout_reference" ∷ codes "source_status" ∷ []

abbrev pub allowed_headers : List Text
allowed_headers = required_headers ++ optional_headers

-- /^[=+\-@]/
unfoldable pub is_formula : Text → Bool
is_formula [] = false
is_formula (c ∷ t) = c == b'=' || c == b'+' || c == b'-' || c == b'@'

pub record Clock : Type 0 where
  pub upper : Text → Text
  -- `new Date(value).toISOString()`, or `none` where the date is NaN.
  pub iso_date : Text → Option Text

-- What follows the units of a shape, in which `0` stands for a digit.
unfoldable after_shape : Text → Text → Option Text
after_shape [] t = some t
after_shape (p ∷ ps) [] = none
after_shape (p ∷ ps) (c ∷ t) =
    let rest = after_shape ps t in if (if p == b'0' then is_digit c else c == p) then rest else none

-- Digits, one at least once `seen` is set, and then `Z` as the end of the text.
unfoldable fraction_end : Bool → Text → Bool
fraction_end seen [] = false
fraction_end seen (c ∷ t) =
    let rest = fraction_end true t in if is_digit c then rest else seen && c == b'Z' && is_nil t

unfoldable zone_end : Text → Bool
unfolding fraction_end
zone_end [] = false
zone_end (c ∷ t) = if c == b'.' then fraction_end false t else c == b'Z' && is_nil t

abbrev zone_of : Option Text → Bool
zone_of none = false
zone_of (some t) = zone_end t

-- /^\d{4}-\d{2}-\d{2}T\d{2}:\d{2}:\d{2}(?:\.\d+)?Z$/
unfoldable pub is_utc_timestamp : Text → Bool
unfolding after_shape zone_end
is_utc_timestamp t = zone_of (after_shape (codes "0000-00-00T00:00:00") t)

unfoldable after_prefix : Text → Text → Option Text
after_prefix [] t = some t
after_prefix (p ∷ ps) [] = none
after_prefix (p ∷ ps) (c ∷ t) = let rest = after_prefix ps t in if c == p then rest else none

-- `text.replace(".000Z", "Z")`: the first occurrence.
unfoldable replace_millis : Text → Text
unfolding after_prefix
replace_millis [] = []
replace_millis (c ∷ t) =
    let rest = replace_millis t in
    elim (after_prefix (codes ".000Z") (c ∷ t)) [ none ↦ c ∷ rest | some tail ↦ b'Z' ∷ tail ]

unfoldable pub normalized_timestamp : Clock → Text → Option Text
unfolding is_utc_timestamp replace_millis
normalized_timestamp clock value =
    if is_utc_timestamp value
    then elim (clock.iso_date value) [ none ↦ none | some iso ↦ some (replace_millis iso) ]
    else none

unfoldable pub row_issue : ℕ → Text → Text → DataQualityIssue
row_issue row_number name detail = record {
  code = data_inconsistent;
  severity = blocking;
  blocks_automation = true;
  row_number = some row_number;
  field = some name;
  detail = detail;
}

-- `record[name] ?? ""` for the object of a row: the value at the last header of that name.
unfoldable pub column : Text → List Text → List Text → Text
column name [] values = []
column name (h ∷ hs) [] = []
column name (h ∷ hs) (v ∷ vs) =
    let rest = column name hs vs in
    if text_mem name hs then rest else if text_eq h name then v else []

-- `Number(text)` of a text of digits; one that is not digits is refused before it is looked at.
unfoldable pub scale_number : Text → Number
scale_number t = if all is_digit t then int (pos (digits_value 0 t)) else nan
