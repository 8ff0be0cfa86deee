-- ===== src/Ingestion/Report.antt =====
-- apps/api/src/modules/ingestion/domain/canonical-csv.ts: `parseCanonicalCsv`.
--
-- `TextDecoder("utf-8", { fatal: true })` is a parameter, `none` where it throws. The Map of
-- identities is the list of its entries.
pub mod Invariant
pub mod Counts
pub mod Canonical
pub mod Origin
use jejak.Prelude.{
  ℕ, suc, ◌+◌, ◌*◌, ◌/◌, Bool, true, false, not, Option, none, some, List, [], ◌∷◌, ◌++◌,
}
use jejak.Prelude.Tests.{ltb, ◌==◌, if◌then◌else◌}
use jejak.Prelude.Lists.{length, any, select}
use jejak.Prelude.Text.{Text, codes, is_nil, text_eq, text_mem, unique}
use jejak.Shared.Errors.{Result, ok, err, ◌>>=◌, ◌>>◌, throw_if, validation_error}
use jejak.Shared.Json.{Platform}
use jejak.Ingestion.Csv.{CsvLimits, default_limits, parse_rfc4180}
use jejak.Ingestion.Types.{
  DataQualityIssue, CanonicalMarketplaceEvent, IngestionQualityReport, ParsedIngestion,
  missing_payout_history, blocking, jejak_canonical_csv_v1,
}
use jejak.Ingestion.Cells.{Clock, required_headers, allowed_headers, row_issue}
use jejak.Ingestion.Rows.{NormalizedRow, normalize_row}

-- `Partial<CsvLimits>`
pub record CsvOptions : Type 0 where
  pub max_bytes : Option ℕ
  pub max_rows : Option ℕ
  pub max_field_length : Option ℕ

abbrev or_default : Option ℕ → ℕ → ℕ
or_default none d = d
or_default (some n) d = n

abbrev pub limits_of : CsvOptions → CsvLimits
limits_of o = record {
  max_bytes = or_default o.max_bytes default_limits.max_bytes;
  max_rows = or_default o.max_rows default_limits.max_rows;
  max_field_length = or_default o.max_field_length default_limits.max_field_length;
}

-- `identities.get(id)`
unfoldable pub identity_hash : Text → List (Text × Text) → Option Text
identity_hash id [] = none
identity_hash id ((key, hash) ∷ es) =
    let rest = identity_hash id es in if text_eq key id then some hash else rest

-- The variables of the loop over the rows.
pub record Tally : Type 0 where
  pub issues : List DataQualityIssue
  pub events : List CanonicalMarketplaceEvent
  pub identities : List (Text × Text)
  pub duplicate_rows : ℕ
  pub rejected_rows : ℕ

abbrev pub empty_tally : Tally
empty_tally = record {
  issues = [];
  events = [];
  identities = [];
  duplicate_rows = 0;
  rejected_rows = 0;
}

abbrev pub conflict_issue : CanonicalMarketplaceEvent → DataQualityIssue
unfolding row_issue
conflict_issue event =
    row_issue event.source_row_number (codes "external_event_id")
      (codes "External event ID conflicts with a different canonical row.")

-- The rest of the loop's body, with `previousHash`.
unfoldable pub tally_event : CanonicalMarketplaceEvent → Option Text → Tally → Tally
tally_event event none t = record t {
  identities = (event.external_event_id, event.source_row_hash) ∷ t.identities;
  events = t.events ++ (event ∷ []);
}
tally_event event (some previous) t =
    if text_eq previous event.source_row_hash
    then record t { duplicate_rows = suc t.duplicate_rows }
    else record t {
      rejected_rows = suc t.rejected_rows;
      issues = t.issues ++ (conflict_issue event ∷ []);
    }

unfoldable pub tally_result : NormalizedRow → Tally → Tally
unfolding tally_event identity_hash
tally_result result t =
    let noted = record t { issues = t.issues ++ result.issues } in
    elim result.event [
      | none ↦ record noted { rejected_rows = suc t.rejected_rows }
      | some event ↦ tally_event event (identity_hash event.external_event_id t.identities) noted
    ]

abbrev pub is_data_row : List Text → Bool
is_data_row = any λ value. not (is_nil value)

abbrev pub check_headers : List Text → Result (Unit {0})
unfolding unique text_mem
check_headers headers = do
  throw_if (not (length (unique headers) == length headers)) validation_error
  throw_if (any (λ name. not (text_mem name headers)) required_headers) validation_error
  throw_if (any (λ name. not (text_mem name allowed_headers)) headers) validation_error

unfoldable pub no_data_issues : List (List Text) → List DataQualityIssue
no_data_issues (row ∷ rows) = []
no_data_issues [] =
    record {
      code = missing_payout_history;
      severity = blocking;
      blocks_automation = true;
      row_number = none;
      field = none;
      detail = codes "No marketplace event rows were supplied.";
    }
    ∷ []

unfoldable pub quality_score : ℕ → List (List Text) → ℕ
quality_score valid [] = 0
quality_score valid (row ∷ rows) = valid * 10000 / length (row ∷ rows)

-- The value that is returned for the data rows and what the loop left.
unfoldable pub quality_report : List (List Text) → Tally → ParsedIngestion
unfolding no_data_issues quality_score
quality_report data_rows t = record {
  events = t.events;
  report = record {
    format = jejak_canonical_csv_v1;
    total_rows = length data_rows;
    valid_unique_rows = length t.events;
    duplicate_rows = t.duplicate_rows;
    rejected_rows = t.rejected_rows;
    quality_score_bps = quality_score (length t.events) data_rows;
    issues = t.issues ++ no_data_issues data_rows;
  };
}

module _ (platform : Platform) (clock : Clock) (decode : List ℕ → Option Text) where
  unfoldable pub tally_rows : List Text → ℕ → List (List Text) → Tally → Result Tally
  unfolding tally_result normalize_row
  tally_rows headers row_number [] t = ok t
  tally_rows headers row_number (row ∷ rows) t = do
    result ← normalize_row platform clock row headers row_number
    tally_rows headers (suc row_number) rows (tally_result result t)

  unfoldable pub read_rows : List (List Text) → Result ParsedIngestion
  unfolding tally_rows quality_report unique text_mem
  read_rows [] = err validation_error
  read_rows (headers ∷ rows) = do
    check_headers headers
    let data_rows = select is_data_row rows
    tally ← tally_rows headers 2 data_rows empty_tally
    ok (quality_report data_rows tally)

  unfoldable pub read_text : CsvLimits → Option Text → Result ParsedIngestion
  unfolding read_rows parse_rfc4180
  read_text limits none = err validation_error
  read_text limits (some text) = parse_rfc4180 limits text >>= read_rows

  unfoldable pub parse_canonical_csv : List ℕ → CsvOptions → Result ParsedIngestion
  unfolding read_text
  parse_canonical_csv bytes configured = do
    let limits = limits_of configured
    throw_if (ltb limits.max_bytes (length bytes)) validation_error
    read_text limits (decode bytes)
