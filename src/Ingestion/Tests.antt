-- ===== src/Ingestion/Tests.antt =====
-- A file of three rows: an order, the same order again, and a refund that is dated in no time zone.
use jejak.Prelude.{ℕ, Bool, true, false, ◌≡◌, refl, none, some, List, [], ◌∷◌, ◌++◌, arith}
use jejak.Prelude.Text.{
  Text, codes, text_eq, text_mem, unique, is_integer, is_natural, is_positive_integer, digits_value,
}
use jejak.Shared.Errors.{ok, err, validation_error}
use jejak.Shared.Action.{Action, give}
use jejak.Shared.Json.{Platform}
use jejak.Shared.Hash.{sorted_hash, sort_keys}
use jejak.Shared.Sample.{sample_platform, rupiah}
use jejak.Shared.Money.{is_currency, is_scale}
use jejak.Ingestion.Csv.{
  default_limits, parse_rfc4180, scan, read_unit, quoted_unit, plain_unit, push_field, push_row,
  last_row,
}
use jejak.Ingestion.Csv.RoundTrip.{Line, csv_text, parse_rfc4180-csv_text}
use jejak.Ingestion.Types.{
  CanonicalMarketplaceEvent, ParsedIngestion, DataQualityIssue, jejak_canonical_csv_v1,
  order_settled, event_type_of,
}
use jejak.Ingestion.Cells.{Clock, row_issue}
use jejak.Ingestion.Report.{CsvOptions, parse_canonical_csv}
use jejak.Ingestion.Report.Counts.{IsAccounted, parse_canonical_csv-IsAccounted}
use jejak.Ingestion.Reading.{PersistedIngestionInput, PersistedIngestionResult, IngestInput}
use jejak.Ingestion.Service.{Outcome, ingest_canonical_csv, ingest_canonical_csv-Outcome}

-- `"id","say ""hi"""` and `1,` with CRLF.
abbrev two_lines : List Line
two_lines =
    (
      record { quoted = true; value = codes "id" },
      record { quoted = true; value = codes "say \"hi\"" } ∷ [],
    )
    ∷ (record { quoted = false; value = codes "1" }, record { quoted = false; value = [] } ∷ [])
    ∷ []

parse_rfc4180-csv_text_example :
    parse_rfc4180 default_limits (csv_text true two_lines)
    ≡ ok ((codes "id" ∷ codes "say \"hi\"" ∷ []) ∷ (codes "1" ∷ [] ∷ []) ∷ [])
parse_rfc4180-csv_text_example =
    parse_rfc4180-csv_text default_limits true two_lines refl (omega arith)

abbrev quote_in_field : Text
quote_in_field = codes "a\"b"

parse_rfc4180-quote : parse_rfc4180 default_limits quote_in_field ≡ err validation_error
unfolding parse_rfc4180 scan read_unit plain_unit last_row
parse_rfc4180-quote = refl

abbrev clock : Clock
clock = record { upper = λ t. t; iso_date = λ t. some t }

abbrev header : Text
header = codes "external_event_id,event_type,occurred_at,amount_minor,currency,scale"

abbrev line_end : Text
line_end = 10 ∷ []

abbrev file : Text
file =
    header
    ++ line_end
    ++ codes "e1,ORDER_SETTLED,2026-01-02T03:04:05Z,1000,IDR,2"
    ++ line_end
    ++ codes "e1,ORDER_SETTLED,2026-01-02T03:04:05Z,1000,IDR,2"
    ++ line_end
    ++ codes "e2,REFUND,2026-01-02T03:04:05,-5,IDR,2"
    ++ line_end

abbrev options : CsvOptions
options = record { max_bytes = none; max_rows = none; max_field_length = none }

-- A platform on which every text has the same hash, as the bytes have.
abbrev platform : Platform
platform = record sample_platform { sha256 = λ t. codes "00" }

abbrev order : CanonicalMarketplaceEvent
order = record {
  external_event_id = codes "e1";
  event_type = order_settled;
  occurred_at = codes "2026-01-02T03:04:05Z";
  amount = rupiah (codes "1000");
  order_reference = none;
  payout_reference = none;
  source_status = none;
  source_row_hash = codes "00";
  source_row_number = 2;
}

abbrev untimed : DataQualityIssue
unfolding row_issue
untimed = row_issue 4 (codes "occurred_at") (codes "Timestamp must be UTC RFC 3339.")

-- What the file is parsed to.
abbrev parsed : ParsedIngestion
parsed = record {
  events = order ∷ [];
  report = record {
    format = jejak_canonical_csv_v1;
    total_rows = 3;
    valid_unique_rows = 1;
    duplicate_rows = 1;
    rejected_rows = 1;
    quality_score_bps = 3333;
    issues = untimed ∷ [];
  };
}

file-parsed : parse_canonical_csv platform clock some file options ≡ ok parsed
unfolding parse_canonical_csv parse_rfc4180 scan read_unit quoted_unit plain_unit push_field
    push_row last_row text_eq text_mem unique is_integer is_natural is_positive_integer digits_value
    is_currency is_scale sorted_hash sort_keys event_type_of
file-parsed = refl

parse_canonical_csv-IsAccounted_example : IsAccounted platform clock some file options parsed
parse_canonical_csv-IsAccounted_example =
    parse_canonical_csv-IsAccounted platform clock some file options parsed file-parsed

-- Whether the repository was called.
abbrev read_file : Text → Action Bool (List ℕ)
read_file key = give file

abbrev persist : PersistedIngestionInput → Action Bool PersistedIngestionResult
persist input stored = (
  ok (record { ingestion_id = codes "i1"; report = input.parsed.report; replayed = stored }),
  true,
)

abbrev request : IngestInput
request = record {
  tenant_id = codes "t1";
  seller_id = codes "s1";
  storage_object_key = codes "k1";
  expected_content_hash = codes "00";
  limits = options;
}

abbrev sha256_bytes : List ℕ → Text
sha256_bytes bytes = codes "00"

ingest_canonical_csv-Outcome_example :
    Outcome platform clock some sha256_bytes read_file persist request file false
      (ingest_canonical_csv platform clock some sha256_bytes read_file persist request false)
ingest_canonical_csv-Outcome_example =
    ingest_canonical_csv-Outcome platform clock some sha256_bytes read_file persist request false
      false file refl

abbrev altered : IngestInput
altered = record request { expected_content_hash = codes "01" }

ingest_canonical_csv-altered :
    ingest_canonical_csv platform clock some sha256_bytes read_file persist altered false
    ≡ (err validation_error, false)
unfolding ingest_canonical_csv text_eq
ingest_canonical_csv-altered = refl
