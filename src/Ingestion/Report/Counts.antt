-- ===== src/Ingestion/Report/Counts.antt =====
-- What a quality report accounts for.
use native.Mathlib.Nat.{div-le_of_le-mul}
use jejak.Prelude.{ℕ, suc, ◌+◌, ◌≤◌, true, Option, none, some, List, [], ◌∷◌, ◌≡◌, refl, ap, arith}
use jejak.Prelude.Tests.{ltb}
use jejak.Prelude.Lists.{length, select}
use jejak.Prelude.Text.{Text, text_mem}
use jejak.Shared.Errors.{ok, ◌>>=◌, >>=-eq-ok, >>-eq-ok, throw_if, validation_error}
use jejak.Shared.Json.{Platform}
use jejak.Ingestion.Csv.{parse_rfc4180}
use jejak.Ingestion.Types.{ParsedIngestion}
use jejak.Ingestion.Cells.{Clock}
use jejak.Ingestion.Rows.{normalize_row}
use jejak.Ingestion.Report.{
  Tally, CsvOptions, limits_of, empty_tally, identity_hash, tally_result, tally_rows, read_rows,
  read_text, check_headers, is_data_row, parse_canonical_csv, quality_report, quality_score,
}
use jejak.Ingestion.Report.Origin.{
  filled_rows, select-filled_rows, AllOf, FromRows, tally_rows-AllOf,
}
use jejak.Ingestion.Report.Canonical.{normalize_row-IsCanonical}
use jejak.Ingestion.Report.Invariant.{
  identities_of, distinct, AllCanonical, IsTally, retally, tally_result-IsTally,
}

-- What a report says of the rows below the headers. `total_rows` is the number of those with a value
-- that is not empty, and the events, the duplicates and the rejected rows add up to it. Each event is
-- what one of these rows is normalized to, by its number, and canonical; no two share an identity.
pub record IsCounted (platform : Platform) (clock : Clock) (headers : List Text)
    (rows : List (List Text)) (p : ParsedIngestion) : Type 0 where
  pub total : p.report.total_rows ≡ length (filled_rows rows)
  pub all_rows :
      p.report.valid_unique_rows + p.report.duplicate_rows + p.report.rejected_rows
      ≡ p.report.total_rows
  pub valid_rows : p.report.valid_unique_rows ≡ length p.events
  pub score : p.report.quality_score_bps ≤ 10000
  pub once : distinct (identities_of p.events) ≡ true
  pub canonical : AllCanonical p.events
  pub origin : AllOf (FromRows platform clock headers 2 (filled_rows rows)) p.events

-- The bytes decode to a text and the text to rows, the first of which are the headers.
pub record IsAccounted (platform : Platform) (clock : Clock) (decode : List ℕ → Option Text)
    (bytes : List ℕ) (configured : CsvOptions) (p : ParsedIngestion) : Type 0 where
  pub text : Text
  pub headers : List Text
  pub rows : List (List Text)
  pub decoded : decode bytes ≡ some text
  pub lines : parse_rfc4180 (limits_of configured) text ≡ ok (headers ∷ rows)
  pub counted : IsCounted platform clock headers rows p

module _ (platform : Platform) (clock : Clock) (decode : List ℕ → Option Text) where
  tally_rows-IsTally :
      (headers : List Text) (row_number : ℕ) (rows : List (List Text)) (n : ℕ) (t u : Tally)
      → tally_rows platform clock decode headers row_number rows t ≡ ok u
      → IsTally n t
      → IsTally (n + length rows) u
  unfolding tally_rows
  tally_rows-IsTally headers row_number [] n t u h i =
      let same : t ≡ u = cc in
      let kept = retally n (n + 0) t t refl refl i (omega (arith, i.counted)) in rw same at kept
  tally_rows-IsTally headers row_number (row ∷ rows) n t u h i =
      let (r, read, more) =
        >>=-eq-ok (normalize_row platform clock row headers row_number)
          (λ result.
            tally_rows platform clock decode headers (suc row_number) rows (tally_result result t))
          h in
      let one =
        tally_result-IsTally n t r
          (λ e k. normalize_row-IsCanonical clock row headers row_number platform read k) i in
      let all_rows =
        tally_rows-IsTally headers (suc row_number) rows (suc n) (tally_result r t) u more one in
      retally (suc n + length rows) (n + suc (length rows)) u u refl refl all_rows
        (omega (arith, all_rows.counted))

  empty_tally-IsTally : IsTally 0 empty_tally
  unfolding text_mem identity_hash distinct
  empty_tally-IsTally = record { counted = refl; known = λ id. refl; once = refl; canonical = tt }

  quality_report-score :
      (data_rows : List (List Text)) (t : Tally)
      → IsTally (length data_rows) t
      → (quality_report data_rows t).report.quality_score_bps ≤ 10000
  unfolding quality_report quality_score
  quality_report-score [] t h = omega arith
  quality_report-score (row ∷ rows) t h =
      div-le_of_le-mul (suc (length rows)) (omega (arith, h.counted))

  quality_report-IsCounted :
      (headers : List Text) (rows data_rows : List (List Text)) (t : Tally)
      → data_rows ≡ filled_rows rows
      → IsTally (length data_rows) t
      → AllOf (FromRows platform clock headers 2 (filled_rows rows)) t.events
      → IsCounted platform clock headers rows (quality_report data_rows t)
  unfolding quality_report
  quality_report-IsCounted headers rows data_rows t same h f = record {
    total = ap length same;
    all_rows = h.counted;
    valid_rows = refl;
    score = quality_report-score data_rows t h;
    once = h.once;
    canonical = h.canonical;
    origin = f;
  }

  tallied-IsCounted :
      (headers : List Text) (rows data_rows : List (List Text)) (t : Tally)
      → data_rows ≡ filled_rows rows
      → tally_rows platform clock decode headers 2 data_rows empty_tally ≡ ok t
      → IsCounted platform clock headers rows (quality_report data_rows t)
  tallied-IsCounted headers rows data_rows t same h =
      let counted = tally_rows-IsTally headers 2 data_rows 0 empty_tally t h empty_tally-IsTally in
      let origin =
        tally_rows-AllOf platform clock headers
          (FromRows platform clock headers 2 (filled_rows rows)) decode 2 data_rows empty_tally t
          (λ e f. rw same at f) h tt in
      quality_report-IsCounted headers rows data_rows t same
        (retally _ _ t t refl refl counted (omega (arith, counted.counted))) origin

  read_rows-IsCounted :
      (headers : List Text) (rows : List (List Text)) (p : ParsedIngestion)
      → read_rows platform clock decode (headers ∷ rows) ≡ ok p
      → IsCounted platform clock headers rows p
  unfolding read_rows
  read_rows-IsCounted headers rows p h =
      let data_rows = select is_data_row rows in
      let report = λ (tally : Tally). ok (quality_report data_rows tally) in
      let (checked, read) =
        >>-eq-ok (check_headers headers)
          (tally_rows platform clock decode headers 2 data_rows empty_tally >>= report) h in
      let (tally, tallied, returned) =
        >>=-eq-ok (tally_rows platform clock decode headers 2 data_rows empty_tally) report read in
      let same : quality_report data_rows tally ≡ p = cc in
      let known =
        tallied-IsCounted headers rows data_rows tally (select-filled_rows rows) tallied in
      rw same at known

  read_text-IsAccounted :
      (bytes : List ℕ) (configured : CsvOptions) (o : Option Text) (p : ParsedIngestion)
      → decode bytes ≡ o
      → read_text platform clock decode (limits_of configured) o ≡ ok p
      → IsAccounted platform clock decode bytes configured p
  unfolding read_text read_rows
  read_text-IsAccounted bytes configured none p d h = cc
  read_text-IsAccounted bytes configured (some text) p d h =
      let (lines, parsed, read) =
        >>=-eq-ok (parse_rfc4180 (limits_of configured) text) (read_rows platform clock decode) h in
      of_lines lines parsed read
    where
      of_lines :
          (lines : List (List Text))
          → parse_rfc4180 (limits_of configured) text ≡ ok lines
          → read_rows platform clock decode lines ≡ ok p
          → IsAccounted platform clock decode bytes configured p
      of_lines [] parsed read = cc
      of_lines (headers ∷ rows) parsed read = record {
        text = text;
        headers = headers;
        rows = rows;
        decoded = d;
        lines = parsed;
        counted = read_rows-IsCounted headers rows p read;
      }

  -- Bytes that are accepted decode to a text and the text to rows, of which the first are the
  -- headers. The report's total is the number of the other rows with a value that is not empty, and
  -- its events, duplicates and rejected rows add up to that total; its score is at most 10000 basis
  -- points. Each event is what one of these rows is normalized to; it has an amount that the guards
  -- of money accept and an identity of 1 to 255 units that does not begin like a formula, and no two
  -- events share an identity.
  pub parse_canonical_csv-IsAccounted :
      (bytes : List ℕ) (configured : CsvOptions) (p : ParsedIngestion)
      → parse_canonical_csv platform clock decode bytes configured ≡ ok p
      → IsAccounted platform clock decode bytes configured p
  unfolding parse_canonical_csv
  parse_canonical_csv-IsAccounted bytes configured p h =
      let limits = limits_of configured in
      let (small, read) =
        >>-eq-ok (throw_if (ltb limits.max_bytes (length bytes)) validation_error)
          (read_text platform clock decode limits (decode bytes)) h in
      read_text-IsAccounted bytes configured (decode bytes) p refl read
