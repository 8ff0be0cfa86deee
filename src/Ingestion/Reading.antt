-- ===== src/Ingestion/Reading.antt =====
-- apps/api/src/modules/ingestion/application/ingest-csv.ts: its data, and what `readCanonicalCsv`
-- does with the bytes. `sha256Hex` of bytes is node:crypto's.
use jejak.Prelude.{ℕ, Bool, not, Option, List, ◌≡◌, ◌≢◌, refl, ap, inl, inr, arith}
use jejak.Prelude.Tests.{Bool-cases}
use jejak.Prelude.Lists.{length}
use jejak.Prelude.Text.{Text, text_eq, text_eq_iff}
use jejak.Shared.Errors.{
  Result, Error, ok, err, ◌>>=◌, ◌>>◌, throw_if, validation_error, >>=-eq-ok, >>-eq-ok,
  throw_if-eq-ok,
}
use jejak.Shared.Json.{Platform}
use jejak.Ingestion.Types.{IngestionQualityReport, ParsedIngestion}
use jejak.Ingestion.Cells.{Clock}
use jejak.Ingestion.Report.{CsvOptions, parse_canonical_csv}
use jejak.Ingestion.Report.Counts.{IsAccounted, parse_canonical_csv-IsAccounted}

pub record PersistedIngestionInput : Type 0 where
  pub parsed : ParsedIngestion
  pub tenant_id : Text
  pub seller_id : Text
  pub storage_object_key : Option Text
  pub content_hash : Text
  pub byte_count : Option ℕ

pub record PersistedIngestionResult : Type 0 where
  pub ingestion_id : Text
  pub report : IngestionQualityReport
  pub replayed : Bool

-- What `readCanonicalCsv` returns.
pub record ReadCsv : Type 0 where
  pub parsed : ParsedIngestion
  pub content_hash : Text
  pub byte_count : ℕ

pub record IngestInput : Type 0 where
  pub tenant_id : Text
  pub seller_id : Text
  pub storage_object_key : Text
  pub expected_content_hash : Text
  pub limits : CsvOptions

-- What `ingestCanonicalCsv` returns.
pub record Ingested : Type 0 where
  pub ingestion_id : Text
  pub report : IngestionQualityReport

abbrev read_csv : ParsedIngestion → Text → ℕ → ReadCsv
read_csv parsed hash count = record { parsed = parsed; content_hash = hash; byte_count = count }

made-eq-err :
    (parsing : Result ParsedIngestion) (hash : Text) (count : ℕ) (e : Error)
    → (parsing >>= λ parsed. ok (read_csv parsed hash count)) ≡ err e
    → parsing ≡ err e
made-eq-err (ok parsed) hash count e h = cc
made-eq-err (err f) hash count e h = let same : f ≡ e = cc in ap err same

module _ (platform : Platform) (clock : Clock) (decode : List ℕ → Option Text)
    (sha256_bytes : List ℕ → Text) where
  -- The rest of `readCanonicalCsv` once the bytes are read.
  unfoldable pub check_bytes : IngestInput → List ℕ → Result ReadCsv
  unfolding text_eq parse_canonical_csv
  check_bytes input bytes = do
    let content_hash = sha256_bytes bytes
    throw_if (not (text_eq content_hash input.expected_content_hash)) validation_error
    parsed ← parse_canonical_csv platform clock decode bytes input.limits
    ok (read_csv parsed content_hash (length bytes))

  -- What a file is read as: it has the expected hash, and it is parsed to an ingestion whose report
  -- accounts for its rows.
  pub record IsRead (input : IngestInput) (bytes : List ℕ) (csv : ReadCsv) : Type 0 where
    pub expected : sha256_bytes bytes ≡ input.expected_content_hash
    pub hashed : csv.content_hash ≡ sha256_bytes bytes
    pub counted : csv.byte_count ≡ length bytes
    pub parsed : parse_canonical_csv platform clock decode bytes input.limits ≡ ok csv.parsed
    pub accounted : IsAccounted platform clock decode bytes input.limits csv.parsed

  -- Why a file is refused: it has another hash than the expected one, or it does not parse.
  pub data IsRefused (input : IngestInput) (bytes : List ℕ) (e : Error) : Type 0 where
    other_hash :
        sha256_bytes bytes ≢ input.expected_content_hash
        → e ≡ validation_error
        → IsRefused input bytes e
    unparsed :
        parse_canonical_csv platform clock decode bytes input.limits ≡ err e
        → IsRefused input bytes e

  pub check_bytes-IsRefused :
      (input : IngestInput) (bytes : List ℕ) (e : Error)
      → check_bytes input bytes ≡ err e
      → IsRefused input bytes e
  unfolding check_bytes
  check_bytes-IsRefused input bytes e h =
      let hash = sha256_bytes bytes in
      elim (Bool-cases (text_eq hash input.expected_content_hash)) [
        | inl t ↦ unparsed (made-eq-err _ hash (length bytes) e (rw t at h))
        | inr f ↦
            other_hash (λ q. let t = (text_eq_iff hash input.expected_content_hash).1 q in cc)
              (let h' = rw f at h in cc)
      ]

  pub check_bytes-IsRead :
      (input : IngestInput) (bytes : List ℕ) (csv : ReadCsv)
      → check_bytes input bytes ≡ ok csv
      → IsRead input bytes csv
  unfolding check_bytes
  check_bytes-IsRead input bytes csv h =
      let hash = sha256_bytes bytes in
      let parse = parse_canonical_csv platform clock decode bytes input.limits in
      let build = λ (parsed : ParsedIngestion). ok (read_csv parsed hash (length bytes)) in
      let test = not (text_eq hash input.expected_content_hash) in
      let (matched, parsing) = >>-eq-ok (throw_if test validation_error) (parse >>= build) h in
      let (parsed, found, made) = >>=-eq-ok parse build parsing in
      let same : read_csv parsed hash (length bytes) ≡ csv = cc in
      let tested = throw_if-eq-ok test validation_error matched in
      let known : IsRead input bytes (read_csv parsed hash (length bytes)) = record {
        expected = (text_eq_iff hash input.expected_content_hash).0 (ground arith);
        hashed = refl;
        counted = refl;
        parsed = found;
        accounted =
            parse_canonical_csv-IsAccounted platform clock decode bytes input.limits parsed found;
      } in
      rw same at known
