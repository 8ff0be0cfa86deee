-- ===== src/Ingestion/Service.antt =====
-- apps/api/src/modules/ingestion/application/ingest-csv.ts: the two operations. The reader of
-- objects and the repository are parameters; of the repository only `persist` is called here.
use jejak.Prelude.{ℕ, Option, some, List, ◌≡◌, refl}
use jejak.Prelude.Text.{Text}
use jejak.Shared.Errors.{Result, ok, err, Error}
use jejak.Shared.Action.{Action, ◌>>=◌, give, lift, continue_with}
use jejak.Shared.Json.{Platform}
use jejak.Ingestion.Cells.{Clock}
use jejak.Ingestion.Reading.{
  PersistedIngestionInput, PersistedIngestionResult, ReadCsv, IngestInput, Ingested, IsRead,
  IsRefused, check_bytes-IsRefused, check_bytes, check_bytes-IsRead, IsRefused,
  check_bytes-IsRefused,
}

abbrev pub persisted_input : IngestInput → ReadCsv → PersistedIngestionInput
persisted_input input read = record {
  parsed = read.parsed;
  tenant_id = input.tenant_id;
  seller_id = input.seller_id;
  storage_object_key = some input.storage_object_key;
  content_hash = read.content_hash;
  byte_count = some read.byte_count;
}

abbrev pub ingested : PersistedIngestionResult → Ingested
ingested persisted = record { ingestion_id = persisted.ingestion_id; report = persisted.report }

module _ (platform : Platform) (clock : Clock) (decode : List ℕ → Option Text)
    (sha256_bytes : List ℕ → Text) {W : Type 0} (read : Text → Action W (List ℕ))
    (persist : PersistedIngestionInput → Action W PersistedIngestionResult) where
  unfoldable pub read_canonical_csv : IngestInput → Action W ReadCsv
  unfolding check_bytes
  read_canonical_csv input = do
    bytes ← read input.storage_object_key
    lift (check_bytes platform clock decode sha256_bytes input bytes)

  unfoldable pub ingest_canonical_csv : IngestInput → Action W Ingested
  unfolding read_canonical_csv
  ingest_canonical_csv input = do
    csv ← read_canonical_csv input
    persisted ← persist (persisted_input input csv)
    give (ingested persisted)

  -- What becomes of bytes that were read in the world `w`: the file is refused and nothing is
  -- stored, or it is stored as what it was read as.
  pub data Outcome (input : IngestInput) (bytes : List ℕ) (w : W) (run : Result Ingested × W)
      : Type 0 where
    refused :
        (e : Error)
        → IsRefused platform clock decode sha256_bytes input bytes e
        → run ≡ (err e, w)
        → Outcome input bytes w run
    stored :
        (csv : ReadCsv)
        → IsRead platform clock decode sha256_bytes input bytes csv
        → run
          ≡ (persist (record {
            parsed = csv.parsed;
            tenant_id = input.tenant_id;
            seller_id = input.seller_id;
            storage_object_key = some input.storage_object_key;
            content_hash = csv.content_hash;
            byte_count = some csv.byte_count;
          })
                >>= λ p. give (record { ingestion_id = p.ingestion_id; report = p.report }))
              w
        → Outcome input bytes w run

  -- Once the reader has returned bytes, there are two ways for an ingestion to go. Where the bytes
  -- have another hash than the expected one or do not parse, it fails with that error and leaves the
  -- world as the reader left it. Else it is exactly one call of the repository, with the ingestion
  -- that the bytes are parsed to, the hash and the number of the bytes, and the tenant, the seller and
  -- the key of the input, and it answers with the id and the report that this call returns; the report
  -- of the parsed ingestion accounts for the rows of the file.
  pub ingest_canonical_csv-Outcome :
      (input : IngestInput) (w w' : W) (bytes : List ℕ)
      → read input.storage_object_key w ≡ (ok bytes, w')
      → Outcome input bytes w' (ingest_canonical_csv input w)
  unfolding ingest_canonical_csv read_canonical_csv
  ingest_canonical_csv-Outcome input w w' bytes h =
      rw h (
        after_read input bytes w' (check_bytes platform clock decode sha256_bytes input bytes) refl)
    where
      after_read :
          (input : IngestInput) (bytes : List ℕ) (w : W) (checked : Result ReadCsv)
          → check_bytes platform clock decode sha256_bytes input bytes ≡ checked
          → Outcome input bytes w (
              continue_with
                (checked, w)
                λ csv. persist (persisted_input input csv) >>= λ p. give (ingested p))
      after_read input bytes w (err e) q =
          refused e (check_bytes-IsRefused platform clock decode sha256_bytes input bytes e q) refl
      after_read input bytes w (ok csv) q =
          stored csv (check_bytes-IsRead platform clock decode sha256_bytes input bytes csv q) refl
