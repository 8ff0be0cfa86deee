-- ===== src/Ingestion/Csv.antt =====
-- apps/api/src/modules/ingestion/domain/canonical-csv.ts: `parseRfc4180` and its limits.
--
-- The loop over the positions of the text is `scan`. The look at `text[index + 1]` is the first
-- unit of the rest, and `index += 1` sets `skip`, by which the next unit is passed over.
pub mod RoundTrip
use jejak.Prelude.{
  ℕ, ◌+◌, Bool, true, false, not, ◌&&◌, ◌||◌, Option, none, some, List, [], ◌∷◌, ◌++◌,
}
use jejak.Prelude.Tests.{ltb, ◌==◌, if◌then◌else◌}
use jejak.Prelude.Lists.{length}
use jejak.Prelude.Text.{Text, is_nil}
use jejak.Shared.Errors.{Result, ok, err, ◌>>=◌, ◌>>◌, throw_if, validation_error}

pub record CsvLimits : Type 0 where
  pub max_bytes : ℕ
  pub max_rows : ℕ
  pub max_field_length : ℕ

abbrev pub default_limits : CsvLimits
default_limits = record { max_bytes = 5000000; max_rows = 50000; max_field_length = 2048 }

-- The variables of the loop.
pub record Cursor : Type 0 where
  pub rows : List (List Text)
  pub row : List Text
  pub field : Text
  pub in_quotes : Bool
  pub skip : Bool

abbrev pub start : Cursor
start = record { rows = []; row = []; field = []; in_quotes = false; skip = false }

abbrev pub quote : ℕ
quote = b'"'

abbrev pub newline : ℕ
newline = 10

abbrev pub carriage_return : ℕ
carriage_return = 13

-- `text[index + 1] === c`
abbrev pub next_is : ℕ → Text → Bool
next_is c [] = false
next_is c (d ∷ t) = d == c

abbrev no_fields : List Text → Bool
no_fields [] = true
no_fields (f ∷ fs) = false

module _ (limits : CsvLimits) where
  open limits use {max_rows, max_field_length}

  unfoldable pub push_field : Cursor → Result Cursor
  push_field s = do
    throw_if (ltb max_field_length (length s.field)) validation_error
    ok (record s { row = s.row ++ (s.field ∷ []); field = [] })

  unfoldable pub push_row : Cursor → Result Cursor
  push_row s = do
    pushed ← push_field s
    let rows = pushed.rows ++ (pushed.row ∷ [])
    throw_if (ltb (max_rows + 1) (length rows)) validation_error
    ok (record pushed { rows = rows; row = [] })

  abbrev add_unit : ℕ → Cursor → Cursor
  add_unit c s = record s { field = s.field ++ (c ∷ []) }

  -- The body of the loop in quotes and outside of them.
  unfoldable pub quoted_unit : ℕ → Text → Cursor → Result Cursor
  quoted_unit c rest s =
      if c == quote
      then (if next_is quote rest
          then ok (record (add_unit quote s) { skip = true })
          else ok (record s { in_quotes = false }))
      else ok (add_unit c s)

  unfoldable pub plain_unit : ℕ → Text → Cursor → Result Cursor
  unfolding push_field push_row
  plain_unit c rest s =
      if c == quote
      then (throw_if (not (is_nil s.field)) validation_error >> ok (record s { in_quotes = true }))
      else if c == b','
      then push_field s
      else if c == newline
      then push_row s
      else if c == carriage_return
      then (do
        throw_if (not (next_is newline rest)) validation_error
        pushed ← push_row s
        ok (record pushed { skip = true }))
      else if c == 0
      then err validation_error
      else ok (add_unit c s)

  unfoldable pub read_unit : ℕ → Text → Cursor → Result Cursor
  unfolding quoted_unit plain_unit
  read_unit c rest s =
      if s.skip
      then ok (record s { skip = false })
      else if s.in_quotes
      then quoted_unit c rest s
      else plain_unit c rest s

  unfoldable pub scan : Text → Cursor → Result Cursor
  unfolding read_unit
  scan [] s = ok s
  scan (c ∷ rest) s = read_unit c rest s >>= scan rest

  -- What follows the loop.
  unfoldable pub last_row : Cursor → Result (List (List Text))
  unfolding push_row
  last_row s = do
    throw_if s.in_quotes validation_error
    ended ← if is_nil s.field && no_fields s.row then ok s else push_row s
    ok ended.rows

  unfoldable pub parse_rfc4180 : Text → Result (List (List Text))
  unfolding scan last_row
  parse_rfc4180 text = scan text start >>= last_row
