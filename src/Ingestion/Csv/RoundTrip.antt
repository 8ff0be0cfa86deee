-- ===== src/Ingestion/Csv/RoundTrip.antt =====
-- The texts that RFC 4180 allows for given rows, and what `parseRfc4180` makes of them.
use mathlib.Core.List.{append-nil, append_assoc}
use jejak.Prelude.{
  ℕ, suc, ◌+◌, ◌≤◌, Bool, true, false, not, ◌&&◌, ◌||◌, List, [], ◌∷◌, ◌++◌, ◌≡◌, refl, ◌∙◌, arith,
}
use jejak.Prelude.Tests.{leb, ◌==◌, if◌then◌else◌}
use jejak.Prelude.Lists.{length, all, length-append}
use jejak.Prelude.Text.{Text}
use jejak.Shared.Errors.{ok}
use jejak.Ingestion.Csv.{
  CsvLimits, Cursor, quote, newline, carriage_return, next_is, read_unit, scan, last_row,
  parse_rfc4180, push_field, push_row, quoted_unit, plain_unit,
}

-- A field of a text: its value, in quotes or without them.
pub record Spelled : Type 0 where
  pub quoted : Bool
  pub value : Text

abbrev is_bare : ℕ → Bool
is_bare c =
    not (c == quote)
    && not (c == b',')
    && not (c == newline)
    && not (c == carriage_return)
    && not (c == 0)

-- Each quote in quotes is written twice.
unfoldable pub escape : Text → Text
escape [] = []
escape (c ∷ t) = if c == quote then quote ∷ quote ∷ escape t else c ∷ escape t

unfoldable pub spell : Spelled → Text → Text
unfolding escape
spell f rest = if f.quoted then quote ∷ (escape f.value ++ quote ∷ rest) else f.value ++ rest

-- A line with its end, which is CRLF or LF.
unfoldable pub line_end : Bool → Text → Text
line_end crlf rest = if crlf then carriage_return ∷ newline ∷ rest else newline ∷ rest

unfoldable pub line : Bool → Spelled → List Spelled → Text → Text
unfolding spell line_end
line crlf f [] rest = spell f (line_end crlf rest)
line crlf f (g ∷ fs) rest = spell f (b',' ∷ line crlf g fs rest)

abbrev pub Line : Type 0
Line = Spelled × List Spelled

unfoldable pub csv_text : Bool → List Line → Text
unfolding line
csv_text crlf [] = []
csv_text crlf ((f, fs) ∷ ls) = line crlf f fs (csv_text crlf ls)

abbrev pub values : List Spelled → List Text
values [] = []
values (f ∷ fs) = f.value ∷ values fs

abbrev pub line_values : List Line → List (List Text)
line_values [] = []
line_values ((f, fs) ∷ ls) = values (f ∷ fs) ∷ line_values ls

abbrev cursor : List (List Text) → List Text → Text → Bool → Bool → Cursor
cursor rows row field in_quotes skip = record {
  rows = rows;
  row = row;
  field = field;
  in_quotes = in_quotes;
  skip = skip;
}

module _ (limits : CsvLimits) where
  open limits use {max_rows, max_field_length}

  abbrev pub fits : Spelled → Bool
  fits f = leb (length f.value) max_field_length && (f.quoted || all is_bare f.value)

  abbrev pub lines_fit : List Line → Bool
  lines_fit [] = true
  lines_fit ((f, fs) ∷ ls) = all fits (f ∷ fs) && lines_fit ls

  scan-escape :
      (rows : List (List Text)) (row : List Text) (field v rest : Text)
      → next_is quote rest ≡ false
      → scan limits (escape v ++ quote ∷ rest) (cursor rows row field true false)
        ≡ scan limits rest (cursor rows row (field ++ v) false false)
  unfolding scan escape read_unit quoted_unit
  scan-escape rows row field [] rest h = rw (h, append-nil)
  scan-escape rows row field (c ∷ v) rest h =
      let step = scan-escape rows row (field ++ (c ∷ [])) v rest h in
      ground (arith, step, append_assoc field (c ∷ []) v)

  scan-bare :
      (rows : List (List Text)) (row : List Text) (field v rest : Text)
      → all is_bare v ≡ true
      → scan limits (v ++ rest) (cursor rows row field false false)
        ≡ scan limits rest (cursor rows row (field ++ v) false false)
  unfolding scan read_unit plain_unit
  scan-bare rows row field [] rest h = rw append-nil
  scan-bare rows row field (c ∷ v) rest h =
      ground (arith, scan-bare rows row (field ++ (c ∷ [])) v rest, append_assoc field (c ∷ []) v)

  -- A field that fits is read as its value, up to the comma or the end of the line.
  scan-spell :
      (rows : List (List Text)) (row : List Text) (f : Spelled) (rest : Text)
      → fits f ≡ true
      → next_is quote rest ≡ false
      → scan limits (spell f rest) (cursor rows row [] false false)
        ≡ scan limits rest (cursor rows row f.value false false)
  unfolding spell scan read_unit plain_unit
  scan-spell rows row f rest h n =
      ground (arith, scan-escape rows row [] f.value rest n, scan-bare rows row [] f.value rest)

  scan-comma :
      (rows : List (List Text)) (row : List Text) (field rest : Text)
      → length field ≤ max_field_length
      → scan limits (b',' ∷ rest) (cursor rows row field false false)
        ≡ scan limits rest (cursor rows (row ++ (field ∷ [])) [] false false)
  unfolding scan read_unit plain_unit push_field
  scan-comma rows row field rest h = ground arith

  scan-line_end :
      (crlf : Bool) (rows : List (List Text)) (row : List Text) (field rest : Text)
      → length field ≤ max_field_length
      → length rows ≤ max_rows
      → scan limits (line_end crlf rest) (cursor rows row field false false)
        ≡ scan limits rest (cursor (rows ++ ((row ++ (field ∷ [])) ∷ [])) [] [] false false)
  unfolding line_end scan read_unit plain_unit push_row push_field
  scan-line_end crlf rows row field rest h n =
      ground (arith, length-append rows ((row ++ (field ∷ [])) ∷ []))

  line_end-next : (crlf : Bool) (rest : Text) → next_is quote (line_end crlf rest) ≡ false
  unfolding line_end
  line_end-next crlf rest = ground arith

  scan-line :
      (crlf : Bool) (rows : List (List Text)) (row : List Text) (f : Spelled) (fs : List Spelled)
      (rest : Text)
      → all fits (f ∷ fs) ≡ true
      → length rows ≤ max_rows
      → scan limits (line crlf f fs rest) (cursor rows row [] false false)
        ≡ scan limits rest (cursor (rows ++ ((row ++ values (f ∷ fs)) ∷ [])) [] [] false false)
  unfolding line
  scan-line crlf rows row f [] rest h n =
      let first =
        scan-spell rows row f (line_end crlf rest) (ground arith) (line_end-next crlf rest) in
      first ∙ scan-line_end crlf rows row f.value rest (ground arith) n
  scan-line crlf rows row f (g ∷ fs) rest h n =
      let more = line crlf g fs rest in
      let first = scan-spell rows row f (b',' ∷ more) (ground arith) refl in
      let second = scan-comma rows row f.value more (ground arith) in
      let third = scan-line crlf rows (row ++ (f.value ∷ [])) g fs rest (ground arith) n in
      first ∙ second ∙ third ∙ rw (append_assoc row (f.value ∷ []) (values (g ∷ fs)))

  scan-csv_text :
      (crlf : Bool) (rows : List (List Text)) (ls : List Line)
      → lines_fit ls ≡ true
      → length rows + length ls ≤ suc max_rows
      → scan limits (csv_text crlf ls) (cursor rows [] [] false false)
        ≡ ok (cursor (rows ++ line_values ls) [] [] false false)
  unfolding csv_text scan
  scan-csv_text crlf rows [] h n = rw append-nil
  scan-csv_text crlf rows ((f, fs) ∷ ls) h n =
      let read = rows ++ (values (f ∷ fs) ∷ []) in
      let first = scan-line crlf rows [] f fs (csv_text crlf ls) (ground arith) (omega arith) in
      let second =
        scan-csv_text crlf read ls (ground arith)
          (omega (arith, length-append rows (values (f ∷ fs) ∷ []))) in
      first ∙ second ∙ rw (append_assoc rows (values (f ∷ fs) ∷ []) (line_values ls))

  -- A text of rows whose fields, in quotes or bare, each within the length limit, is parsed as
  -- the values of those fields, row by row. It may end its lines with LF or CRLF. A row has a
  -- field at least, there are at most one more rows than the row limit, and a field without
  -- quotes has no quote, comma, line feed, carriage return or NUL; a field in quotes may have
  -- any unit, with each quote in it written twice.
  pub parse_rfc4180-csv_text :
      (crlf : Bool) (ls : List Line)
      → lines_fit ls ≡ true
      → length ls ≤ suc max_rows
      → parse_rfc4180 limits (csv_text crlf ls) ≡ ok (line_values ls)
  unfolding parse_rfc4180 last_row
  parse_rfc4180-csv_text crlf ls h n = rw (scan-csv_text crlf [] ls h (omega arith))
