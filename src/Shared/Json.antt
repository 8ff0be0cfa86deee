-- ===== src/Shared/Json.antt =====
-- apps/api/src/reliability/canonical-json.ts: the text of
-- a JSON value that does not depend on the order of its keys, and the hash of that text.
--
-- What the JavaScript runtime and node:crypto give is a parameter, `Platform`: quoting of strings,
-- the text of a number, `localeCompare`, SHA-256 and the parsing of dates.
pub mod KeyOrder
pub mod Totality
use jejak.Prelude.{ℕ, Bool, true, false, Option, none, some, List, [], ◌∷◌, ◌++◌}
use jejak.Prelude.Tests.{if◌then◌else◌}
use jejak.Prelude.Int.{ℤ}
use jejak.Prelude.Text.{Text, codes}
use jejak.Shared.Errors.{Result, ok, err, type_error, ◌>>=◌}
use jejak.Shared.Number.{Number, int, fraction, infinite, nan}

mutual
  pub data Json : Type 0 where
    null undefined : Json
    boolean : Bool → Json
    number : Number → Json
    string : Text → Json
    array : Items → Json
    object : Fields → Json

  pub data Items : Type 0 where
    nil : Items
    cons : Json → Items → Items

  pub data Fields : Type 0 where
    end : Fields
    field : Text → Json → Fields → Fields

pub record Platform : Type 0 where
  -- `JSON.stringify` of a string and of a finite number.
  pub quote : Text → Text
  pub number_text : Number → Text
  -- `left.localeCompare(right) < 0`
  pub before : Text → Text → Bool
  -- `createHash("sha256").update(text).digest("hex")`
  pub sha256 : Text → Text
  -- `new Date(text).valueOf()`, with `none` for NaN.
  pub date_value : Text → Option ℤ

-- The `join(",")` of the source.
abbrev pub join_comma : List Text → Text
join_comma [] = []
join_comma (t ∷ []) = t
join_comma (t ∷ u ∷ ts) = t ++ b',' ∷ join_comma (u ∷ ts)

abbrev pub is_undefined : Json → Bool
is_undefined undefined = true
is_undefined null = false
is_undefined (boolean b) = false
is_undefined (number n) = false
is_undefined (string s) = false
is_undefined (array items) = false
is_undefined (object fields) = false

abbrev pub with_entry :
    Text → Result Text → Result (List (Text × Text)) → Result (List (Text × Text))
with_entry key text entries = do t ← text; es ← entries; ok ((key, t) ∷ es)

module _ (platform : Platform) where
  open platform use {quote, number_text, before, sha256}

  -- One step of a stable sort by key.
  unfoldable pub insert_entry : Text × Text → List (Text × Text) → List (Text × Text)
  insert_entry e [] = e ∷ []
  insert_entry e (x ∷ xs) =
      let later = x ∷ insert_entry e xs in
      elim (before x.0 e.0) [ true ↦ later | false ↦ e ∷ x ∷ xs ]

  unfoldable pub sort_entries : List (Text × Text) → List (Text × Text)
  unfolding insert_entry
  sort_entries [] = []
  sort_entries (x ∷ xs) = insert_entry x (sort_entries xs)

  abbrev pub entry_texts : List (Text × Text) → List Text
  entry_texts [] = []
  entry_texts ((key, item) ∷ es) = (quote key ++ b':' ∷ item) ∷ entry_texts es

  abbrev pub object_text : List (Text × Text) → Text
  object_text es = b'{' ∷ (join_comma (entry_texts (sort_entries es)) ++ b'}' ∷ [])

  abbrev pub finite_text : Number → Result Text
  finite_text (int n) = ok (number_text (int n))
  finite_text (fraction n) = ok (number_text (fraction n))
  finite_text (infinite s) = err type_error
  finite_text nan = err type_error

  unfoldable mutual
    pub canonical_json : Json → Result Text
    canonical_json null = ok (codes "null")
    canonical_json undefined = err type_error
    canonical_json (boolean true) = ok (codes "true")
    canonical_json (boolean false) = ok (codes "false")
    canonical_json (number n) = finite_text n
    canonical_json (string s) = ok (quote s)
    canonical_json (array items) = do
      texts ← items_texts items
      ok (b'[' ∷ (join_comma texts ++ b']' ∷ []))
    canonical_json (object fields) = do entries ← fields_entries fields; ok (object_text entries)

    pub items_texts : Items → Result (List Text)
    items_texts nil = ok []
    items_texts (cons item items) = do
      text ← canonical_json item
      texts ← items_texts items
      ok (text ∷ texts)

    -- The entries with a value, each with its text; `undefined` is filtered out.
    pub fields_entries : Fields → Result (List (Text × Text))
    fields_entries end = ok []
    fields_entries (field key item fields) =
        let text = canonical_json item in
        let entries = fields_entries fields in
        if is_undefined item then entries else with_entry key text entries

  unfoldable pub canonical_hash : Json → Result Text
  unfolding canonical_json
  canonical_hash value = do text ← canonical_json value; ok (sha256 text)

-- An optional property.
abbrev pub optional_text : Option Text → Json
optional_text none = undefined
optional_text (some t) = string t
