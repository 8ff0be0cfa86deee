-- ===== src/Shared/Hash.antt =====
-- apps/api/src/modules/shared/hash.ts: the canonical JSON text that the modules hash, with the
-- keys in the order of their code units.
--
-- JSON.stringify writes the keys that are array indices first, in the order of their values, and
-- leaves out a property that is `undefined`. A key occurs once in an object.
use jejak.Prelude.{Bool, true, false, ◌&&◌, List, [], ◌∷◌, ◌++◌}
use jejak.Prelude.Tests.{ltb, ◌==◌, if◌then◌else◌}
use jejak.Prelude.Text.{Text, codes, is_natural, digits_value}
use jejak.Shared.Errors.{Result, ok, err, type_error, ◌>>=◌}
use jejak.Shared.Number.{Number, int, fraction, infinite, nan}
use jejak.Shared.Json.{
  Json, Items, Fields, Platform, null, undefined, boolean, number, string, array, object, nil, cons,
  end, field, is_undefined, join_comma, with_entry, entry_texts,
}

-- `<` on strings.
unfoldable units_before : Text → Text → Bool
units_before s [] = false
units_before [] (d ∷ t) = true
units_before (c ∷ s) (d ∷ t) = let rest = units_before s t in if c == d then rest else ltb c d

is_index : Text → Bool
is_index s = is_natural s && ltb (digits_value 0 s) 4294967295

-- The order in which an object that was filled by sorted keys lists them.
key_before : Text → Text → Bool
unfolding is_index units_before is_natural digits_value
key_before s t =
    if is_index s
    then if is_index t then ltb (digits_value 0 s) (digits_value 0 t) else true
    else if is_index t
    then false
    else units_before s t

insert_key : Text × Text → List (Text × Text) → List (Text × Text)
unfolding key_before
insert_key e [] = e ∷ []
insert_key e (x ∷ xs) =
    let later = x ∷ insert_key e xs in
    elim (key_before x.0 e.0) [ true ↦ later | false ↦ e ∷ x ∷ xs ]

unfoldable pub sort_keys : List (Text × Text) → List (Text × Text)
unfolding insert_key
sort_keys [] = []
sort_keys (x ∷ xs) = insert_key x (sort_keys xs)

module _ (platform : Platform) where
  open platform use {quote, number_text, sha256}

  -- An object by the texts of its entries.
  unfoldable sorted_object : List (Text × Text) → Text
  unfolding sort_keys
  sorted_object es = b'{' ∷ (join_comma (entry_texts platform (sort_keys es)) ++ b'}' ∷ [])

  unfoldable pub finite_number : Number → Result Text
  finite_number (int n) = ok (number_text (int n))
  finite_number (fraction n) = ok (number_text (fraction n))
  finite_number (infinite s) = err type_error
  finite_number nan = err type_error

  unfoldable mutual
    unfolding sorted_object

    pub normalized_json : Json → Result Text
    normalized_json null = ok (codes "null")
    normalized_json undefined = ok (codes "null")
    normalized_json (boolean true) = ok (codes "true")
    normalized_json (boolean false) = ok (codes "false")
    normalized_json (number n) = finite_number n
    normalized_json (string s) = ok (quote s)
    normalized_json (array items) = do
      texts ← normalized_items items
      ok (b'[' ∷ (join_comma texts ++ b']' ∷ []))
    normalized_json (object fields) = do
      entries ← normalized_fields fields
      ok (sorted_object entries)

    normalized_items : Items → Result (List Text)
    normalized_items nil = ok []
    normalized_items (cons item items) = do
      text ← normalized_json item
      texts ← normalized_items items
      ok (text ∷ texts)

    normalized_fields : Fields → Result (List (Text × Text))
    normalized_fields end = ok []
    normalized_fields (field key item fields) =
        let text = normalized_json item in
        let entries = normalized_fields fields in
        if is_undefined item then entries else with_entry key text entries

  -- `canonicalHash` of this file; hashing `undefined` itself is a TypeError.
  unfoldable pub sorted_hash : Json → Result Text
  unfolding normalized_json sorted_object finite_number
  sorted_hash value =
      if is_undefined value
      then err type_error
      else do text ← normalized_json value; ok (sha256 text)
