-- ===== src/Shared/Json/Totality.antt =====
-- Which values have a canonical text (apps/api/src/reliability/canonical-json.ts).
use jejak.Prelude.{Bool, true, false, ◌&&◌, ◌||◌, ◌≡◌, refl, Option, none, some, arith, inl, inr}
use jejak.Prelude.Text.{Text}
use jejak.Shared.Errors.{Returns, >>=-Returns}
use jejak.Prelude.Tests.{Bool-cases}
use jejak.Shared.Number.{Number, int, fraction, infinite, nan}
use jejak.Shared.Json.{
  Json, Items, Fields, null, undefined, boolean, number, string, array, object, nil, cons, end,
  field, Platform, canonical_json, items_texts, fields_entries, canonical_hash, is_undefined,
  optional_text,
}

abbrev pub is_finite : Number → Bool
is_finite (int n) = true
is_finite (fraction n) = true
is_finite (infinite s) = false
is_finite nan = false

-- No number in the value is infinite or NaN, and only properties are undefined.
unfoldable mutual
  pub is_encodable : Json → Bool
  is_encodable null = true
  is_encodable undefined = false
  is_encodable (boolean b) = true
  is_encodable (number n) = is_finite n
  is_encodable (string s) = true
  is_encodable (array items) = are_encodable items
  is_encodable (object fields) = fields_encodable fields

  pub are_encodable : Items → Bool
  are_encodable nil = true
  are_encodable (cons item items) = is_encodable item && are_encodable items

  pub fields_encodable : Fields → Bool
  fields_encodable end = true
  fields_encodable (field key item fields) =
      (is_undefined item || is_encodable item) && fields_encodable fields

pub optional_text-encodable :
    (o : Option Text) → (is_undefined (optional_text o) || is_encodable (optional_text o)) ≡ true
unfolding is_encodable
optional_text-encodable none = refl
optional_text-encodable (some t) = refl

module _ (platform : Platform) where
  mutual
    unfolding canonical_json items_texts fields_entries is_encodable are_encodable fields_encodable

    canonical_json-total : (j : Json) → is_encodable j ≡ true → Returns (canonical_json platform j)
    canonical_json-total null h = (_, refl)
    canonical_json-total undefined h = cc
    canonical_json-total (boolean true) h = (_, refl)
    canonical_json-total (boolean false) h = (_, refl)
    canonical_json-total (number (int n)) h = (_, refl)
    canonical_json-total (number (fraction n)) h = (_, refl)
    canonical_json-total (number (infinite s)) h = cc
    canonical_json-total (number nan) h = cc
    canonical_json-total (string s) h = (_, refl)
    canonical_json-total (array items) h =
        >>=-Returns (items_texts platform items) _ (items_texts-total items h) (λ ts. (_, refl))
    canonical_json-total (object fields) h =
        >>=-Returns (fields_entries platform fields) _ (fields_entries-total fields h)
          (λ es. (_, refl))

    items_texts-total : (i : Items) → are_encodable i ≡ true → Returns (items_texts platform i)
    items_texts-total nil h = (_, refl)
    items_texts-total (cons item items) h =
        >>=-Returns (canonical_json platform item) _ (canonical_json-total item (ground arith))
          (λ t.
            >>=-Returns (items_texts platform items) _ (items_texts-total items (ground arith))
              (λ ts. (_, refl)))

    fields_entries-total :
        (f : Fields) → fields_encodable f ≡ true → Returns (fields_entries platform f)
    fields_entries-total end h = (_, refl)
    fields_entries-total (field key item fields) h =
        let rest = fields_entries-total fields (ground arith) in
        elim (Bool-cases (is_undefined item)) [
          | inl u ↦ rw u rest
          | inr u ↦ rw u (
              >>=-Returns (canonical_json platform item) _
                (canonical_json-total item (ground arith))
                (λ t. >>=-Returns (fields_entries platform fields) _ rest (λ es. (_, refl))))
        ]

  pub canonical_hash-total :
      (j : Json) → is_encodable j ≡ true → Returns (canonical_hash platform j)
  unfolding canonical_hash
  canonical_hash-total j h =
      >>=-Returns (canonical_json platform j) _ (canonical_json-total j h) (λ t. (_, refl))
