-- ===== src/Reliability/Redaction/Hidden.antt =====
-- Nothing that stands under a sensitive key is kept (apps/api/src/reliability/redaction.ts).
use jejak.Prelude.{ℕ, ◌+◌, ◌≡◌, refl, inl, inr, Bool, true, false, ◌&&◌}
use jejak.Prelude.Tests.{Bool-cases, if◌then◌else◌}
use jejak.Prelude.Text.{Text, codes, text_eq, text_eq_refl, decimal}
use jejak.Shared.Json.{
  Json, Items, Fields, null, undefined, boolean, number, string, array, object, nil, cons, end,
  field,
}
use jejak.Reliability.Redaction.{
  is_sensitive, redacted, safe_value, safe_items, safe_item, safe_entries, safe_attributes,
}

abbrev pub is_redacted : Json → Bool
is_redacted (string s) = text_eq s (codes "[REDACTED]")
is_redacted null = false
is_redacted undefined = false
is_redacted (boolean b) = false
is_redacted (number n) = false
is_redacted (array items) = false
is_redacted (object fields) = false

-- At every depth the value of a sensitive key is the mark of what is hidden.
unfoldable mutual
  pub is_hidden : Json → Bool
  is_hidden null = true
  is_hidden undefined = true
  is_hidden (boolean b) = true
  is_hidden (number n) = true
  is_hidden (string s) = true
  is_hidden (array items) = items_hidden items
  is_hidden (object fields) = fields_hidden fields

  pub items_hidden : Items → Bool
  items_hidden nil = true
  items_hidden (cons item items) = is_hidden item && items_hidden items

  pub fields_hidden : Fields → Bool
  fields_hidden end = true
  fields_hidden (field key item fields) =
      (if is_sensitive key then is_redacted item else is_hidden item) && fields_hidden fields

entry-hidden :
    (key : Text) (item : Json)
    → is_hidden item ≡ true
    → (if is_sensitive key
        then is_redacted (if is_sensitive key then redacted else item)
        else is_hidden (if is_sensitive key then redacted else item))
      ≡ true
entry-hidden key item h = elim (Bool-cases (is_sensitive key)) [
  | inl t ↦ rw (t) (text_eq_refl (codes "[REDACTED]"))
  | inr f ↦ rw (f) h
]

mutual
  unfolding is_hidden safe_attributes

  value-hidden : (j : Json) → is_hidden (safe_value j) ≡ true
  value-hidden null = refl
  value-hidden undefined = refl
  value-hidden (boolean b) = refl
  value-hidden (number n) = refl
  value-hidden (string s) = refl
  value-hidden (array items) = items-hidden items
  value-hidden (object fields) = attributes-hidden fields

  items-hidden : (items : Items) → items_hidden (safe_items items) ≡ true
  items-hidden nil = refl
  items-hidden (cons item items) = rw (item-hidden item, items-hidden items)

  item-hidden : (j : Json) → is_hidden (safe_item j) ≡ true
  item-hidden null = refl
  item-hidden undefined = refl
  item-hidden (boolean b) = refl
  item-hidden (number n) = refl
  item-hidden (string s) = refl
  item-hidden (array items) = entries-hidden 0 items
  item-hidden (object fields) = attributes-hidden fields

  entries-hidden : (index : ℕ) (items : Items) → fields_hidden (safe_entries index items) ≡ true
  entries-hidden index nil = refl
  entries-hidden index (cons item items) = rw (
    entry-hidden (decimal index) (safe_value item) (value-hidden item),
    entries-hidden (index + 1) items,
  )

  attributes-hidden : (fields : Fields) → fields_hidden (safe_attributes fields) ≡ true
  attributes-hidden end = refl
  attributes-hidden (field key item fields) =
      rw (entry-hidden key (safe_value item) (value-hidden item), attributes-hidden fields)

-- What is kept of attributes hides the value of every sensitive key, at every depth.
pub safe_attributes_hidden : (fields : Fields) → fields_hidden (safe_attributes fields) ≡ true
safe_attributes_hidden fields = attributes-hidden fields
