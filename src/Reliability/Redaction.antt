-- ===== src/Reliability/Redaction.antt =====
-- apps/api/src/reliability/redaction.ts: `safeAttributes`, which hides what stands under a sensitive
-- key, at every depth. An array that is an item of an array becomes an object of its indices, as
-- `Object.entries` makes it.
pub mod Hidden
use jejak.Prelude.{ℕ, ◌+◌, Bool, true, false, ◌&&◌, ◌||◌, List, [], ◌∷◌}
use jejak.Prelude.Tests.{◌==◌, if◌then◌else◌}
use jejak.Prelude.Text.{Text, codes, within, decimal}
use jejak.Shared.Json.{
  Json, Items, Fields, null, undefined, boolean, number, string, array, object, nil, cons, end,
  field,
}

abbrev pub lower : ℕ → ℕ
lower c = if within b'A' b'Z' c then c + 32 else c

-- The text begins with the word, in either case of its letters.
unfoldable pub begins_with : Text → Text → Bool
begins_with [] t = true
begins_with (c ∷ word) [] = false
begins_with (c ∷ word) (d ∷ t) = c == lower d && begins_with word t

unfoldable pub contains : Text → Text → Bool
contains word [] = begins_with word []
contains word (d ∷ t) = begins_with word (d ∷ t) || contains word t

abbrev pub sensitive_words : List Text
sensitive_words =
    codes "authorization"
    ∷ codes "cookie"
    ∷ codes "email"
    ∷ codes "password"
    ∷ codes "secret"
    ∷ codes "token"
    ∷ codes "credential"
    ∷ codes "raw"
    ∷ codes "document"
    ∷ codes "url"
    ∷ []

abbrev pub contains_some : List Text → Text → Bool
contains_some [] t = false
contains_some (word ∷ words) t = contains word t || contains_some words t

unfoldable pub is_sensitive : Text → Bool
is_sensitive key = contains_some sensitive_words key

abbrev pub redacted : Json
redacted = string (codes "[REDACTED]")

unfoldable mutual
  -- A value under a key that is not sensitive.
  pub safe_value : Json → Json
  safe_value null = null
  safe_value undefined = undefined
  safe_value (boolean b) = boolean b
  safe_value (number n) = number n
  safe_value (string s) = string s
  safe_value (array items) = array (safe_items items)
  safe_value (object fields) = object (safe_attributes fields)

  pub safe_items : Items → Items
  safe_items nil = nil
  safe_items (cons item items) = cons (safe_item item) (safe_items items)

  pub safe_item : Json → Json
  safe_item null = null
  safe_item undefined = undefined
  safe_item (boolean b) = boolean b
  safe_item (number n) = number n
  safe_item (string s) = string s
  safe_item (array items) = object (safe_entries 0 items)
  safe_item (object fields) = object (safe_attributes fields)

  -- The entries of an array, from the index on.
  pub safe_entries : ℕ → Items → Fields
  safe_entries index nil = end
  safe_entries index (cons item items) =
      let rest = safe_entries (index + 1) items in
      let kept = safe_value item in
      field (decimal index) (if is_sensitive (decimal index) then redacted else kept) rest

  pub safe_attributes : Fields → Fields
  safe_attributes end = end
  safe_attributes (field key item fields) =
      let rest = safe_attributes fields in
      let kept = safe_value item in field key (if is_sensitive key then redacted else kept) rest
