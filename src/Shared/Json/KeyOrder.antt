-- ===== src/Shared/Json/KeyOrder.antt =====
-- The canonical text of an object does not depend on the order of its keys
-- (apps/api/src/reliability/canonical-json.ts).
use jejak.Prelude.{Bool, true, false, ◌≡◌, refl, ◌∙◌, ◌⊎◌, inl, inr, List, [], ◌∷◌, arith, ap}
use jejak.Prelude.Tests.{Bool-cases}
use jejak.Prelude.Text.{Text}
use jejak.Shared.Errors.{Error, Result, ok, err, type_error, ◌>>=◌}
use jejak.Shared.Number.{int, fraction, infinite, nan}
use jejak.Shared.Json.{
  Json, Items, Fields, null, undefined, boolean, number, string, array, object, nil, cons, end,
  field, Platform, insert_entry, sort_entries, canonical_json, items_texts, fields_entries,
  canonical_hash, with_entry, is_undefined,
}

-- What a sort relies on: a consistent comparison of keys.
pub record IsKeyOrder (before : Text → Text → Bool) : Type 0 where
  pub asymmetric : (j k : Text) → before j k ≡ true → before k j ≡ false
  pub weak : (j k l : Text) → before j l ≡ true → before j k ≡ false → before k l ≡ true

-- One object is another with its keys in another order. Two keys change places only if the
-- comparison tells them apart.
pub data Reordered (before : Text → Text → Bool) : Fields → Fields → Type 0 where
  unchanged : {f : Fields} → Reordered before f f
  under :
      {f g : Fields} (key : Text) (item : Json)
      → Reordered before f g
      → Reordered before (field key item f) (field key item g)
  swapped :
      {f : Fields} (j k : Text) (x y : Json)
      → (before j k ≡ true) ⊎ (before k j ≡ true)
      → Reordered before (field j x (field k y f)) (field k y (field j x f))
  chained : {f g h : Fields} → Reordered before f g → Reordered before g h → Reordered before f h

module _ (platform : Platform) (order : IsKeyOrder platform.before) where
  open platform use {before}

  insert_entry_comm :
      (a b : Text × Text) (l : List (Text × Text))
      → (before a.0 b.0 ≡ true) ⊎ (before b.0 a.0 ≡ true)
      → insert_entry platform a (insert_entry platform b l)
        ≡ insert_entry platform b (insert_entry platform a l)
  unfolding insert_entry
  insert_entry_comm a b [] h = ground (arith, order.asymmetric a.0 b.0, order.asymmetric b.0 a.0)
  insert_entry_comm a b (x ∷ xs) h = ground (
    arith,
    insert_entry_comm a b xs h,
    order.asymmetric a.0 b.0,
    order.asymmetric b.0 a.0,
    order.weak x.0 a.0 b.0,
    order.weak x.0 b.0 a.0,
  )

module _ (platform : Platform) where
  -- A type error is the only thing that `canonicalJson` throws.
  mutual
    unfolding canonical_json items_texts fields_entries

    canonical_json-fails :
        (j : Json) (e : Error) → canonical_json platform j ≡ err e → e ≡ type_error
    canonical_json-fails null e h = cc
    canonical_json-fails undefined e h = cc
    canonical_json-fails (boolean true) e h = cc
    canonical_json-fails (boolean false) e h = cc
    canonical_json-fails (number (int n)) e h = cc
    canonical_json-fails (number (fraction n)) e h = cc
    canonical_json-fails (number (infinite s)) e h = cc
    canonical_json-fails (number nan) e h = cc
    canonical_json-fails (string s) e h = cc
    canonical_json-fails (array items) e h = ground (arith, items_texts-fails items e)
    canonical_json-fails (object fields) e h = ground (arith, fields_entries-fails fields e)

    items_texts-fails : (i : Items) (e : Error) → items_texts platform i ≡ err e → e ≡ type_error
    items_texts-fails nil e h = cc
    items_texts-fails (cons item items) e h =
        ground (arith, canonical_json-fails item e, items_texts-fails items e)

    fields_entries-fails :
        (f : Fields) (e : Error) → fields_entries platform f ≡ err e → e ≡ type_error
    fields_entries-fails end e h = cc
    fields_entries-fails (field key item fields) e h =
        ground (arith, canonical_json-fails item e, fields_entries-fails fields e)

  abbrev sorted : Result (List (Text × Text)) → Result (List (Text × Text))
  sorted r = do es ← r; ok (sort_entries platform es)

  sorted-with_entry :
      (key : Text) (t : Result Text) (r s : Result (List (Text × Text)))
      → sorted r ≡ sorted s
      → sorted (with_entry key t r) ≡ sorted (with_entry key t s)
  unfolding sort_entries
  sorted-with_entry key (err e) r s h = refl
  sorted-with_entry key (ok t) (ok r) (ok s) h = ground arith
  sorted-with_entry key (ok t) (ok r) (err s) h = cc
  sorted-with_entry key (ok t) (err r) (ok s) h = cc
  sorted-with_entry key (ok t) (err r) (err s) h = ground arith

  object_sorted :
      (f g : Fields)
      → sorted (fields_entries platform f) ≡ sorted (fields_entries platform g)
      → canonical_json platform (object f) ≡ canonical_json platform (object g)
  unfolding canonical_json
  object_sorted f g h = ground arith

module _ (platform : Platform) (order : IsKeyOrder platform.before) where
  open platform use {before}

  -- Both texts first, then the entries: whichever throws first, the error is the same.
  with_entry_comm :
      (j k : Text) (s t : Result Text) (r : Result (List (Text × Text)))
      → (before j k ≡ true) ⊎ (before k j ≡ true)
      → ((e : Error) → s ≡ err e → e ≡ type_error)
      → ((e : Error) → t ≡ err e → e ≡ type_error)
      → ((e : Error) → r ≡ err e → e ≡ type_error)
      → sorted platform (with_entry j s (with_entry k t r))
        ≡ sorted platform (with_entry k t (with_entry j s r))
  unfolding sort_entries
  with_entry_comm j k (ok a) (ok b) (ok es) h fs ft fr =
      ap ok (insert_entry_comm platform order (j, a) (k, b) (sort_entries platform es) h)
  with_entry_comm j k (ok a) (ok b) (err e) h fs ft fr = refl
  with_entry_comm j k (ok a) (err e) r h fs ft fr = refl
  with_entry_comm j k (err e) (ok b) (ok es) h fs ft fr = refl
  with_entry_comm j k (err e) (ok b) (err d) h fs ft fr = cc (fs e refl, fr d refl)
  with_entry_comm j k (err e) (err d) r h fs ft fr = cc (fs e refl, ft d refl)

  sorted-swapped :
      (j k : Text) (x y : Json) (f : Fields)
      → (before j k ≡ true) ⊎ (before k j ≡ true)
      → sorted platform (fields_entries platform (field j x (field k y f)))
        ≡ sorted platform (fields_entries platform (field k y (field j x f)))
  unfolding fields_entries sort_entries
  sorted-swapped j k x y f h =
      let both =
        with_entry_comm j k (canonical_json platform x) (canonical_json platform y)
          (fields_entries platform f) h (canonical_json-fails platform x)
          (canonical_json-fails platform y) (fields_entries-fails platform f) in
      elim (Bool-cases (is_undefined x)) [
        | inl u ↦ rw u
        | inr u ↦ elim (Bool-cases (is_undefined y)) [ inl v ↦ rw (u, v) | inr v ↦ rw (u, v) both ]
      ]

  sorted-Reordered :
      {f g : Fields}
      → Reordered before f g
      → sorted platform (fields_entries platform f) ≡ sorted platform (fields_entries platform g)
  unfolding fields_entries
  sorted-Reordered unchanged = refl
  sorted-Reordered (under key item r) = elim (Bool-cases (is_undefined item)) [
    | inl e ↦ rw e (sorted-Reordered r)
    | inr e ↦ rw e (sorted-with_entry platform key _ _ _ (sorted-Reordered r))
  ]
  sorted-Reordered (swapped {f = f} j k x y h) = sorted-swapped j k x y f h
  sorted-Reordered (chained r s) = sorted-Reordered r ∙ sorted-Reordered s

  -- Two objects that differ in the order of their keys alone have one canonical hash, or neither
  -- has one, wherever `localeCompare` is a consistent comparison that tells the keys apart.
  pub canonical_hash-Reordered :
      (f g : Fields)
      → Reordered before f g
      → canonical_hash platform (object f) ≡ canonical_hash platform (object g)
  unfolding canonical_hash
  canonical_hash-Reordered f g r = rw (object_sorted platform f g (sorted-Reordered r))
