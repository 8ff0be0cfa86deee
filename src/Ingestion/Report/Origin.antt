-- ===== src/Ingestion/Report/Origin.antt =====
-- Where the events of a report come from: the rows of the file that hold a value, in their order.
use mathlib.Core.Path.{fun_ext}
use jejak.Prelude.{
  ℕ, suc, Bool, true, false, Option, none, some, List, [], ◌∷◌, ◌++◌, ◌≡◌, refl, ap, ◌⊎◌, inl, inr,
}
use jejak.Prelude.Tests.{Option-cases, Bool-cases}
use jejak.Prelude.Lists.{select}
use jejak.Prelude.Text.{Text, text_eq}
use jejak.Shared.Errors.{ok, >>=-eq-ok}
use jejak.Shared.Json.{Platform}
use jejak.Ingestion.Types.{CanonicalMarketplaceEvent}
use jejak.Ingestion.Cells.{Clock}
use jejak.Ingestion.Rows.{NormalizedRow, normalize_row}
use jejak.Ingestion.Report.{Tally, tally_event, tally_result, tally_rows, is_data_row}

-- The rows with a value that is not empty.
abbrev pub is_filled : List Text → Bool
is_filled [] = false
is_filled ([] ∷ values) = is_filled values
is_filled ((c ∷ t) ∷ values) = true

abbrev pub filled_rows : List (List Text) → List (List Text)
filled_rows = select is_filled

is_data_row-is_filled : (row : List Text) → is_data_row row ≡ is_filled row
is_data_row-is_filled [] = refl
is_data_row-is_filled ([] ∷ values) = is_data_row-is_filled values
is_data_row-is_filled ((c ∷ t) ∷ values) = refl

pub select-filled_rows : (rows : List (List Text)) → select is_data_row rows ≡ filled_rows rows
select-filled_rows rows = ap (λ p. select p rows) (fun_ext is_data_row-is_filled)

-- A predicate that holds of all events.
abbrev pub AllOf : (CanonicalMarketplaceEvent → Type 0) → List CanonicalMarketplaceEvent → Type 0
AllOf P [] = Unit
AllOf P (e ∷ es) = P e × AllOf P es

module _ (P : CanonicalMarketplaceEvent → Type 0) where
  append-AllOf :
      (es : List CanonicalMarketplaceEvent) (e : CanonicalMarketplaceEvent)
      → AllOf P es
      → P e
      → AllOf P (es ++ (e ∷ []))
  append-AllOf [] e h k = (k, tt)
  append-AllOf (x ∷ es) e (h, hs) k = (h, append-AllOf es e hs k)

  tally_event-AllOf :
      (t : Tally) (e : CanonicalMarketplaceEvent) (previous : Option Text)
      → AllOf P t.events
      → P e
      → AllOf P (tally_event e previous t).events
  unfolding tally_event
  tally_event-AllOf t e none h k = append-AllOf t.events e h k
  tally_event-AllOf t e (some hash) h k = elim (Bool-cases (text_eq hash e.source_row_hash)) [
    | inl same ↦ rw same h
    | inr other ↦ rw other h
  ]

  tally_result-AllOf :
      (t : Tally) (r : NormalizedRow)
      → ((e : CanonicalMarketplaceEvent) → r.event ≡ some e → P e)
      → AllOf P t.events
      → AllOf P (tally_result r t).events
  unfolding tally_result
  tally_result-AllOf t r c h = elim (Option-cases r.event) [
    | inl p ↦ rw p h
    | inr (e, p) ↦ rw p (tally_event-AllOf _ e _ h (c e p))
  ]

module _ (platform : Platform) (clock : Clock) (headers : List Text) where
  -- The event that a row with this number is normalized to.
  abbrev pub MadeOf : ℕ → List Text → CanonicalMarketplaceEvent → Type 0
  MadeOf n row e =
      (r : NormalizedRow) × (normalize_row platform clock row headers n ≡ ok r) × (r.event ≡ some e)

  -- It is made of one of the rows, which are numbered from `n`.
  abbrev pub FromRows : ℕ → List (List Text) → CanonicalMarketplaceEvent → Type 0
  FromRows n [] e = ⊥
  FromRows n (row ∷ rows) e = MadeOf n row e ⊎ FromRows (suc n) rows e

  pub tally_rows-AllOf :
      (P : CanonicalMarketplaceEvent → Type 0) (decode : List ℕ → Option Text) (n : ℕ)
      (rows : List (List Text)) (t u : Tally)
      → ((e : CanonicalMarketplaceEvent) → FromRows n rows e → P e)
      → tally_rows platform clock decode headers n rows t ≡ ok u
      → AllOf P t.events
      → AllOf P u.events
  unfolding tally_rows
  tally_rows-AllOf P decode n [] t u c h k = let same : t ≡ u = cc in rw same at k
  tally_rows-AllOf P decode n (row ∷ rows) t u c h k =
      let (r, read, more) =
        >>=-eq-ok (normalize_row platform clock row headers n)
          (λ result. tally_rows platform clock decode headers (suc n) rows (tally_result result t))
          h in
      let one = tally_result-AllOf P t r (λ e q. c e (inl (r, read, q))) k in
      tally_rows-AllOf P decode (suc n) rows (tally_result r t) u (λ e f. c e (inr f)) more one
