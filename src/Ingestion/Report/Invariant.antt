-- ===== src/Ingestion/Report/Invariant.antt =====
-- The invariant of the loop over the rows of a CSV.
use jejak.Prelude.{
  ℕ, suc, ◌+◌, Bool, true, false, not, ◌&&◌, Option, none, some, List, [], ◌∷◌, ◌++◌, ◌≡◌, refl, ap,
  ◌∙◌, inl, inr, arith,
}
use jejak.Prelude.Tests.{Option-cases, Bool-cases}
use jejak.Prelude.Lists.{length, length-append}
use jejak.Prelude.Text.{Text, text_eq, text_mem, text_eq_iff, text_mem-append}
use jejak.Ingestion.Types.{CanonicalMarketplaceEvent}
use jejak.Ingestion.Rows.{NormalizedRow}
use jejak.Ingestion.Report.{Tally, identity_hash, tally_event, tally_result}
use jejak.Ingestion.Report.Canonical.{IsCanonical}

abbrev pub identities_of : List CanonicalMarketplaceEvent → List Text
identities_of [] = []
identities_of (e ∷ es) = e.external_event_id ∷ identities_of es

unfoldable pub distinct : List Text → Bool
distinct [] = true
distinct (t ∷ ts) = not (text_mem t ts) && distinct ts

abbrev pub AllCanonical : List CanonicalMarketplaceEvent → Type 0
AllCanonical [] = Unit
AllCanonical (e ∷ es) = IsCanonical e × AllCanonical es

abbrev pub present : Option Text → Bool
present none = false
present (some t) = true

-- The loop's variables after `n` rows.
pub record IsTally (n : ℕ) (t : Tally) : Type 0 where
  pub counted : length t.events + t.duplicate_rows + t.rejected_rows ≡ n
  pub known :
      (id : Text) → text_mem id (identities_of t.events) ≡ present (identity_hash id t.identities)
  pub once : distinct (identities_of t.events) ≡ true
  pub canonical : AllCanonical t.events

identities_of-append :
    (es : List CanonicalMarketplaceEvent) (e : CanonicalMarketplaceEvent)
    → identities_of (es ++ (e ∷ [])) ≡ identities_of es ++ (e.external_event_id ∷ [])
identities_of-append [] e = refl
identities_of-append (x ∷ es) e = rw (identities_of-append es e)

text_eq_sym : (s t : Text) → text_eq s t ≡ text_eq t s
text_eq_sym s t = ground (arith, text_eq_iff s t, text_eq_iff t s)

distinct-append :
    (ts : List Text) (t : Text)
    → distinct ts ≡ true
    → text_mem t ts ≡ false
    → distinct (ts ++ (t ∷ [])) ≡ true
unfolding distinct text_mem
distinct-append [] t h k = refl
distinct-append (x ∷ ts) t h k =
    ground (arith, distinct-append ts t, text_mem-append x ts (t ∷ []), text_eq_sym x t)

append-AllCanonical :
    (es : List CanonicalMarketplaceEvent) (e : CanonicalMarketplaceEvent)
    → AllCanonical es
    → IsCanonical e
    → AllCanonical (es ++ (e ∷ []))
append-AllCanonical [] e h k = (k, tt)
append-AllCanonical (x ∷ es) e (h, hs) k = (h, append-AllCanonical es e hs k)

known_more :
    (es : List CanonicalMarketplaceEvent) (entries : List (Text × Text))
    (e : CanonicalMarketplaceEvent)
    → ((id : Text) → text_mem id (identities_of es) ≡ present (identity_hash id entries))
    → (id : Text)
    → text_mem id (identities_of (es ++ (e ∷ [])))
      ≡ present (identity_hash id ((e.external_event_id, e.source_row_hash) ∷ entries))
unfolding identity_hash text_mem
known_more es entries e h id =
    let name = e.external_event_id in
    rw (identities_of-append es e, text_mem-append id (identities_of es) (name ∷ []), h id)
      (elim (Bool-cases (text_eq name id)) [
        | inl same ↦ ground (arith, text_eq_sym id name)
        | inr other ↦ ground (arith, text_eq_sym id name)
      ])

new_event-IsTally :
    (n : ℕ) (t : Tally) (e : CanonicalMarketplaceEvent)
    → identity_hash e.external_event_id t.identities ≡ none
    → IsCanonical e
    → IsTally n t
    → IsTally (suc n) (tally_event e none t)
unfolding tally_event identity_hash text_mem
new_event-IsTally n t e fresh c h =
    let absent : text_mem e.external_event_id (identities_of t.events) ≡ false =
      h.known e.external_event_id ∙ ap present fresh in
    record {
      counted = omega (arith, h.counted, length-append t.events (e ∷ []));
      known = known_more t.events t.identities e h.known;
      once =
          rw (identities_of-append t.events e)
            (distinct-append (identities_of t.events) e.external_event_id h.once absent);
      canonical = append-AllCanonical t.events e h.canonical c;
    }

-- The invariant reads the events, their identities and the number of rows.
pub retally :
    (n m : ℕ) (t u : Tally)
    → u.events ≡ t.events
    → u.identities ≡ t.identities
    → IsTally n t
    → length u.events + u.duplicate_rows + u.rejected_rows ≡ m
    → IsTally m u
retally n m t u same_events same_identities h k = record {
  counted = k;
  known = rw (same_events, same_identities) h.known;
  once = rw same_events h.once;
  canonical = rw same_events h.canonical;
}

tally_event-IsTally :
    (n : ℕ) (t : Tally) (e : CanonicalMarketplaceEvent) (previous : Option Text)
    → identity_hash e.external_event_id t.identities ≡ previous
    → IsCanonical e
    → IsTally n t
    → IsTally (suc n) (tally_event e previous t)
unfolding tally_event
tally_event-IsTally n t e none q c h = new_event-IsTally n t e q c h
tally_event-IsTally n t e (some hash) q c h = elim (Bool-cases (text_eq hash e.source_row_hash)) [
  | inl same ↦ rw same (retally n (suc n) t _ refl refl h (omega (arith, h.counted)))
  | inr other ↦ rw other (retally n (suc n) t _ refl refl h (omega (arith, h.counted)))
]

pub tally_result-IsTally :
    (n : ℕ) (t : Tally) (r : NormalizedRow)
    → ((e : CanonicalMarketplaceEvent) → r.event ≡ some e → IsCanonical e)
    → IsTally n t
    → IsTally (suc n) (tally_result r t)
unfolding tally_result
tally_result-IsTally n t r c h = elim (Option-cases r.event) [
  | inl p ↦ rw p (retally n (suc n) t _ refl refl h (omega (arith, h.counted)))
  | inr (e, p) ↦
      let noted = record t { issues = t.issues ++ r.issues } in
      let kept = retally n n t noted refl refl h h.counted in
      rw p (tally_event-IsTally n noted e _ refl (c e p) kept)
]
