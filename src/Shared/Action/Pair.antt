-- ===== src/Shared/Action/Pair.antt =====
-- Triples in a world of two parts, of which a predicate speaks of the first.
use jejak.Shared.Errors.{Result, ok, err}
use jejak.Shared.Action.{Action, on_first, on_second}
use jejak.Shared.Action.Triple.{Triple, Ends, Keeps, keeps_after}

module _ {S P : Type 0} where
  -- A predicate on the first part.
  pub record Holds (I : S → Type 0) (w : S × P) : Type 0 where
    pub part : I w.0

  on_first-Ends :
      {A : Type 0} (Q : A → S → Type 0) (E : S → Type 0) (r : Result A × S) (p : P)
      → Ends Q E r
      → Ends (λ a. Holds (Q a)) (Holds E) (r.0, (r.1, p))
  on_first-Ends Q E (ok a, s) p h = record { part = h }
  on_first-Ends Q E (err e, s) p h = record { part = h }

  pub on_first_triple :
      {A : Type 0} (I : S → Type 0) (Q : A → S → Type 0) (E : S → Type 0) (m : Action S A)
      → Triple I m Q E
      → Triple (Holds I) (on_first m) (λ a. Holds (Q a)) (Holds E)
  on_first_triple I Q E m h = record {
    ends = λ w i. on_first-Ends Q E (m w.0) w.1 (h.ends w.0 i.part);
  }

  pub on_second_keeps :
      {A : Type 0} (I : S → Type 0) (m : Action P A) → Keeps (Holds I) (on_second m)
  on_second_keeps I m = keeps_after (Holds I) (on_second m) λ w i. record { part = i.part }
