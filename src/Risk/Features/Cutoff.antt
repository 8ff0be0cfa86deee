-- ===== src/Risk/Features/Cutoff.antt =====
-- The features of a claim and the cutoff of its snapshot
-- (apps/api/src/modules/risk/domain/feature-snapshot.ts).
use jejak.Prelude.{◌≡◌, refl, ap, some, inl, inr, Bool, false, List, [], ◌∷◌, ◌++◌, arith}
use jejak.Prelude.Tests.{Bool-cases}
use jejak.Prelude.Int.{ℤ, ◌<ℤ◌}
use jejak.Prelude.Lists.{select}
use jejak.Shared.Number.{Number}
use jejak.Shared.Json.{Platform}
use jejak.Ingestion.Types.{CanonicalMarketplaceEvent}
use jejak.Risk.Features.{DecisionSnapshot, is_included, features_of, build_risk_feature_snapshot}

select-agree :
    {A : Type 0} (p : A → Bool) (before after : List A) (x : A)
    → p x ≡ false
    → select p (before ++ x ∷ after) ≡ select p (before ++ after)
select-agree p [] after x h = rw h refl
select-agree p (y ∷ before) after x h =
    let rest = select-agree p before after x h in
    elim (Bool-cases (p y)) [ inl t ↦ rw t (ap (λ xs. y ∷ xs) rest) | inr f ↦ rw f rest ]

module _ (platform : Platform) (number_of : ℤ → Number) where
  later-excluded :
      (snapshot : DecisionSnapshot) (event : CanonicalMarketplaceEvent) (cutoff occurred : ℤ)
      → platform.date_value snapshot.snapshot_cutoff_at ≡ some cutoff
      → platform.date_value event.occurred_at ≡ some occurred
      → cutoff <ℤ occurred
      → is_included platform number_of snapshot event ≡ false
  later-excluded snapshot event cutoff occurred c o h = rw (c, o) (ground arith)

  -- An event after the cutoff of the snapshot has no part in the features and their hash, wherever
  -- it stands among the events and whatever it says: the result is that of the other events.
  pub build_risk_feature_snapshot_cutoff :
      (snapshot : DecisionSnapshot) (before after : List CanonicalMarketplaceEvent)
      (event : CanonicalMarketplaceEvent) (cutoff occurred : ℤ)
      → platform.date_value snapshot.snapshot_cutoff_at ≡ some cutoff
      → platform.date_value event.occurred_at ≡ some occurred
      → cutoff <ℤ occurred
      → build_risk_feature_snapshot platform number_of snapshot (before ++ event ∷ after)
        ≡ build_risk_feature_snapshot platform number_of snapshot (before ++ after)
  unfolding build_risk_feature_snapshot
  build_risk_feature_snapshot_cutoff snapshot before after event cutoff occurred c o h =
      ap (features_of platform number_of snapshot) (
        select-agree (is_included platform number_of snapshot) before after event
          (later-excluded snapshot event cutoff occurred c o h))
