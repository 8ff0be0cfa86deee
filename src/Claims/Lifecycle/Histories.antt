-- ===== src/Claims/Lifecycle/Histories.antt =====
-- A claim through its commands (apps/api/src/modules/claims/domain/lifecycle.ts): which states
-- follow which, what a version counts, and when a claim becomes eligible.
use jejak.Prelude.{ℕ, suc, ◌+◌, ◌≡◌, refl, true, false, List, [], ◌∷◌, ◌++◌, ◌⊎◌, ◌↔◌, arith}
use jejak.Prelude.Text.{Text, unique, text_mem, text_mem-unique, text_mem-append, text_eq_refl}
use jejak.Shared.Errors.{ok, err, domain_error, version_conflict}
use jejak.Claims.Lifecycle.{
  ClaimState, LifecycleClaim, ClaimTransition, CreateClaimInput, create_claim, start_claim_analysis,
  RiskDecision, Decision, apply_risk_decision, assert_version, assert_state, manual_review_required,
}
use jejak.Claims.Lifecycle.Soundness.{
  IsSound, create_claim_exact, created-IsSound, start_claim_analysis-IsSound,
  apply_risk_decision-IsSound,
}

-- One accepted command of lifecycle.ts on a claim: the start of an analysis or a risk decision.
pub data Step (c : LifecycleClaim) : LifecycleClaim → Type 0 where
  analyze :
      (v : ℕ) (now : Text) (t : ClaimTransition) {d : LifecycleClaim}
      → start_claim_analysis c v now ≡ ok t
      → d ≡ t.claim
      → Step c d
  decide :
      (r : RiskDecision) (t : ClaimTransition) {d : LifecycleClaim}
      → apply_risk_decision c r ≡ ok t
      → d ≡ t.claim
      → Step c d

-- A claim as its creation and `n` further commands left it.
pub data History : LifecycleClaim → ℕ → Type 0 where
  create :
      (i : CreateClaimInput) (t : ClaimTransition) {c : LifecycleClaim} {n : ℕ}
      → create_claim i ≡ ok t
      → c ≡ t.claim
      → n ≡ 0
      → History c n
  next : {c d : LifecycleClaim} {m n : ℕ} → History c m → Step c d → n ≡ suc m → History d n

Step-IsSound : {c d : LifecycleClaim} → IsSound c → Step c d → IsSound d
Step-IsSound {c} h (analyze v now t e p) = rw p (start_claim_analysis-IsSound c v now t h e)
Step-IsSound {c} h (decide r t e p) = rw p (apply_risk_decision-IsSound c r t h e)

Step-version : {c d : LifecycleClaim} → Step c d → d.version ≡ c.version + 1
unfolding start_claim_analysis apply_risk_decision
Step-version (analyze v now t e p) = ground arith
Step-version (decide r t e p) = ground arith

create-Sound :
    (i : CreateClaimInput) (t : ClaimTransition)
    → create_claim i ≡ ok t
    → IsSound t.claim × (t.claim.version ≡ 1)
create-Sound i t e = let h = (create_claim_exact i t).0 e in rw h.1 (created-IsSound i h.0, refl)

-- After its creation and any number of accepted commands the amounts of a claim are sound, and its
-- version is one more than the number of those commands.
pub History-IsSound : (c : LifecycleClaim) (n : ℕ) → History c n → IsSound c × (c.version ≡ n + 1)
History-IsSound c n (create i t e p z) = rw (p, z) (create-Sound i t e)
History-IsSound c n (next {c = b} {m = m} h s z) =
    let ih = History-IsSound b m h in (Step-IsSound ih.0 s, omega (arith, Step-version s, ih.1))

-- An accepted decision was made at the claim's version and in the state ANALYZED, and the claim
-- becomes eligible exactly if the decision says so and automation is not blocked.
pub apply_risk_decision_state :
    (c : LifecycleClaim) (d : RiskDecision) (t : ClaimTransition)
    → apply_risk_decision c d ≡ ok t
    → (c.state ≡ ClaimState.analyzed)
      × (c.version ≡ d.expected_version)
      × ((t.claim.state ≡ ClaimState.eligible)
          ↔ ((d.decision ≡ Decision.eligible) × (d.blocks_automation ≡ false)))
unfolding apply_risk_decision assert_version assert_state
apply_risk_decision_state c d t e =
    (ground arith, ground arith, (λ h. (ground arith, ground arith), λ h. ground arith))

manual_review-listed :
    (ts : List Text)
    → text_mem manual_review_required (unique (ts ++ manual_review_required ∷ [])) ≡ true
unfolding text_mem
manual_review-listed ts =
    rw
      (
        text_mem-unique manual_review_required (ts ++ manual_review_required ∷ []),
        text_mem-append manual_review_required ts (manual_review_required ∷ []),
        text_eq_refl manual_review_required,
      )
      (ground arith)

-- An eligible decision that is overridden because automation is blocked leaves the claim under
-- review, with MANUAL_REVIEW_REQUIRED among its reason codes.
pub overridden_decision :
    (c : LifecycleClaim) (d : RiskDecision) (t : ClaimTransition)
    → apply_risk_decision c d ≡ ok t
    → d.blocks_automation ≡ true
    → d.decision ≡ Decision.eligible
    → (t.claim.state ≡ ClaimState.review)
      × (text_mem manual_review_required t.claim.state_reason_codes ≡ true)
unfolding apply_risk_decision
overridden_decision c d t e b h = ground (arith, manual_review-listed d.reason_codes)

-- A claim that is eligible or rejected accepts neither the start of an analysis nor a risk decision.
pub final_states :
    (c d : LifecycleClaim)
    → (c.state ≡ ClaimState.eligible) ⊎ (c.state ≡ ClaimState.rejected)
    → ¬ Step c d
unfolding start_claim_analysis apply_risk_decision assert_state
final_states c d h (analyze v now t e p) = ground arith
final_states c d h (decide r t e p) = ground arith

-- Once a command has been accepted, every command that names the version it was made for is
-- refused with a version conflict.
pub stale_commands :
    (c d : LifecycleClaim) (now : Text) (r : RiskDecision)
    → Step c d
    → r.expected_version ≡ c.version
    → (start_claim_analysis d c.version now ≡ err (domain_error version_conflict))
      × (apply_risk_decision d r ≡ err (domain_error version_conflict))
unfolding start_claim_analysis apply_risk_decision assert_version
stale_commands c d now r s h = ground (arith, Step-version s)
