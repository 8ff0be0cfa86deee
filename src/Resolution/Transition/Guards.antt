-- ===== src/Resolution/Transition/Guards.antt =====
-- When a resolution command is allowed (apps/api/src/modules/resolution/domain/resolution.ts).
use jejak.Prelude.{
  ◌≡◌, ◌≢◌, ◌↔◌, ◌⊎◌, inl, inr, refl, true, false, Option, none, some, List, [], ◌∷◌, arith,
}
use jejak.Prelude.Tests.{Bool-cases}
use jejak.Prelude.Text.{Text, codes, text_eq, text_mem, text_eq_iff}
use jejak.Shared.Errors.{ok}
use jejak.Resolution.Loss.{ResolutionMoney}
use jejak.Resolution.Transition.{
  CaseStatus, opened, recovering, settled, written_off, TransitionInput, ResolutionAction,
  open_case, update_case, close_case, is_active, is_absent, terminal_states,
  assert_resolution_transition,
}

-- The case is there, and neither settled nor written off.
abbrev pub Active : Option CaseStatus → Type 0
Active s = (s ≡ some opened) ⊎ (s ≡ some recovering)

abbrev pub AllowedFor : ResolutionAction → TransitionInput → Type 0
AllowedFor open_case i = i.claim_state ≡ codes "SHORTFALL"
AllowedFor update_case i =
    Active i.case_status × ((m : ResolutionMoney) × (i.recovery_realized ≡ some m))
AllowedFor close_case i = Active i.case_status

abbrev pub Differs : Text → List Text → Type 0
Differs t [] = Unit
Differs t (w ∷ ws) = (t ≢ w) × Differs t ws

-- The claim is over in these four states.
abbrev pub NotTerminal : Text → Type 0
NotTerminal t =
    Differs t
      (codes "CLOSED" ∷ codes "CLOSED_WITH_LOSS" ∷ codes "REJECTED" ∷ codes "CANCELLED" ∷ [])

-- An action is allowed on a claim: the version is the expected one, the claim is not in a terminal
-- state, and what the action itself asks for holds.
pub record IsAllowed (i : TransitionInput) : Type 0 where
  pub version : i.claim_version ≡ i.expected_version
  pub not_terminal : NotTerminal i.claim_state
  pub for_action : AllowedFor i.action i

is_active-Active : (s : Option CaseStatus) → (is_active s ≡ true) ↔ Active s
is_active-Active none = (λ h. cc, λ h. ground arith)
is_active-Active (some opened) = (λ h. inl refl, λ h. refl)
is_active-Active (some recovering) = (λ h. inr refl, λ h. refl)
is_active-Active (some settled) = (λ h. cc, λ h. ground arith)
is_active-Active (some written_off) = (λ h. cc, λ h. ground arith)

is_absent-some : {A : Type 0} (o : Option A) → (is_absent o ≡ false) ↔ ((a : A) × (o ≡ some a))
is_absent-some none = (λ h. cc, λ h. let (a, e) = h in cc)
is_absent-some (some a) = (λ h. (a, refl), λ h. refl)

text_mem-Differs : (t : Text) (ws : List Text) → (text_mem t ws ≡ false) ↔ Differs t ws
unfolding text_mem
text_mem-Differs t [] = (λ h. tt, λ h. refl)
text_mem-Differs t (w ∷ ws) =
    let rest = text_mem-Differs t ws in
    (
      λ h. ((λ e. let same = (text_eq_iff t w).1 e in ground arith), rest.0 (ground arith)),
      λ h. elim (Bool-cases (text_eq t w)) [
        | inl same ↦ absurd (h.0 ((text_eq_iff t w).0 same))
        | inr other ↦ let absent = rest.1 h.1 in ground arith
      ],
    )

Guarded : ResolutionAction → TransitionInput → Type 0
Guarded open_case i = text_eq i.claim_state (codes "SHORTFALL") ≡ true
Guarded update_case i = (is_active i.case_status ≡ true) × (is_absent i.recovery_realized ≡ false)
Guarded close_case i = is_active i.case_status ≡ true

guards-action :
    (a : ResolutionAction) (i : TransitionInput)
    → i.action ≡ a
    → (assert_resolution_transition i ≡ ok tt) ↔ (
        (i.claim_version ≡ i.expected_version)
        × (text_mem i.claim_state terminal_states ≡ false)
        × Guarded a i)
unfolding assert_resolution_transition Guarded
guards-action open_case i h = (λ e. ground arith, λ e. ground arith)
guards-action update_case i h = (λ e. ground arith, λ e. ground arith)
guards-action close_case i h = (λ e. ground arith, λ e. ground arith)

Guarded-AllowedFor : (a : ResolutionAction) (i : TransitionInput) → Guarded a i ↔ AllowedFor a i
unfolding Guarded
Guarded-AllowedFor open_case i = text_eq_iff i.claim_state (codes "SHORTFALL")
Guarded-AllowedFor update_case i =
    let s = is_active-Active i.case_status in
    let m = is_absent-some i.recovery_realized in (λ h. (s.0 h.0, m.0 h.1), λ h. (s.1 h.0, m.1 h.1))
Guarded-AllowedFor close_case i = is_active-Active i.case_status

-- The guards of a resolution command pass exactly when the claim has the expected version and is
-- in none of the states CLOSED, CLOSED_WITH_LOSS, REJECTED and CANCELLED, and for its action: to
-- open a case, the claim is in SHORTFALL; to update or close one, the case is open or recovering;
-- and to update one, the money that was recovered is given.
pub assert_resolution_transition_exact :
    (i : TransitionInput) → (assert_resolution_transition i ≡ ok tt) ↔ IsAllowed i
assert_resolution_transition_exact i =
    let g = guards-action i.action i refl in
    let t = text_mem-Differs i.claim_state terminal_states in
    let f = Guarded-AllowedFor i.action i in
    (
      λ e.
          let (v, n, a) = g.0 e in record { version = v; not_terminal = t.0 n; for_action = f.0 a },
      λ a. g.1 (a.version, t.1 a.not_terminal, f.1 a.for_action),
    )
