-- ===== src/Resolution/Transition.antt =====
-- apps/api/src/modules/resolution/domain/resolution.ts, `assertResolutionTransition`: the guards of
-- a resolution command.
pub mod Guards
use jejak.Prelude.{ℕ, Bool, true, false, not, ◌&&◌, Option, none, some, List, [], ◌∷◌}
use jejak.Prelude.Tests.{◌==◌}
use jejak.Prelude.Text.{Text, codes, text_mem, text_eq}
use jejak.Shared.Errors.{
  Result, ◌>>◌, throw_if, domain_error, validation_error, version_conflict,
  invalid_state_transition,
}
use jejak.Resolution.Loss.{ResolutionMoney}

pub data ResolutionAction : Type 0 where
  open_case update_case close_case : ResolutionAction

pub data CaseStatus : Type 0 where
  opened recovering settled written_off : CaseStatus

pub record TransitionInput : Type 0 where
  pub action : ResolutionAction
  pub case_status : Option CaseStatus
  pub claim_state : Text
  pub expected_version : ℕ
  pub claim_version : ℕ
  pub recovery_realized : Option ResolutionMoney

abbrev pub terminal_states : List Text
terminal_states =
    codes "CLOSED" ∷ codes "CLOSED_WITH_LOSS" ∷ codes "REJECTED" ∷ codes "CANCELLED" ∷ []

abbrev pub is_open_action : ResolutionAction → Bool
is_open_action open_case = true
is_open_action update_case = false
is_open_action close_case = false

abbrev pub is_update_action : ResolutionAction → Bool
is_update_action open_case = false
is_update_action update_case = true
is_update_action close_case = false

abbrev pub is_close_action : ResolutionAction → Bool
is_close_action open_case = false
is_close_action update_case = false
is_close_action close_case = true

-- `["OPEN", "RECOVERING"].includes(status ?? "")`
abbrev pub is_active : Option CaseStatus → Bool
is_active none = false
is_active (some opened) = true
is_active (some recovering) = true
is_active (some settled) = false
is_active (some written_off) = false

abbrev pub is_absent {ℓ} : {A : Type ℓ} → Option A → Bool
is_absent none = true
is_absent (some a) = false

abbrev pub invalid_transition : Bool → Result (Unit {0})
invalid_transition b = throw_if b (domain_error invalid_state_transition)

unfoldable pub assert_resolution_transition : TransitionInput → Result (Unit {0})
assert_resolution_transition input = do
  throw_if (not (input.claim_version == input.expected_version)) (domain_error version_conflict)
  invalid_transition (text_mem input.claim_state terminal_states)
  invalid_transition
      (is_open_action input.action && not (text_eq input.claim_state (codes "SHORTFALL")))
  invalid_transition (not (is_open_action input.action) && not (is_active input.case_status))
  throw_if (is_update_action input.action && is_absent input.recovery_realized) validation_error
