-- ===== src/Resolution/Service.antt =====
-- apps/api/src/modules/resolution/application/resolution-service.ts: `ResolutionService`. The
-- repository and the reconciliation are parameters: records of computations over a world whose type
-- is left open.
pub mod Outcome
use jejak.Prelude.{ℕ, Bool, true, false, not, Option, none, some, List, [], ◌∷◌}
use jejak.Prelude.Int.{pos}
use jejak.Prelude.Text.{Text, codes}
use jejak.Shared.Errors.{Result, throw_if, domain_error, validation_error, invalid_state_transition}
use jejak.Shared.Number.{int}
use jejak.Shared.Action.{Action, ◌>>=◌, ◌>>◌, give, throw, lift}
use jejak.Shared.Json.{
  Json, Items, Fields, undefined, string, number, array, object, nil, cons, end, field, Platform,
  canonical_hash, optional_text,
}
use jejak.Resolution.Loss.{ResolutionMoney}
use jejak.Resolution.Transition.{
  ResolutionAction, open_case, update_case, close_case, CaseStatus, TransitionInput,
  is_close_action, assert_resolution_transition,
}

pub record ResolutionCommandContext : Type 0 where
  pub actor_id : Text
  pub idempotency_key : Text
  pub membership_id : Text
  pub request_id : Text
  pub role_grant_id : Text
  pub tenant_id : Text

pub record ResolutionCaseView : Type 0 where
  pub claim_id : Text
  pub closed_at : Option Text
  pub evidence_hashes : List Text
  pub final_loss : ResolutionMoney
  pub id : Text
  pub opened_at : Text
  pub opened_reason_codes : List Text
  pub recovery_expected : ResolutionMoney
  pub recovery_realized : ResolutionMoney
  pub resolver_address : Text
  pub status : CaseStatus
  pub version : ℕ

-- The field `case` of the source is `found_case`.
pub record ResolutionSnapshot : Type 0 where
  pub found_case : Option ResolutionCaseView
  pub claim_state : Text
  pub claim_version : ℕ

pub record MutateInput : Type 0 where
  pub action : ResolutionAction
  pub claim_id : Text
  pub context : ResolutionCommandContext
  pub evidence_hashes : List Text
  pub expected_version : ℕ
  pub payload_hash : Text
  pub reason_codes : List Text
  pub recovery_realized : Option ResolutionMoney

-- `replay` is an optional method.
pub record ResolutionRepository (W : Type 0) : Type 0 where
  pub load : Text → ResolutionCommandContext → Action W (Option ResolutionSnapshot)
  pub replay : Option (ResolutionCommandContext → Text → Action W (Option ResolutionCaseView))
  pub mutate : MutateInput → Action W ResolutionCaseView

pub record ResolutionReconciliationPort (W : Type 0) : Type 0 where
  pub is_close_reconciled : Text → Text → Action W Bool

pub record ResolutionInput : Type 0 where
  pub action : ResolutionAction
  pub claim_id : Text
  pub evidence_hashes : Option (List Text)
  pub expected_version : ℕ
  pub reason_codes : List Text
  pub recovery_realized : Option ResolutionMoney

abbrev pub action_text : ResolutionAction → Text
action_text open_case = codes "OPEN"
action_text update_case = codes "UPDATE"
action_text close_case = codes "CLOSE"

abbrev pub texts_json : List Text → Items
texts_json [] = nil
texts_json (t ∷ ts) = cons (string t) (texts_json ts)

abbrev pub optional_texts : Option (List Text) → Json
optional_texts none = undefined
optional_texts (some ts) = array (texts_json ts)

abbrev pub optional_money : Option ResolutionMoney → Json
optional_money none = undefined
optional_money (some m) = object (
    field (codes "amountMinor") (string m.amount_minor) (
      field (codes "currency") (string m.currency) (
        field (codes "scale") (number m.scale)
          (field (codes "issuer") (optional_text m.issuer) end))))

abbrev pub input_json : ResolutionInput → Json
input_json input = object (
    field (codes "action") (string (action_text input.action)) (
      field (codes "claimId") (string input.claim_id) (
        field (codes "evidenceHashes") (optional_texts input.evidence_hashes) (
          field (codes "expectedVersion") (number (int (pos input.expected_version))) (
            field (codes "reasonCodes") (array (texts_json input.reason_codes))
              (field (codes "recoveryRealized") (optional_money input.recovery_realized) end))))))

abbrev pub is_empty : List Text → Bool
is_empty [] = true
is_empty (t ∷ ts) = false

abbrev pub or_none : Option (List Text) → List Text
or_none none = []
or_none (some ts) = ts

abbrev pub case_status : Option ResolutionCaseView → Option CaseStatus
case_status none = none
case_status (some c) = some c.status

-- The argument of `assertResolutionTransition`.
abbrev pub transition_of : ResolutionInput → ResolutionSnapshot → TransitionInput
transition_of input snapshot = record {
  action = input.action;
  case_status = case_status snapshot.found_case;
  claim_state = snapshot.claim_state;
  expected_version = input.expected_version;
  claim_version = snapshot.claim_version;
  recovery_realized = input.recovery_realized;
}

-- The argument of `mutate`.
abbrev pub mutation_of : ResolutionCommandContext → ResolutionInput → Text → MutateInput
mutation_of context input payload_hash = record {
  action = input.action;
  claim_id = input.claim_id;
  context = context;
  evidence_hashes = or_none input.evidence_hashes;
  expected_version = input.expected_version;
  payload_hash = payload_hash;
  reason_codes = input.reason_codes;
  recovery_realized = input.recovery_realized;
}

module _ {W : Type 0} (platform : Platform) (repository : ResolutionRepository W)
    (reconciliation : ResolutionReconciliationPort W) where
  open repository use {load, mutate}

  abbrev pub required_snapshot : Option ResolutionSnapshot → Action W ResolutionSnapshot
  required_snapshot none = throw (domain_error invalid_state_transition)
  required_snapshot (some snapshot) = give snapshot

  -- A close asks the reconciliation; the other actions do not.
  abbrev pub assert_reconciled :
      ResolutionAction → Text → ResolutionCommandContext → Action W (Unit {0})
  assert_reconciled open_case claim_id context = give tt
  assert_reconciled update_case claim_id context = give tt
  assert_reconciled close_case claim_id context = do
    reconciled ← reconciliation.is_close_reconciled claim_id context.tenant_id
    lift (throw_if (not reconciled) (domain_error invalid_state_transition))

  -- What `execute` does when the command is no replay.
  unfoldable pub run_command :
      ResolutionCommandContext → ResolutionInput → Text → Action W ResolutionCaseView
  run_command context input payload_hash = do
    found ← load input.claim_id context
    snapshot ← required_snapshot found
    lift (assert_resolution_transition (transition_of input snapshot))
    assert_reconciled input.action input.claim_id context
    mutate (mutation_of context input payload_hash)

  abbrev pub replay_of :
      Option (ResolutionCommandContext → Text → Action W (Option ResolutionCaseView))
      → ResolutionCommandContext
      → Text
      → Action W (Option ResolutionCaseView)
  replay_of none context payload_hash = give none
  replay_of (some replay) context payload_hash = replay context payload_hash

  abbrev pub or_run :
      ResolutionCommandContext
      → ResolutionInput
      → Text
      → Option ResolutionCaseView
      → Action W ResolutionCaseView
  or_run context input payload_hash none = run_command context input payload_hash
  or_run context input payload_hash (some view) = give view

  unfoldable pub execute : ResolutionCommandContext → ResolutionInput → Action W ResolutionCaseView
  execute context input = do
    lift (throw_if (is_empty input.reason_codes) validation_error)
    payload_hash ← lift (canonical_hash platform (input_json input))
    replayed ← replay_of repository.replay context payload_hash
    or_run context input payload_hash replayed
