-- ===== src/Resolution/Finalization.antt =====
-- apps/api/src/modules/resolution/application/finalization-service.ts: `ClaimFinalizationService`,
-- which closes a claim once the chain has confirmed it. The repository and the reconciliation are
-- parameters.
pub mod Closing
use jejak.Prelude.{ℕ, Bool, true, false, not, ◌&&◌, Option, none, some, List, [], ◌∷◌}
use jejak.Prelude.Tests.{◌==◌}
use jejak.Prelude.Text.{Text, codes, text_mem, text_eq}
use jejak.Shared.Errors.{throw_if, domain_error, version_conflict, invalid_state_transition}
use jejak.Shared.Action.{Action, ◌>>=◌, ◌>>◌, give, throw, lift}

pub record FinalizationSnapshot : Type 0 where
  pub claim_id : Text
  pub state : Text
  pub version : ℕ

pub data TargetState : Type 0 where
  redeemed closed closed_with_loss : TargetState

pub data Kind : Type 0 where
  redemption resolution : Kind

-- The arguments of the finalization: `{ claimId, expectedVersion, tenantId }`.
pub record FinalizationInput : Type 0 where
  pub claim_id : Text
  pub expected_version : ℕ
  pub tenant_id : Text

pub record ClaimFinalizationRepository (W : Type 0) : Type 0 where
  pub transition : FinalizationInput → TargetState → Action W FinalizationSnapshot
  pub load : FinalizationInput → Action W (Option FinalizationSnapshot)

pub record ClaimFinalizationReconciliationPort (W : Type 0) : Type 0 where
  pub is_reconciled : FinalizationInput → Kind → Action W Bool
  pub request : FinalizationInput → Kind → Action W (Unit {0})

abbrev pub closed_states : List Text
closed_states = codes "CLOSED" ∷ codes "CLOSED_WITH_LOSS" ∷ []

module _ {W : Type 0} (repository : ClaimFinalizationRepository W)
    (chain : ClaimFinalizationReconciliationPort W) where
  open repository use {transition, load}
  open chain use {is_reconciled, request}

  abbrev pub found_claim : Option FinalizationSnapshot → Action W FinalizationSnapshot
  found_claim none = throw (domain_error invalid_state_transition)
  found_claim (some claim) = give claim

  unfoldable pub required : FinalizationInput → Action W FinalizationSnapshot
  required input = do
    found ← load input
    claim ← found_claim found
    lift (throw_if (not (claim.version == input.expected_version)) (domain_error version_conflict))
    lift (throw_if (text_mem claim.state closed_states) (domain_error invalid_state_transition))
    give claim

  -- A claim that is not reconciled asks the chain for it and is refused.
  abbrev pub reconciled_or_request : FinalizationInput → Kind → Bool → Action W (Unit {0})
  reconciled_or_request input kind true = give tt
  reconciled_or_request input kind false = do
    request input kind
    throw (domain_error invalid_state_transition)

  -- From `REPAID` the claim is redeemed before it is closed.
  abbrev pub redeem_and_close : FinalizationInput → Bool → Action W FinalizationSnapshot
  redeem_and_close input true = do
    claim ← transition input redeemed
    transition (record input { expected_version = claim.version }) closed
  redeem_and_close input false = transition input closed

  unfoldable pub finalize_happy : FinalizationInput → Action W FinalizationSnapshot
  finalize_happy input = do
    claim ← required input
    lift (
        throw_if
          (not (text_eq claim.state (codes "REPAID"))
            && not (text_eq claim.state (codes "REDEEMED")))
          (domain_error invalid_state_transition))
    reconciled ← is_reconciled input redemption
    reconciled_or_request input redemption reconciled
    redeem_and_close input (text_eq claim.state (codes "REPAID"))

  unfoldable pub finalize_adverse : FinalizationInput → Action W FinalizationSnapshot
  finalize_adverse input = do
    claim ← required input
    lift (
        throw_if (not (text_eq claim.state (codes "RESOLUTION")))
          (domain_error invalid_state_transition))
    reconciled ← is_reconciled input resolution
    reconciled_or_request input resolution reconciled
    transition input closed_with_loss
