-- ===== src/Resolution/Tests.antt =====
-- A loss, a resolution and two closings, on a repository that holds one claim.
use jejak.Prelude.{ℕ, ◌+◌, ◌≡◌, ◌↔◌, refl, ◌⊎◌, true, none, some, [], ◌∷◌}
use jejak.Prelude.Int.{pos, ◌+ℤ◌, ◌-ℤ◌, min_ℤ}
use jejak.Prelude.Text.{
  Text, codes, text_eq, text_mem, is_positive_integer, is_natural, bigint_of, bigint_text,
}
use jejak.Shared.Errors.{ok}
use jejak.Shared.Number.{int}
use jejak.Shared.Json.{canonical_json, canonical_hash}
use jejak.Shared.Sample.{sample_platform}
use jejak.Resolution.Loss.{
  ResolutionMoney, LossInput, LossAllocation, assert_same_unit, differs, nonnegative, money,
  allocate_loss,
}
use jejak.Resolution.Loss.Balance.{IsBalanced, allocate_loss_balance}
use jejak.Resolution.Transition.{TransitionInput, close_case, opened, assert_resolution_transition}
use jejak.Resolution.Transition.Guards.{IsAllowed, assert_resolution_transition_exact}
use jejak.Resolution.Service.{
  ResolutionCommandContext, ResolutionCaseView, ResolutionRepository, ResolutionReconciliationPort,
  ResolutionInput, run_command, execute,
}
use jejak.Resolution.Service.Outcome.{Outcome, execute-Outcome}
use jejak.Resolution.Finalization.{
  FinalizationSnapshot, FinalizationInput, TargetState, redeemed, closed, closed_with_loss,
  redemption, resolution, ClaimFinalizationRepository, ClaimFinalizationReconciliationPort,
  required, finalize_happy, finalize_adverse,
}
use jejak.Resolution.Finalization.Closing.{
  Confirmed, ClosedFrom, finalize_happy_closing, finalize_adverse_closing,
}

abbrev usdc : Text → ResolutionMoney
usdc amount = record {
  amount_minor = amount;
  currency = codes "USDC";
  scale = int (pos 7);
  issuer = none;
}

-- Of 100, 60 are cash and 10 recovered; the reserve of 20 leaves a loss of 10.
abbrev loss : LossInput
loss = record {
  collectible = usdc (codes "60");
  first_loss_available = usdc (codes "20");
  obligation = usdc (codes "100");
  recovery = usdc (codes "10");
}

abbrev allocation : LossAllocation
allocation = record {
  final_loss = usdc (codes "10");
  first_loss_applied = usdc (codes "20");
  senior_loss = usdc (codes "10");
}

loss-computed : allocate_loss loss ≡ ok allocation
unfolding allocate_loss assert_same_unit differs nonnegative money text_eq is_natural
    is_positive_integer bigint_of bigint_text ◌+ℤ◌ ◌-ℤ◌ min_ℤ
loss-computed = refl

allocate_loss_balance_example : IsBalanced loss allocation
allocate_loss_balance_example = allocate_loss_balance loss allocation loss-computed

abbrev closing : TransitionInput
closing = record {
  action = close_case;
  case_status = some opened;
  claim_state = codes "RESOLUTION";
  expected_version = 4;
  claim_version = 4;
  recovery_realized = none;
}

closing-IsAllowed : IsAllowed closing
unfolding text_mem text_eq assert_resolution_transition
closing-IsAllowed = (assert_resolution_transition_exact closing).0 refl

assert_resolution_transition_exact_example :
    (assert_resolution_transition closing ≡ ok tt) ↔ IsAllowed closing
assert_resolution_transition_exact_example = assert_resolution_transition_exact closing

abbrev context : ResolutionCommandContext
context = record {
  actor_id = codes "actor";
  idempotency_key = codes "key";
  membership_id = codes "member";
  request_id = codes "request";
  role_grant_id = codes "grant";
  tenant_id = codes "tenant";
}

abbrev view : ResolutionCaseView
view = record {
  claim_id = codes "claim";
  closed_at = none;
  evidence_hashes = [];
  final_loss = usdc (codes "10");
  id = codes "case";
  opened_at = codes "2026";
  opened_reason_codes = codes "SETTLEMENT_SHORTFALL" ∷ [];
  recovery_expected = usdc (codes "10");
  recovery_realized = usdc (codes "10");
  resolver_address = codes "resolver";
  status = opened;
  version = 1;
}

-- The world is the number of changes.
abbrev repository : ResolutionRepository ℕ
repository = record {
  load = λ claim context w. (
    ok (
        some
          (record { found_case = some view; claim_state = codes "RESOLUTION"; claim_version = 4 })),
    w,
  );
  replay = none;
  mutate = λ input w. (ok view, w + 1);
}

abbrev reconciliation : ResolutionReconciliationPort ℕ
reconciliation = record { is_close_reconciled = λ claim tenant w. (ok true, w) }

abbrev command : ResolutionInput
command = record {
  action = close_case;
  claim_id = codes "claim";
  evidence_hashes = none;
  expected_version = 4;
  reason_codes = codes "SETTLEMENT_SHORTFALL" ∷ [];
  recovery_realized = none;
}

command-computed :
    execute sample_platform repository reconciliation context command 0 ≡ (ok view, 1)
unfolding execute run_command assert_resolution_transition canonical_hash canonical_json text_mem
    text_eq
command-computed = refl

execute-Outcome_example : Outcome sample_platform repository reconciliation context command view 0 1
execute-Outcome_example =
    execute-Outcome sample_platform repository reconciliation context command view 0 1
      command-computed

abbrev state_text : TargetState → Text
state_text redeemed = codes "REDEEMED"
state_text closed = codes "CLOSED"
state_text closed_with_loss = codes "CLOSED_WITH_LOSS"

abbrev snapshot_in : Text → ℕ → FinalizationSnapshot
snapshot_in state version = record { claim_id = codes "claim"; state = state; version = version }

-- The world is the claim.
abbrev claims : ClaimFinalizationRepository FinalizationSnapshot
claims = record {
  transition = λ input target w. (
    ok (snapshot_in (state_text target) (w.version + 1)),
    snapshot_in (state_text target) (w.version + 1),
  );
  load = λ input w. (ok (some w), w);
}

abbrev chain : ClaimFinalizationReconciliationPort FinalizationSnapshot
chain = record {
  is_reconciled = λ input kind w. (ok true, w);
  request = λ input kind w. (ok tt, w);
}

abbrev finalization : FinalizationInput
finalization = record { claim_id = codes "claim"; expected_version = 7; tenant_id = codes "tenant" }

abbrev repaid : FinalizationSnapshot
repaid = snapshot_in (codes "REPAID") 7

abbrev ended : FinalizationSnapshot
ended = snapshot_in (codes "CLOSED") 9

repaid-computed : finalize_happy claims chain finalization repaid ≡ (ok ended, ended)
unfolding finalize_happy required text_mem text_eq
repaid-computed = refl

finalize_happy_closing_example :
    (claim : FinalizationSnapshot) × (w2 : FinalizationSnapshot) × Confirmed claims chain
      finalization redemption claim repaid w2
    × ((claim.state ≡ codes "REPAID") ⊎ (claim.state ≡ codes "REDEEMED"))
    × ClosedFrom claims chain finalization (text_eq claim.state (codes "REPAID")) ended w2 ended
finalize_happy_closing_example =
    finalize_happy_closing claims chain finalization ended repaid ended repaid-computed

abbrev in_resolution : FinalizationSnapshot
in_resolution = snapshot_in (codes "RESOLUTION") 7

abbrev lost : FinalizationSnapshot
lost = snapshot_in (codes "CLOSED_WITH_LOSS") 8

lost-computed : finalize_adverse claims chain finalization in_resolution ≡ (ok lost, lost)
unfolding finalize_adverse required text_mem text_eq
lost-computed = refl

finalize_adverse_closing_example :
    (claim : FinalizationSnapshot) × (w2 : FinalizationSnapshot) × Confirmed claims chain
      finalization resolution claim in_resolution w2
    × (claim.state ≡ codes "RESOLUTION")
    × (claims.transition finalization closed_with_loss w2 ≡ (ok lost, lost))
finalize_adverse_closing_example =
    finalize_adverse_closing claims chain finalization lost in_resolution lost lost-computed
