-- ===== src/Claims/Lifecycle.antt =====
-- apps/api/src/modules/claims/domain/lifecycle.ts: the states of a claim from its creation to the
-- risk decision. The version of a claim is a natural number.
pub mod Soundness
pub mod Histories
use jejak.Prelude.{ℕ, ◌+◌, Bool, true, false, not, ◌&&◌, Option, none, some, List, [], ◌∷◌, ◌++◌}
use jejak.Prelude.Tests.{◌==◌, if◌then◌else◌}
use jejak.Prelude.Text.{Text, codes, unique}
use jejak.Shared.Errors.{
  Result, ok, ◌>>=◌, ◌>>◌, throw_if, domain_error, version_conflict, invalid_state_transition,
  claim_already_encumbered, validation_error,
}
use jejak.Shared.Money.{
  MoneyValue, assert_same_money_unit, compare_money, zero_money, is_less, is_greater,
}

pub data ClaimState : Type 0 where
  draft data_pending analyzed eligible review rejected : ClaimState

pub record LifecycleClaim : Type 0 where
  pub id : Text
  pub claim_key : Text
  pub tenant_id : Text
  pub seller_id : Text
  pub settlement_stream_id : Text
  pub facility_id : Text
  pub state : ClaimState
  pub source_currency : Text
  pub gross_unsettled : MoneyValue
  pub eligible_settlement_value : MoneyValue
  pub advance_amount : MoneyValue
  pub requested_advance : MoneyValue
  pub outstanding_principal : MoneyValue
  pub state_reason_codes : List Text
  pub created_at : Text
  pub updated_at : Text
  pub version : ℕ

pub data EventType : Type 0 where
  claim_created claim_state_changed claim_analysis_completed : EventType

pub record ClaimTransition : Type 0 where
  pub claim : LifecycleClaim
  pub event_type : EventType
  pub previous_state : Option ClaimState

unfoldable pub assert_version : ℕ → ℕ → Result (Unit {0})
assert_version actual expected = throw_if (not (actual == expected)) (domain_error version_conflict)

abbrev pub state_eq : ClaimState → ClaimState → Bool
state_eq draft draft = true
state_eq data_pending data_pending = true
state_eq analyzed analyzed = true
state_eq eligible eligible = true
state_eq review review = true
state_eq rejected rejected = true
state_eq _ _ = false

abbrev pub includes : ClaimState → List ClaimState → Bool
includes actual [] = false
includes actual (s ∷ allowed) = if state_eq s actual then true else includes actual allowed

unfoldable pub assert_state : ClaimState → List ClaimState → Result (Unit {0})
assert_state actual allowed =
    throw_if (not (includes actual allowed)) (domain_error invalid_state_transition)

pub record CreateClaimInput : Type 0 where
  pub id : Text
  pub claim_key : Text
  pub tenant_id : Text
  pub seller_id : Text
  pub settlement_stream_id : Text
  pub facility_id : Text
  pub gross_unsettled : MoneyValue
  pub requested_advance : MoneyValue
  pub blocks_automation : Bool
  pub snapshot_encumbered : Bool
  pub now : Text

abbrev pub manual_review_required : Text
manual_review_required = codes "MANUAL_REVIEW_REQUIRED"

-- The claim of the returned transition, with the zero of its unit.
abbrev pub initial_claim : CreateClaimInput → MoneyValue → LifecycleClaim
initial_claim input zero = record {
  id = input.id;
  claim_key = input.claim_key;
  tenant_id = input.tenant_id;
  seller_id = input.seller_id;
  settlement_stream_id = input.settlement_stream_id;
  facility_id = input.facility_id;
  state = if input.blocks_automation then data_pending else draft;
  source_currency = input.gross_unsettled.currency;
  gross_unsettled = input.gross_unsettled;
  eligible_settlement_value = zero;
  advance_amount = zero;
  requested_advance = input.requested_advance;
  outstanding_principal = zero;
  state_reason_codes = if input.blocks_automation then manual_review_required ∷ [] else [];
  created_at = input.now;
  updated_at = input.now;
  version = 1;
}

unfoldable pub create_claim : CreateClaimInput → Result ClaimTransition
create_claim input = do
  throw_if input.snapshot_encumbered (domain_error claim_already_encumbered)
  assert_same_money_unit input.gross_unsettled input.requested_advance
  requested_zero ← zero_money input.requested_advance
  sign ← compare_money input.requested_advance requested_zero
  throw_if (is_less sign) validation_error
  order ← compare_money input.requested_advance input.gross_unsettled
  throw_if (is_greater order) validation_error
  zero ← zero_money input.gross_unsettled
  ok (record {
    event_type = claim_created;
    previous_state = none;
    claim = initial_claim input zero;
  })

unfoldable pub start_claim_analysis : LifecycleClaim → ℕ → Text → Result ClaimTransition
start_claim_analysis claim expected_version now = do
  assert_version claim.version expected_version
  assert_state claim.state (draft ∷ data_pending ∷ review ∷ [])
  ok (record {
    event_type = claim_state_changed;
    previous_state = some claim.state;
    claim = record claim { state = analyzed; updated_at = now; version = claim.version + 1 };
  })

pub data Decision : Type 0 where
  eligible review ineligible : Decision

abbrev pub is_eligible : Decision → Bool
is_eligible Decision.eligible = true
is_eligible Decision.review = false
is_eligible Decision.ineligible = false

pub record RiskDecision : Type 0 where
  pub expected_version : ℕ
  pub decision : Decision
  pub eligible_settlement_value : MoneyValue
  pub max_advance_amount : MoneyValue
  pub reason_codes : List Text
  pub blocks_automation : Bool
  pub now : Text

-- `input.blocksAutomation && input.decision === "ELIGIBLE"`
abbrev pub is_overridden : Bool → Decision → Bool
is_overridden blocks decision = blocks && is_eligible decision

abbrev pub decided_state : Decision → ClaimState
decided_state Decision.eligible = ClaimState.eligible
decided_state Decision.review = ClaimState.review
decided_state Decision.ineligible = ClaimState.rejected

unfoldable pub apply_risk_decision : LifecycleClaim → RiskDecision → Result ClaimTransition
apply_risk_decision claim input = do
  let overridden = is_overridden input.blocks_automation input.decision
  assert_version claim.version input.expected_version
  assert_state claim.state (analyzed ∷ [])
  assert_same_money_unit claim.gross_unsettled input.eligible_settlement_value
  assert_same_money_unit claim.gross_unsettled input.max_advance_amount
  order ← compare_money input.max_advance_amount claim.requested_advance
  ok (record {
    event_type = claim_analysis_completed;
    previous_state = some claim.state;
    claim = record claim {
      state = decided_state (if overridden then Decision.review else input.decision);
      eligible_settlement_value = input.eligible_settlement_value;
      advance_amount =
          if is_greater order then claim.requested_advance else input.max_advance_amount;
      state_reason_codes =
          unique (input.reason_codes ++ (if overridden then manual_review_required ∷ [] else []));
      updated_at = input.now;
      version = claim.version + 1;
    };
  })
