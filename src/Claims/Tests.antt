-- ===== src/Claims/Tests.antt =====
-- A claim and an offer followed through their commands, and the theorems about them at these.
use jejak.Prelude.{◌≡◌, refl, true, false, inl, ◌↔◌, some, [], ◌∷◌, arith, ◌+◌, ℕ}
use jejak.Prelude.Int.{pos, ◌<ℤ◌, ◌≤ℤ◌, ◌-ℤ◌}
use jejak.Prelude.Text.{Text, codes, is_integer, text_mem, text_eq, bigint_of, bigint_text, unique}
use jejak.Shared.Errors.{ok, err, domain_error, version_conflict, invalid_state_transition}
use jejak.Shared.Number.{int}
use jejak.Shared.Sample.{sample_platform, rupiah, rupiah-SameUnit}
use jejak.Shared.Money.{
  assert_same_money_unit, assert_money, is_currency, is_scale, same_money_unit, compare_money,
  compare_amounts, money_amount, zero_money, with_money_amount,
}
use jejak.Shared.Money.Amounts.{value, SameUnit}
use jejak.Claims.Lifecycle.{
  ClaimState, LifecycleClaim, ClaimTransition, CreateClaimInput, create_claim, start_claim_analysis,
  RiskDecision, Decision, claim_state_changed, claim_analysis_completed, assert_version,
  assert_state, apply_risk_decision, manual_review_required,
}
use jejak.Claims.Lifecycle.Soundness.{IsCreatable, IsSound, created, create_claim_exact}
use jejak.Claims.Lifecycle.Histories.{
  Step, analyze, decide, History, create, next, History-IsSound, apply_risk_decision_state,
  overridden_decision, final_states, stale_commands,
}
use jejak.Claims.Offers.{
  offered, accepted, LifecycleOffer, CreateOfferInput, is_sha256, create_financing_offer,
  accept_financing_offer,
}
use jejak.Claims.Offers.Acceptance.{
  IsOpenAt, accept_financing_offer_exact, create_financing_offer_bounds, create_then_accept,
}

abbrev request : CreateClaimInput
request = record {
  id = codes "c1";
  claim_key = codes "k1";
  tenant_id = codes "t1";
  seller_id = codes "s1";
  settlement_stream_id = codes "ss1";
  facility_id = codes "f1";
  gross_unsettled = rupiah (codes "1000");
  requested_advance = rupiah (codes "800");
  blocks_automation = false;
  snapshot_encumbered = false;
  now = codes "10";
}

request-IsCreatable : IsCreatable request
unfolding is_integer bigint_of
request-IsCreatable = record {
  free = refl;
  unit = rupiah-SameUnit (codes "1000") (codes "800") refl refl;
  nonnegative = omega arith;
  covered = omega arith;
}

abbrev new_claim : ClaimTransition
new_claim = created request

create_claim_exact_example :
    (create_claim request ≡ ok new_claim) ↔ (IsCreatable request × (new_claim ≡ new_claim))
create_claim_exact_example = create_claim_exact request new_claim

request-created : create_claim request ≡ ok new_claim
request-created = (create_claim_exact request new_claim).1 (request-IsCreatable, refl)

abbrev analyzed_claim : LifecycleClaim
analyzed_claim = record new_claim.claim {
  state = ClaimState.analyzed;
  updated_at = codes "20";
  version = 2;
}

analysis : Step new_claim.claim analyzed_claim
unfolding start_claim_analysis assert_version assert_state
analysis =
    analyze 1 (codes "20")
      (record {
        claim = analyzed_claim;
        event_type = claim_state_changed;
        previous_state = some ClaimState.draft;
      })
      refl refl

abbrev verdict : RiskDecision
verdict = record {
  expected_version = 2;
  decision = Decision.eligible;
  eligible_settlement_value = rupiah (codes "900");
  max_advance_amount = rupiah (codes "700");
  reason_codes = [];
  blocks_automation = false;
  now = codes "30";
}

abbrev eligible_claim : LifecycleClaim
eligible_claim = record analyzed_claim {
  state = ClaimState.eligible;
  eligible_settlement_value = rupiah (codes "900");
  advance_amount = rupiah (codes "700");
  state_reason_codes = [];
  updated_at = codes "30";
  version = 3;
}

abbrev decided : ClaimTransition
decided = record {
  claim = eligible_claim;
  event_type = claim_analysis_completed;
  previous_state = some ClaimState.analyzed;
}

verdict-applied : apply_risk_decision analyzed_claim verdict ≡ ok decided
unfolding apply_risk_decision assert_version assert_state assert_same_money_unit assert_money
    is_integer is_currency is_scale same_money_unit text_eq compare_money compare_amounts
    money_amount bigint_of ◌-ℤ◌ unique
verdict-applied = refl

eligible-History : History eligible_claim 2
eligible-History =
    next
      (next (create request new_claim {c = new_claim.claim} {n = 0} request-created refl refl)
        analysis refl)
      (decide verdict decided verdict-applied refl) refl

History-IsSound_example : IsSound eligible_claim × (eligible_claim.version ≡ 2 + 1)
History-IsSound_example = History-IsSound eligible_claim 2 eligible-History

apply_risk_decision_state_example :
    (ClaimState.analyzed ≡ ClaimState.analyzed)
    × (◌≡◌ {A = ℕ} 2 2)
    × ((ClaimState.eligible ≡ ClaimState.eligible)
        ↔ ((Decision.eligible ≡ Decision.eligible) × (false ≡ false)))
apply_risk_decision_state_example =
    apply_risk_decision_state analyzed_claim verdict decided verdict-applied

abbrev blocked_verdict : RiskDecision
blocked_verdict = record verdict { blocks_automation = true }

abbrev under_review : ClaimTransition
under_review = record {
  claim = record eligible_claim {
    state = ClaimState.review;
    state_reason_codes = manual_review_required ∷ [];
  };
  event_type = claim_analysis_completed;
  previous_state = some ClaimState.analyzed;
}

blocked_verdict-applied : apply_risk_decision analyzed_claim blocked_verdict ≡ ok under_review
unfolding apply_risk_decision assert_version assert_state assert_same_money_unit assert_money
    is_integer is_currency is_scale same_money_unit text_eq compare_money compare_amounts
    money_amount bigint_of ◌-ℤ◌ unique
blocked_verdict-applied = refl

overridden_decision_example :
    (ClaimState.review ≡ ClaimState.review)
    × (text_mem manual_review_required (manual_review_required ∷ []) ≡ true)
overridden_decision_example =
    overridden_decision analyzed_claim blocked_verdict under_review blocked_verdict-applied refl
      refl

final_states_example : ¬ Step eligible_claim new_claim.claim
final_states_example = final_states eligible_claim new_claim.claim (inl refl)

stale_commands_example :
    (start_claim_analysis eligible_claim 2 (codes "40") ≡ err (domain_error version_conflict))
    × (apply_risk_decision eligible_claim verdict ≡ err (domain_error version_conflict))
stale_commands_example =
    stale_commands analyzed_claim eligible_claim (codes "40") verdict
      (decide verdict decided verdict-applied refl) refl

-- An offer of 600 for a fee of 20, which expires at 90; its terms hash is 64 zeros.
abbrev zeros : Text
zeros = codes "0000000000000000000000000000000000000000000000000000000000000000"

abbrev offer_input : CreateOfferInput
offer_input = record {
  id = codes "o1";
  originator_id = codes "or1";
  claim = eligible_claim;
  principal = rupiah (codes "600");
  fee = rupiah (codes "20");
  annualized_rate_bps = int (pos 1200);
  advance_rate_bps = int (pos 8000);
  expires_at = codes "90";
  terms_hash = zeros;
  has_active_offer = false;
  now = codes "40";
}

abbrev new_offer : LifecycleOffer
new_offer = record {
  id = codes "o1";
  claim_id = codes "c1";
  originator_id = codes "or1";
  principal = rupiah (codes "600");
  fee = rupiah (codes "20");
  annualized_rate_bps = int (pos 1200);
  advance_rate_bps = int (pos 8000);
  expires_at = codes "90";
  terms_hash = zeros;
  status = offered;
  created_at = codes "40";
  version = 1;
}

offer-created : create_financing_offer sample_platform offer_input ≡ ok new_offer
unfolding create_financing_offer assert_same_money_unit assert_money is_integer is_currency is_scale
    same_money_unit text_eq compare_money compare_amounts money_amount zero_money with_money_amount
    bigint_text bigint_of ◌-ℤ◌ is_sha256
offer-created = refl

create_financing_offer_bounds_example :
    (ClaimState.eligible ≡ ClaimState.eligible)
    × (false ≡ false)
    × SameUnit (rupiah (codes "700")) (rupiah (codes "600"))
    × SameUnit (rupiah (codes "600")) (rupiah (codes "20"))
    × (pos 0 <ℤ value (rupiah (codes "600")))
    × (value (rupiah (codes "600")) ≤ℤ value (rupiah (codes "700")))
    × (pos 0 ≤ℤ value (rupiah (codes "20")))
    × IsOpenAt (sample_platform.date_value (codes "90")) (sample_platform.date_value (codes "40"))
create_financing_offer_bounds_example =
    create_financing_offer_bounds sample_platform offer_input new_offer offer-created

abbrev accepted_offer : LifecycleOffer
accepted_offer = record new_offer { status = accepted; version = 2 }

create_then_accept_example :
    (accept_financing_offer sample_platform new_offer 1 zeros true (codes "40") ≡ ok accepted_offer)
    × (accept_financing_offer sample_platform accepted_offer 2 zeros true (codes "50")
        ≡ err (domain_error invalid_state_transition))
create_then_accept_example =
    create_then_accept sample_platform offer_input new_offer zeros (codes "50") offer-created

accept_financing_offer_exact_example :
    (accept_financing_offer sample_platform new_offer 1 zeros false (codes "40")
      ≡ ok accepted_offer)
    ↔ ((◌≡◌ {A = ℕ} 1 1)
        × (false ≡ true)
        × (offered ≡ offered)
        × IsOpenAt
            (sample_platform.date_value (codes "90"))
            (sample_platform.date_value (codes "40"))
        × (zeros ≡ zeros)
        × (accepted_offer ≡ accepted_offer))
accept_financing_offer_exact_example =
    accept_financing_offer_exact sample_platform new_offer 1 zeros false (codes "40") accepted_offer
