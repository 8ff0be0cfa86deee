-- ===== src/Anchor/Tests.antt =====
-- A payout of 123.456789 USDC at 16250 rupiah for one, for a fee of 25 basis points.
use jejak.Prelude.{ℕ, ◌+◌, ◌≡◌, refl, true, none, some}
use jejak.Prelude.Tests.{◌==◌, if◌then◌else◌}
use jejak.Shared.Action.{Action}
use jejak.Shared.Json.{Platform, canonical_hash, canonical_json, sort_entries, insert_entry}
use jejak.Shared.Sample.{sample_platform}
use jejak.Anchor.Payout.{
  AnchorAdapterMode, AnchorPayoutReceipt, AnchorPayoutPort, AnchorPayoutContext, is_retryable,
  as_anchor_error,
}
use jejak.Anchor.Receipt.{
  same_money, anchor_request_hash, anchor_receipt_hash, validate_anchor_receipt,
}
use jejak.Anchor.Journal.{
  JournalState, initial_state, scope_key, set_record, next_id, pad_start, begin, commit_receipt,
  record_attempt,
}
use jejak.Anchor.Orchestrator.{
  execute_payout, start_attempts, attempt_payout, try_attempt, catch_attempt,
}
use jejak.Anchor.Orchestrator.Idempotency.{execute_in_memory, execute_in_memory_again}
use jejak.Prelude.Int.{pos, ◌+ℤ◌, ◌-ℤ◌, ◌*ℤ◌, ◌/ℤ◌, ◌%ℤ◌}
use jejak.Prelude.Text.{
  Text, codes, is_positive_integer, is_integer, text_eq, bigint_of, bigint_text, decimal,
}
use jejak.Shared.Errors.{Result, ok, err, anchor, timeout}
use jejak.Shared.Number.{int}
use jejak.Shared.Money.{
  MoneyValue, assert_money, same_money_unit, assert_same_money_unit, is_currency, is_scale,
  money_amount, with_money_amount,
}
use jejak.Anchor.Conversion.{
  AnchorSandboxConfig, AnchorConversion, normalize_sandbox_config, power_of_ten, quote_payout,
  target_template, convert_amount, convert_sandbox_payout,
}
use jejak.Anchor.Conversion.Exactness.{
  Terms, Payout, AreTerms, AreAmounts, IsPayout, convert_sandbox_payout_exact,
}

abbrev usdc : MoneyValue
usdc = record {
  amount_minor = codes "123456789";
  currency = codes "USDC";
  scale = int (pos 6);
  issuer = none;
}

abbrev config : AnchorSandboxConfig
config = record {
  fee_bps = int (pos 25);
  rate_denominator = codes "1";
  rate_numerator = codes "16250";
  source_currency = none;
  source_scale = none;
  target_currency = none;
  target_issuer = none;
  target_scale = none;
}

abbrev tidr : Text → MoneyValue
tidr amount = record {
  amount_minor = amount;
  currency = codes "TIDR";
  scale = int (pos 2);
  issuer = some (codes "SANDBOX");
}

abbrev conversion : AnchorConversion
conversion = record {
  fee = tidr (codes "501543");
  fee_bps = int (pos 25);
  rate = record {
    denominator = codes "1";
    numerator = codes "16250";
    source_currency = codes "USDC";
    target_currency = codes "TIDR";
  };
  remainder_numerator = codes "125000";
  target_gross = tidr (codes "200617282");
  target_net = tidr (codes "200115739");
}

conversion-computed : convert_sandbox_payout usdc config ≡ ok conversion
unfolding convert_sandbox_payout convert_amount normalize_sandbox_config quote_payout power_of_ten
    target_template assert_money money_amount with_money_amount is_currency is_scale is_integer
    is_positive_integer text_eq bigint_of bigint_text ◌-ℤ◌ ◌*ℤ◌ ◌/ℤ◌ ◌%ℤ◌
conversion-computed = refl

convert_sandbox_payout_exact_example :
    (t : Terms) × (p : Payout) × AreTerms usdc config conversion t
    × AreAmounts conversion p
    × IsPayout t p
convert_sandbox_payout_exact_example =
    convert_sandbox_payout_exact usdc config conversion conversion-computed

-- A platform on which every text has the same hash.
abbrev platform : Platform
platform = record sample_platform { sha256 = λ t. codes "00" }

abbrev receipt : AnchorPayoutReceipt
receipt = record {
  adapter_mode = AnchorAdapterMode.sandbox;
  completed_at = codes "20260102";
  fee = tidr (codes "501543");
  fee_bps = int (pos 25);
  partner_reference = codes "sandbox-reference-1";
  rate = conversion.rate;
  receipt_hash = codes "00";
  request_hash = codes "00";
  rounding_mode = codes "DOWN";
  sandbox = true;
  source = usdc;
  status = codes "PAID";
  target_gross = tidr (codes "200617282");
  target_net = tidr (codes "200115739");
}

-- A partner that counts its requests and fails the first of them.
abbrev partner : AnchorPayoutPort ℕ
partner = record {
  mode = AnchorAdapterMode.sandbox;
  find_payout = λ key w. (ok none, w);
  request_payout = λ request w. (if w == 0 then err (anchor timeout) else ok receipt, w + 1);
}

abbrev pause : ℕ → Action ℕ (Unit {0})
pause n w = (ok tt, w)

abbrev payout : AnchorPayoutContext
payout = record {
  actor_id = codes "actor";
  aggregate_id = codes "claim";
  idempotency_key = codes "key";
  operation_id = codes "payout";
  request_id = codes "request";
  requested_at = codes "20260101";
  source = usdc;
  tenant_id = codes "tenant";
}

abbrev paid : Result AnchorPayoutReceipt × (JournalState × ℕ)
paid = execute_in_memory platform partner config pause payout none (initial_state, 0)

paid-computed : paid ≡ (ok receipt, (paid.1.0, 2))
unfolding execute_payout start_attempts attempt_payout try_attempt catch_attempt as_anchor_error
    is_retryable validate_anchor_receipt anchor_request_hash anchor_receipt_hash same_money
    same_money_unit assert_same_money_unit begin commit_receipt record_attempt scope_key set_record
    next_id pad_start decimal canonical_hash canonical_json sort_entries insert_entry
    convert_sandbox_payout convert_amount normalize_sandbox_config quote_payout power_of_ten
    target_template assert_money money_amount with_money_amount is_currency is_scale is_integer
    is_positive_integer text_eq bigint_of bigint_text ◌+ℤ◌ ◌-ℤ◌ ◌*ℤ◌ ◌/ℤ◌ ◌%ℤ◌
paid-computed = refl

execute_in_memory_again_example :
    execute_in_memory platform partner config pause payout (some (int (pos 1))) (paid.1.0, 0)
    ≡ (ok receipt, (paid.1.0, 0))
execute_in_memory_again_example =
    execute_in_memory_again platform partner config pause payout none (some (int (pos 1))) receipt
      initial_state paid.1.0 0 2 0 paid-computed
