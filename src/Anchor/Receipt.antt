-- ===== src/Anchor/Receipt.antt =====
-- apps/api/src/modules/anchor/domain/receipt.ts: the guards of a receipt of the partner.
use jejak.Prelude.{Bool, true, false, not, ◌&&◌, Option, none, some}
use jejak.Prelude.Tests.{ltb}
use jejak.Prelude.Lists.{length}
use jejak.Prelude.Int.{ℤ, ◌+ℤ◌}
use jejak.Prelude.Text.{Text, codes, text_eq}
use jejak.Shared.Errors.{Result, ◌>>=◌, ◌>>◌, throw_if, anchor, reconciliation_mismatch}
use jejak.Shared.Number.{int_eq, number_eq}
use jejak.Shared.Json.{Json, boolean, string, number, object, end, field, Platform, canonical_hash}
use jejak.Shared.Money.{
  MoneyValue, assert_money, same_money_unit, assert_same_money_unit, money_amount, money_json,
}
use jejak.Anchor.Conversion.{
  AnchorRate, AnchorSandboxConfig, AnchorConversion, convert_sandbox_payout,
}
use jejak.Anchor.Payout.{
  AnchorAdapterMode, sandbox, production, AnchorPayoutRequest, AnchorPayoutReceipt,
}

abbrev pub request_json : AnchorPayoutRequest → Json
request_json r = object (
    field (codes "aggregateId") (string r.aggregate_id) (
      field (codes "partnerIdempotencyKey") (string r.partner_idempotency_key) (
        field (codes "requestedAt") (string r.requested_at) (
          field (codes "source") (money_json r.source)
            (field (codes "tenantId") (string r.tenant_id) end)))))

abbrev pub rate_json : AnchorRate → Json
rate_json r = object (
    field (codes "denominator") (string r.denominator) (
      field (codes "numerator") (string r.numerator) (
        field (codes "sourceCurrency") (string r.source_currency)
          (field (codes "targetCurrency") (string r.target_currency) end))))

abbrev pub is_sandbox : AnchorAdapterMode → Bool
is_sandbox sandbox = true
is_sandbox production = false

abbrev pub mode_text : AnchorAdapterMode → Text
mode_text sandbox = codes "SANDBOX"
mode_text production = codes "PRODUCTION"

-- The receipt without its hash.
abbrev pub unsigned_json : AnchorPayoutReceipt → Json
unsigned_json r = object (
    field (codes "adapterMode") (string (mode_text r.adapter_mode)) (
      field (codes "completedAt") (string r.completed_at) (
        field (codes "fee") (money_json r.fee) (
          field (codes "feeBps") (number r.fee_bps) (
            field (codes "partnerReference") (string r.partner_reference) (
              field (codes "rate") (rate_json r.rate) (
                field (codes "requestHash") (string r.request_hash) (
                  field (codes "roundingMode") (string r.rounding_mode) (
                    field (codes "sandbox") (boolean r.sandbox) (
                      field (codes "source") (money_json r.source) (
                        field (codes "status") (string r.status) (
                          field (codes "targetGross") (money_json r.target_gross)
                            (field (codes "targetNet") (money_json r.target_net) end)))))))))))))

abbrev pub is_supported : AnchorPayoutReceipt → Bool
is_supported r =
    is_sandbox r.adapter_mode
    && r.sandbox
    && text_eq r.status (codes "PAID")
    && text_eq r.rounding_mode (codes "DOWN")

unfoldable pub same_money : MoneyValue → MoneyValue → Bool
same_money left right = same_money_unit left right && text_eq left.amount_minor right.amount_minor

-- `mismatch`, unless the test holds.
abbrev pub require : Bool → Result (Unit {0})
require b = throw_if (not b) (anchor reconciliation_mismatch)

abbrev pub same_conversion : AnchorPayoutReceipt → AnchorConversion → Bool
same_conversion receipt expected =
    same_money receipt.target_gross expected.target_gross
    && same_money receipt.fee expected.fee
    && same_money receipt.target_net expected.target_net

module _ (platform : Platform) where
  open platform use {date_value}

  unfoldable pub anchor_request_hash : AnchorPayoutRequest → Result Text
  anchor_request_hash request = do
    assert_money request.source
    canonical_hash platform (request_json request)

  unfoldable pub anchor_receipt_hash : AnchorPayoutReceipt → Result Text
  anchor_receipt_hash receipt = canonical_hash platform (unsigned_json receipt)

  abbrev pub is_date : Option ℤ → Bool
  is_date none = false
  is_date (some t) = true

  unfoldable pub validate_anchor_receipt :
      AnchorPayoutRequest → AnchorPayoutReceipt → AnchorSandboxConfig → Result (Unit {0})
  validate_anchor_receipt request receipt config = do
    expected_request_hash ← anchor_request_hash request
    require (is_supported receipt)
    require (text_eq receipt.request_hash expected_request_hash)
    require (same_money request.source receipt.source)
    expected ← convert_sandbox_payout request.source config
    require (number_eq receipt.fee_bps expected.fee_bps)
    rate_hash ← canonical_hash platform (rate_json receipt.rate)
    expected_rate_hash ← canonical_hash platform (rate_json expected.rate)
    require (text_eq rate_hash expected_rate_hash)
    require (same_conversion receipt expected)
    assert_same_money_unit receipt.target_gross receipt.fee
    assert_same_money_unit receipt.target_gross receipt.target_net
    gross ← money_amount receipt.target_gross
    fee ← money_amount receipt.fee
    net ← money_amount receipt.target_net
    require (int_eq gross (fee +ℤ net))
    require (
        not (ltb (length receipt.partner_reference) 16)
        && is_date (date_value receipt.completed_at))
    hash ← anchor_receipt_hash receipt
    require (text_eq receipt.receipt_hash hash)
