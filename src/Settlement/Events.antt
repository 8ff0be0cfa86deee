-- ===== src/Settlement/Events.antt =====
-- apps/api/src/modules/settlement/domain/settlement.ts: settlement events and their validation.
use jejak.Prelude.{ℕ, ◌-◌, ◌^◌, Bool, true, false, not, ◌&&◌, ◌||◌, Option, none, some}
use jejak.Prelude.Tests.{leb, ◌==◌}
use jejak.Prelude.Lists.{all, length}
use jejak.Prelude.Int.{ℤ, pos, ◌-ℤ◌, ltb_ℤ, leb_ℤ}
use jejak.Prelude.Text.{Text, codes, within, is_digit}
use jejak.Shared.Errors.{Result, ok, ◌>>=◌, ◌>>◌, throw_if, settlement, invalid_settlement, Error}
use jejak.Shared.Json.{Json, string, object, end, field, Platform, canonical_hash}
use jejak.Shared.Money.{MoneyValue, assert_money, money_amount, money_json}

pub data SettlementEventType : Type 0 where
  adjustment chargeback refund settlement_event : SettlementEventType

abbrev pub event_type_text : SettlementEventType → Text
event_type_text adjustment = codes "ADJUSTMENT"
event_type_text chargeback = codes "CHARGEBACK"
event_type_text refund = codes "REFUND"
event_type_text settlement_event = codes "SETTLEMENT"

abbrev pub maximum_minor_amount : ℤ
maximum_minor_amount = pos (10 ^ 38 - 1)

pub record SettlementEventInput : Type 0 where
  pub amount : MoneyValue
  pub claim_id : Text
  pub event_type : SettlementEventType
  pub external_event_id : Text
  pub occurred_at : Text
  pub source : Text
  pub source_hash : Text

abbrev pub invalid : Error
invalid = settlement invalid_settlement

-- `amount > maximumMinorAmount || amount < -maximumMinorAmount`
abbrev pub is_out_of_range : ℤ → Bool
is_out_of_range amount =
    ltb_ℤ maximum_minor_amount amount || ltb_ℤ amount (pos 0 -ℤ maximum_minor_amount)

unfoldable pub bounded_amount : MoneyValue → Result ℤ
unfolding ◌-ℤ◌
bounded_amount value = do
  amount ← money_amount value
  throw_if (is_out_of_range amount) invalid
  ok amount

unfoldable pub nonnegative : MoneyValue → Result ℤ
nonnegative value = do
  amount ← bounded_amount value
  throw_if (ltb_ℤ amount (pos 0)) invalid
  ok amount

-- /^[0-9a-f]{64}$/
unfoldable pub is_sha256 : Text → Bool
is_sha256 s = length s == 64 && all (λ c. is_digit c || within b'a' b'f' c) s

abbrev pub is_source_unit : ℕ → Bool
is_source_unit c =
    within b'A' b'Z' c
    || within b'a' b'z' c
    || is_digit c
    || c == b'.'
    || c == b'_'
    || c == b':'
    || c == b'-'

-- /^[A-Za-z0-9._:-]{1,64}$/
unfoldable pub is_source : Text → Bool
is_source s = leb 1 (length s) && leb (length s) 64 && all is_source_unit s

abbrev pub is_invalid_date : Option ℤ → Bool
is_invalid_date none = true
is_invalid_date (some t) = false

module _ (platform : Platform) where
  open platform use {date_value}

  unfoldable pub validate_settlement_event : SettlementEventInput → Result (Unit {0})
  validate_settlement_event input = do
    assert_money input.amount
    amount ← bounded_amount input.amount
    throw_if (leb_ℤ amount (pos 0)) invalid
    throw_if (not (is_sha256 input.source_hash)) invalid
    throw_if (not (is_source input.source)) invalid
    throw_if
        (not (leb 1 (length input.external_event_id))
          || not (leb (length input.external_event_id) 255))
        invalid
    throw_if (is_invalid_date (date_value input.occurred_at)) invalid

  abbrev event_json : SettlementEventInput → Json
  event_json e = object (
      field (codes "amount") (money_json e.amount) (
        field (codes "claimId") (string e.claim_id) (
          field (codes "eventType") (string (event_type_text e.event_type)) (
            field (codes "externalEventId") (string e.external_event_id) (
              field (codes "occurredAt") (string e.occurred_at) (
                field (codes "source") (string e.source)
                  (field (codes "sourceHash") (string e.source_hash) end)))))))

  unfoldable pub settlement_payload_hash : SettlementEventInput → Result Text
  settlement_payload_hash input = do
    validate_settlement_event input
    canonical_hash platform (event_json input)
