-- ===== src/Facility/Sandbox.antt =====
-- apps/api/src/modules/facility/adapters/deterministic-chain.ts: the chain port of the sandbox.
use jejak.Prelude.{ℕ, ◌+◌, Bool, true, false, ◌&&◌, Option, none, some, [], ◌∷◌}
use jejak.Prelude.Tests.{◌==◌, if◌then◌else◌}
use jejak.Prelude.Int.{pos}
use jejak.Prelude.Text.{Text, codes, text_eq}
use jejak.Shared.Errors.{ok, Error, domain, partner_timeout, partner_rejected}
use jejak.Shared.Action.{Action, ◌>>=◌, ◌>>◌, give, throw, lift}
use jejak.Shared.Number.{int}
use jejak.Shared.Json.{Json, string, object, Platform, canonical_hash}
use jejak.Facility.Types.{
  fund, ChainActionRequest, ChainActionReceipt, action_text, same_action, entries,
}
use jejak.Facility.Ports.{FundingChainPort, sandbox}
use jejak.Facility.Receipt.{chain_action_request_hash, unsigned_json}

pub data Scenario : Type 0 where
  success timeout_then_success lost_response fund_rejected protocol_mismatch : Scenario

pub record ChainState : Type 0 where
  pub actions : Text → Option ChainActionReceipt
  pub attempts : Text → ℕ

abbrev pub no_actions : ChainState
no_actions = record { actions = λ key. none; attempts = λ key. 0 }

abbrev is_timeout_then_success : Scenario → Bool
is_timeout_then_success timeout_then_success = true
is_timeout_then_success _ = false

abbrev is_lost_response : Scenario → Bool
is_lost_response lost_response = true
is_lost_response _ = false

abbrev is_fund_rejected : Scenario → Bool
is_fund_rejected fund_rejected = true
is_fund_rejected _ = false

abbrev is_protocol_mismatch : Scenario → Bool
is_protocol_mismatch protocol_mismatch = true
is_protocol_mismatch _ = false

abbrev timed_out : Error
timed_out = domain partner_timeout true

abbrev throw_when : Bool → Error → Action ChainState (Unit {0})
throw_when true error = throw error
throw_when false error = give tt

abbrev pub unsigned : ChainActionRequest → Text → Text → ℕ → ChainActionReceipt
unsigned request request_hash transaction_hash attempt = record {
  action = request.action;
  envelope_hash = request.envelope_hash;
  ledger_sequence = some (int (pos (1000000 + attempt)));
  network = request.network;
  receipt_hash = [];
  request_hash = request_hash;
  sandbox = true;
  status = codes "SUBMITTED";
  transaction_hash = transaction_hash;
}

abbrev transaction_json : ChainActionRequest → Text → Json
transaction_json request request_hash = object (
    entries (
      (codes "action", string (action_text request.action))
      ∷ (codes "requestHash", string request_hash)
      ∷ []))

abbrev zero_hash : Text
zero_hash = codes "0000000000000000000000000000000000000000000000000000000000000000"

unfoldable pub count_attempt : Text → Action ChainState ℕ
unfolding text_eq
count_attempt key s =
    let attempt = s.attempts key + 1 in
    (
      ok attempt,
      record s { attempts = λ other. if text_eq key other then attempt else s.attempts other },
    )

unfoldable pub store_action : Text → ChainActionReceipt → Action ChainState (Unit {0})
unfolding text_eq
store_action key receipt s = (
  ok tt,
  record s { actions = λ other. if text_eq key other then some receipt else s.actions other },
)

unfoldable pub find_action : ChainActionRequest → Action ChainState (Option ChainActionReceipt)
find_action request s = (ok (s.actions request.idempotency_key), s)

module _ (platform : Platform) (scenario : Scenario) where
  -- The receipt of an attempt, before the scenario changes it.
  unfoldable pub sign_action : ChainActionRequest → ℕ → Action ChainState ChainActionReceipt
  unfolding chain_action_request_hash canonical_hash
  sign_action request attempt = do
    request_hash ← lift (chain_action_request_hash platform request)
    transaction_hash ← lift (canonical_hash platform (transaction_json request request_hash))
    let receipt = unsigned request request_hash transaction_hash attempt
    receipt_hash ← lift (canonical_hash platform (unsigned_json receipt))
    give (record receipt { receipt_hash = receipt_hash })

  unfoldable pub keep_action :
      ChainActionRequest → ℕ → ChainActionReceipt → Action ChainState ChainActionReceipt
  unfolding store_action
  keep_action request attempt receipt =
      if is_protocol_mismatch scenario
      then give (record receipt { receipt_hash = zero_hash })
      else (do
        store_action request.idempotency_key receipt
        throw_when (is_lost_response scenario && attempt == 1) timed_out
        give receipt)

  unfoldable pub submit_new : ChainActionRequest → Action ChainState ChainActionReceipt
  unfolding count_attempt sign_action keep_action
  submit_new request = do
    attempt ← count_attempt request.idempotency_key
    throw_when (is_timeout_then_success scenario && attempt == 1) timed_out
    throw_when (is_fund_rejected scenario && same_action request.action fund)
        (domain partner_rejected false)
    receipt ← sign_action request attempt
    keep_action request attempt receipt

  abbrev or_new :
      ChainActionRequest → Option ChainActionReceipt → Action ChainState ChainActionReceipt
  unfolding submit_new
  or_new request none = submit_new request
  or_new request (some existing) = give existing

  unfoldable pub submit_action : ChainActionRequest → Action ChainState ChainActionReceipt
  unfolding submit_new find_action
  submit_action request = do existing ← find_action request; or_new request existing

  -- `DeterministicFundingChainSandbox`
  abbrev pub sandbox_chain : FundingChainPort ChainState
  unfolding find_action submit_action
  sandbox_chain = record {
    mode = sandbox;
    configured = none;
    find_action = find_action;
    submit_action = submit_action;
  }
