-- ===== src/Reliability/Coordinator.antt =====
-- apps/api/src/reliability/mutation-coordinator.ts: `MutationCoordinator`, which runs a change once
-- for its scope and writes its audit, its event and its response with it. The transaction and the
-- unit of work are parameters, over a world whose type is left open; attributes are JSON.
pub mod Once
use jejak.Prelude.{ℕ, Option, none, some}
use jejak.Prelude.Tests.{if◌then◌else◌}
use jejak.Prelude.Text.{Text, codes, text_eq}
use jejak.Shared.Errors.{Result, conflict}
use jejak.Shared.Action.{Action, ◌>>=◌, ◌>>◌, give, throw, lift}
use jejak.Shared.Json.{Json, Fields, string, object, end, field, Platform, canonical_hash}
use jejak.Reliability.Redaction.{safe_attributes}

pub data ClaimDecision (T : Type 0) : Type 0 where
  fresh : ClaimDecision T
  replay : T → ClaimDecision T
  conflicting : ClaimDecision T

pub record MutationScope : Type 0 where
  pub actor_id : Text
  pub idempotency_key : Text
  pub operation_id : Text
  pub request_id : Text
  pub tenant_id : Text

pub record MutationEvent : Type 0 where
  pub aggregate_id : Text
  pub aggregate_type : Text
  pub aggregate_version : ℕ
  pub event_type : Text
  pub payload : Fields

pub record MutationTransaction (W T : Type 0) : Type 0 where
  pub append_audit : Fields → Action W (Unit {0})
  pub append_outbox : MutationEvent → Action W (Unit {0})
  pub claim : MutationScope → Text → Action W (ClaimDecision T)
  pub complete : MutationScope → Text → T → ℕ → Action W (Unit {0})

-- `transaction`, which runs the work.
pub record MutationUnitOfWork (W T : Type 0) : Type 0 where
  pub transaction : Action W T → Action W T

pub record MutationInput (W T : Type 0) : Type 0 where
  pub audit : Fields
  pub event : MutationEvent
  pub mutate : Action W T
  pub payload : Json
  pub response_status : Option ℕ
  pub scope : MutationScope

-- `responseStatus ?? 200`
abbrev pub status_or_200 : Option ℕ → ℕ
status_or_200 none = 200
status_or_200 (some n) = n

abbrev pub payload_json : MutationScope → Json → Json
payload_json scope payload =
    object (
      field (codes "operationId") (string scope.operation_id) (field (codes "payload") payload end))

-- A property that is set: in its place where there is one, else after the others.
unfoldable pub set_field : Text → Json → Fields → Fields
set_field key item end = field key item end
set_field key item (field k i fields) =
    let rest = set_field key item fields in
    if text_eq k key then field k item fields else field k i rest

-- `{ ...input.audit, payloadHash, result: "SUCCESS" }`
abbrev pub audit_fields : Fields → Text → Fields
audit_fields audit payload_hash =
    set_field (codes "result") (string (codes "SUCCESS"))
      (set_field (codes "payloadHash") (string payload_hash) audit)

-- `{ ...input.event, payload: safeAttributes(input.event.payload) }`
abbrev pub safe_event : MutationEvent → MutationEvent
safe_event event = record event { payload = safe_attributes event.payload }

module _ {W T : Type 0} (platform : Platform) (transaction : MutationTransaction W T) where
  open transaction use {append_audit, append_outbox, claim, complete}

  -- A command that is new.
  unfoldable pub run_mutation : MutationInput W T → Text → Action W T
  run_mutation input payload_hash = do
    response ← input.mutate
    append_audit (safe_attributes (audit_fields input.audit payload_hash))
    append_outbox (safe_event input.event)
    complete input.scope payload_hash response (status_or_200 input.response_status)
    give response

  abbrev pub follow_claim : MutationInput W T → Text → ClaimDecision T → Action W T
  follow_claim input payload_hash fresh = run_mutation input payload_hash
  follow_claim input payload_hash (replay response) = give response
  follow_claim input payload_hash conflicting = throw conflict

  -- The work of the transaction.
  unfoldable pub mutation_work : MutationInput W T → Text → Action W T
  mutation_work input payload_hash = do
    decision ← claim input.scope payload_hash
    follow_claim input payload_hash decision

  unfoldable pub execute_mutation : MutationUnitOfWork W T → MutationInput W T → Action W T
  execute_mutation unit_of_work input = do
    payload_hash ← lift (canonical_hash platform (payload_json input.scope input.payload))
    unit_of_work.transaction (mutation_work input payload_hash)
