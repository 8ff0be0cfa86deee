-- ===== src/Reliability/Tests.antt =====
-- A change that counts up, on a transaction that writes its log into the world.
use jejak.Prelude.{ℕ, ◌+◌, ◌≡◌, refl, true, none}
use jejak.Prelude.Text.{codes}
use jejak.Shared.Errors.{ok}
use jejak.Shared.Json.{Fields, string, object, end, field, null}
use jejak.Shared.Sample.{sample_platform}
use jejak.Reliability.Redaction.{safe_attributes, is_sensitive, contains, begins_with}
use jejak.Reliability.Redaction.Hidden.{fields_hidden, safe_attributes_hidden}
use jejak.Reliability.Coordinator.{
  fresh, MutationScope, MutationEvent, MutationTransaction, MutationUnitOfWork, MutationInput,
  execute_mutation,
}
use jejak.Reliability.Coordinator.Once.{kept, AllOrNothing, execute_mutation-AllOrNothing}

abbrev attributes : Fields
attributes = field (codes "accessToken") (string (codes "abc")) (
    field (codes "claim")
      (object (
        field (codes "email") (string (codes "a@b")) (field (codes "id") (string (codes "1")) end)))
      end)

safe_attributes-computed :
    safe_attributes attributes
    ≡ field (codes "accessToken") (string (codes "[REDACTED]")) (
        field
          (codes "claim")
          (object (
            field
              (codes "email")
              (string (codes "[REDACTED]"))
              (field (codes "id") (string (codes "1")) end)))
          end)
unfolding safe_attributes is_sensitive contains begins_with
safe_attributes-computed = refl

safe_attributes_hidden_example : fields_hidden (safe_attributes attributes) ≡ true
safe_attributes_hidden_example = safe_attributes_hidden attributes

-- The world is a counter.
abbrev transaction : MutationTransaction ℕ ℕ
transaction = record {
  append_audit = λ audit w. (ok tt, w + 10);
  append_outbox = λ event w. (ok tt, w + 100);
  claim = λ scope hash w. (ok fresh, w);
  complete = λ scope hash response status w. (ok tt, w + 1000);
}

abbrev unit_of_work : MutationUnitOfWork ℕ ℕ
unit_of_work = record { transaction = λ work w. kept w (work w) }

abbrev scope : MutationScope
scope = record {
  actor_id = codes "actor";
  idempotency_key = codes "key";
  operation_id = codes "count";
  request_id = codes "request";
  tenant_id = codes "tenant";
}

abbrev event : MutationEvent
event = record {
  aggregate_id = codes "counter";
  aggregate_type = codes "counter";
  aggregate_version = 1;
  event_type = codes "counted";
  payload = attributes;
}

abbrev input : MutationInput ℕ ℕ
input = record {
  audit = attributes;
  event = event;
  mutate = λ w. (ok (w + 1), w + 1);
  payload = null;
  response_status = none;
  scope = scope;
}

execute_mutation-AllOrNothing_example :
    AllOrNothing sample_platform transaction input 0
      (execute_mutation sample_platform transaction unit_of_work input 0)
execute_mutation-AllOrNothing_example =
    execute_mutation-AllOrNothing sample_platform transaction input unit_of_work (λ work w. refl) 0
