-- ===== src/Reliability/Coordinator/Once.antt =====
-- A change is made once for its scope, with its audit, its event and its response, or not at all
-- (apps/api/src/reliability/mutation-coordinator.ts).
use jejak.Prelude.{◌≡◌, refl, sym, ◌⊎◌, inl, inr}
use jejak.Prelude.Text.{Text}
use jejak.Shared.Errors.{Result, ok, err}
use jejak.Shared.Action.{Action, give, continue_with, continue_with-eq-ok}
use jejak.Shared.Json.{Platform, canonical_hash}
use jejak.Reliability.Redaction.{safe_attributes}
use jejak.Reliability.Coordinator.{
  ClaimDecision, fresh, replay, conflicting, MutationTransaction, MutationUnitOfWork, MutationInput,
  status_or_200, payload_json, audit_fields, safe_event, run_mutation, follow_claim, mutation_work,
  execute_mutation,
}

-- What is kept of the work of a transaction: all of it, or nothing when it has thrown.
abbrev pub kept : {W T : Type 0} → W → Result T × W → Result T × W
kept w (ok response, w') = (ok response, w')
kept w (err e, w') = (err e, w)

module _ {W T : Type 0} (platform : Platform) (transaction : MutationTransaction W T)
    (input : MutationInput W T) (hash : Text) where
  open transaction use {append_audit, append_outbox, claim, complete}

  -- The change with what is written about it, in this order.
  pub record Changed (response : T) (w w' : W) : Type 0 where
    pub w1 : W
    pub w2 : W
    pub w3 : W
    pub mutated : input.mutate w ≡ (ok response, w1)
    pub audited : append_audit (safe_attributes (audit_fields input.audit hash)) w1 ≡ (ok tt, w2)
    pub announced : append_outbox (safe_event input.event) w2 ≡ (ok tt, w3)
    pub completed :
        complete input.scope hash response (status_or_200 input.response_status) w3 ≡ (ok tt, w')

  -- The response is that of an earlier run, or that of the change.
  pub record Answered (response : T) (w w' : W) : Type 0 where
    pub decision : ClaimDecision T
    pub w1 : W
    pub claimed : claim input.scope hash w ≡ (ok decision, w1)
    pub result :
        ((decision ≡ replay response) × (w1 ≡ w')) ⊎ ((decision ≡ fresh) × Changed response w1 w')

  given : (r response : T) (w w' : W) → give r w ≡ (ok response, w') → (r ≡ response) × (w ≡ w')
  given r response w w' h = (cc, cc)

  complete-Changed :
      (r response : T) (w w1 w2 w3 w4 w' : W)
      → input.mutate w ≡ (ok r, w1)
      → append_audit (safe_attributes (audit_fields input.audit hash)) w1 ≡ (ok tt, w2)
      → append_outbox (safe_event input.event) w2 ≡ (ok tt, w3)
      → complete input.scope hash r (status_or_200 input.response_status) w3 ≡ (ok tt, w4)
      → (r ≡ response) × (w4 ≡ w')
      → Changed response w w'
  complete-Changed r response w w1 w2 w3 w4 w' m a o c (e, e') = record {
    w1 = w1;
    w2 = w2;
    w3 = w3;
    mutated = rw (sym e) m;
    audited = a;
    announced = o;
    completed = rw (sym e, sym e') c;
  }

  run_mutation-Changed :
      (response : T) (w w' : W)
      → run_mutation platform transaction input hash w ≡ (ok response, w')
      → Changed response w w'
  unfolding run_mutation
  run_mutation-Changed response w w' h =
      let (r, w1, m, h1) = continue_with-eq-ok (input.mutate w) _ h in
      let (u, w2, a, h2) =
        continue_with-eq-ok (append_audit (safe_attributes (audit_fields input.audit hash)) w1) _
          h1 in
      let (u', w3, o, h3) = continue_with-eq-ok (append_outbox (safe_event input.event) w2) _ h2 in
      let (u'', w4, c, h4) =
        continue_with-eq-ok (complete input.scope hash r (status_or_200 input.response_status) w3) _
          h3 in
      complete-Changed r response w w1 w2 w3 w4 w' m a o c (given r response w4 w' h4)

  follow_claim-cases :
      (d : ClaimDecision T) (response : T) (w w' : W)
      → follow_claim platform transaction input hash d w ≡ (ok response, w')
      → ((d ≡ replay response) × (w ≡ w')) ⊎ ((d ≡ fresh) × Changed response w w')
  follow_claim-cases fresh response w w' h = inr (refl, run_mutation-Changed response w w' h)
  follow_claim-cases (replay r) response w w' h = inl (cc, cc)
  follow_claim-cases conflicting response w w' h = cc

  mutation_work-Answered :
      (response : T) (w w' : W)
      → mutation_work platform transaction input hash w ≡ (ok response, w')
      → Answered response w w'
  unfolding mutation_work
  mutation_work-Answered response w w' h =
      let (d, w1, e, h1) = continue_with-eq-ok (claim input.scope hash w) _ h in
      record { decision = d; w1 = w1; claimed = e; result = follow_claim-cases d response w1 w' h1 }

-- What a run of the coordinator comes to: a response, with all that is written about the change, or
-- an error and nothing changed.
abbrev pub AllOrNothing :
    {W T : Type 0}
    → Platform
    → MutationTransaction W T
    → MutationInput W T
    → W
    → Result T × W
    → Type 0
AllOrNothing platform transaction input w (ok response, w') =
    (hash : Text) × (canonical_hash platform (payload_json input.scope input.payload) ≡ ok hash)
    × Answered platform transaction input hash response w w'
AllOrNothing platform transaction input w (err e, w') = w' ≡ w

module _ {W T : Type 0} (platform : Platform) (transaction : MutationTransaction W T)
    (input : MutationInput W T) (unit_of_work : MutationUnitOfWork W T)
    (atomic : (work : Action W T) (w : W) → unit_of_work.transaction work w ≡ kept w (work w)) where
  kept-AllOrNothing :
      (hash : Text) (w : W) (q : Result T × W)
      → canonical_hash platform (payload_json input.scope input.payload) ≡ ok hash
      → mutation_work platform transaction input hash w ≡ q
      → AllOrNothing platform transaction input w (kept w q)
  kept-AllOrNothing hash w (ok response, w') k h =
      (hash, k, mutation_work-Answered platform transaction input hash response w w' h)
  kept-AllOrNothing hash w (err e, w') k h = refl

  hashed-AllOrNothing :
      (r : Result Text) (w : W)
      → canonical_hash platform (payload_json input.scope input.payload) ≡ r
      → AllOrNothing platform transaction input w (
          continue_with
            (r, w)
            (λ hash. unit_of_work.transaction (mutation_work platform transaction input hash)))
  hashed-AllOrNothing (ok hash) w k =
      rw (atomic (mutation_work platform transaction input hash) w)
        (kept-AllOrNothing hash w _ k refl)
  hashed-AllOrNothing (err e) w k = refl

  -- On a unit of work that keeps nothing of work that has thrown, a command either throws and
  -- changes nothing, or returns a response. The response is that of an earlier run for the same
  -- scope and hash, or that of the change, and then the audit, the event and the completion of the
  -- scope have been written after it, in this order.
  pub execute_mutation-AllOrNothing :
      (w : W)
      → AllOrNothing platform transaction input w
          (execute_mutation platform transaction unit_of_work input w)
  unfolding execute_mutation
  execute_mutation-AllOrNothing w = hashed-AllOrNothing _ w refl
