-- ===== src/Issuer/Orchestrator/Decided.antt =====
-- The orchestration on the journal in memory: what it has answered, it answers again
-- (apps/api/src/modules/issuer/application/orchestrate-issuer-approval.ts).
use jejak.Prelude.{ℕ, ◌≡◌, refl, not, Option}
use jejak.Prelude.Text.{Text}
use jejak.Shared.Number.{Number}
use jejak.Shared.Errors.{ok, throw_if, issuer, rejected}
use jejak.Shared.Action.{Action, ◌>>=◌, on_second, continue_with-lift}
use jejak.Shared.Action.Triple.{
  Triple, Anywhere, forget, throw-Anywhere, bind_triple, give_triple, returned,
}
use jejak.Shared.Action.Pair.{Holds, on_first_triple}
use jejak.Shared.Json.{Platform, canonical_hash}
use jejak.Issuer.Receipt.{
  IssuerApprovalRequest, IssuerApprovalReceipt, is_sandbox, issuer_request_hash,
}
use jejak.Issuer.Ports.{
  IssuerOperationContext, IssuerApprovalPort, IssuerOperationJournal, BeginIssuerDecision, started,
  resumed, replayed, failed, conflicting,
}
use jejak.Issuer.Journal.{JournalState, scope_key}
use jejak.Issuer.Journal.Decisions.{Decided, Told, Anything, begin-Told, begin-Decided}
use jejak.Issuer.Orchestrator.{
  Command, command_of, follow_decision, begin_input, execute_approval, request_of, key_json,
  is_other,
}
use jejak.Issuer.Orchestrator.Attempts.{start_triple}
use jejak.Issuer.Orchestrator.Memory.{in_memory_journal, outer_partner}

module _ {P : Type 0} (platform : Platform) (partner : IssuerApprovalPort P)
    (sleep : ℕ → Action P (Unit {0})) where
  abbrev W : Type 0
  W = JournalState × P

  abbrev journal : IssuerOperationJournal W
  journal = in_memory_journal platform

  abbrev nap : ℕ → Action W (Unit {0})
  nap attempt = on_second (sleep attempt)

  -- The orchestrator on the journal in memory.
  abbrev pub approve_in_memory :
      IssuerOperationContext → Option Number → Action W IssuerApprovalReceipt
  approve_in_memory = execute_approval platform (outer_partner partner) journal nap

  module _ (context : IssuerOperationContext) (request : IssuerApprovalRequest) (hash : Text) where
    abbrev key_of : Text
    key_of = scope_key context

    abbrev command : Text → Command
    command = command_of platform (outer_partner partner) journal nap context request hash

    follow_triple :
        (max_attempts : Option Number) (d : BeginIssuerDecision)
        → Triple
            (Holds (Told key_of hash d))
            (follow_decision platform (outer_partner partner) journal nap command max_attempts d)
            (λ r. Holds (Decided key_of hash r))
            Anywhere
    follow_triple max_attempts (started id) =
        start_triple platform partner sleep (command id) hash max_attempts
    follow_triple max_attempts (resumed id) =
        start_triple platform partner sleep (command id) hash max_attempts
    follow_triple max_attempts (replayed r) = give_triple λ w i. i
    follow_triple max_attempts (failed class) = throw-Anywhere
    follow_triple max_attempts conflicting = throw-Anywhere

    -- The part of the command that starts at the journal.
    decide_triple :
        (max_attempts : Option Number)
        → Triple
            (Holds (Anything key_of hash))
            (journal.begin
                (begin_input platform (outer_partner partner) journal nap context request hash)
              >>= follow_decision platform (outer_partner partner) journal nap command max_attempts)
            (λ r. Holds (Decided key_of hash r))
            Anywhere
    decide_triple max_attempts =
        bind_triple (λ d. Holds (Told key_of hash d))
          (forget (
            on_first_triple _ _ _ _ (
              begin-Told
                (begin_input platform (outer_partner partner) journal nap context request hash))))
          λ d. follow_triple max_attempts d

  -- A command that has returned a receipt returns the same receipt when it is run again, whatever
  -- the partner has become and whatever number of attempts is allowed then, also where the receipt
  -- says that the partner has not decided yet. Neither the journal nor the partner is changed.
  pub approve_in_memory_again :
      (context : IssuerOperationContext) (max_attempts again : Option Number)
      (r : IssuerApprovalReceipt) (s s' : JournalState) (p p' q : P)
      → approve_in_memory context max_attempts (s, p) ≡ (ok r, (s', p'))
      → approve_in_memory context again (s', q) ≡ (ok r, (s', q))
  unfolding execute_approval
  approve_in_memory_again context max_attempts again r s s' p p' q h =
      let (u, m, h1) =
        continue_with-lift (throw_if (not (is_sandbox partner.mode)) (issuer rejected)) (s, p) _
          h in
      let (v, o, h2) =
        continue_with-lift (throw_if (is_other context) (issuer rejected)) (s, p) _ h1 in
      let (key, k, h3) =
        continue_with-lift (canonical_hash platform (key_json context)) (s, p) _ h2 in
      let (hash, a, h4) =
        continue_with-lift (issuer_request_hash platform (request_of context key)) (s, p) _ h3 in
      let request = request_of context key in
      let i = begin_input platform (outer_partner partner) journal nap context request hash in
      let d =
        returned (decide_triple context request hash max_attempts) (record { part = tt }) h4 in
      rw (m, o, k, a, begin-Decided i s' r d.part) refl
