-- ===== src/Issuer/Orchestrator/Attempts.antt =====
-- The attempts of a command on the journal in memory
-- (apps/api/src/modules/issuer/application/orchestrate-issuer-approval.ts).
use jejak.Prelude.{ℕ, zero, suc, ◌+◌, Bool, true, false, not, Option, none, some}
use jejak.Prelude.Text.{Text}
use jejak.Prelude.Int.{pos}
use jejak.Shared.Number.{Number, integer_between}
use jejak.Shared.Errors.{Result, ok, err, throw_if, issuer, PartnerErrorClass, rejected}
use jejak.Shared.Action.{Action, ◌>>◌, on_second}
use jejak.Shared.Action.Triple.{
  Triple, Ends, Keeps, Anywhere, forget, throw-Anywhere, bind_triple, then_triple, give_triple,
  throw_triple, lift_keeps,
}
use jejak.Shared.Action.Pair.{Holds, on_first_triple, on_second_keeps}
use jejak.Shared.Json.{Platform}
use jejak.Issuer.Receipt.{IssuerApprovalReceipt, validate_issuer_receipt}
use jejak.Issuer.Ports.{
  IssuerApprovalPort, IssuerOperationJournal, IssuerResolution, direct, reconciled, AttemptStatus,
  success, is_retryable_class, as_issuer_adapter_error,
}
use jejak.Issuer.Journal.{JournalState, scope_key}
use jejak.Issuer.Journal.Decisions.{
  Known, Decided, commit_receipt-Decided, record_attempt-Known, record_failure-Known,
}
use jejak.Issuer.Orchestrator.{
  Command, commit_input, attempt_input, failure_input, try_attempt, unless_terminal, sleep_before,
  catch_attempt, commit_or_fail, reconcile, after_attempt, attempt_approval, start_attempts,
  attempts_of, or_two, failure_status, last_failure,
}
use jejak.Issuer.Orchestrator.Memory.{in_memory_journal, outer_partner}

module _ {P : Type 0} (platform : Platform) (partner : IssuerApprovalPort P)
    (sleep : ℕ → Action P (Unit {0})) where
  abbrev W : Type 0
  W = JournalState × P

  abbrev journal : IssuerOperationJournal W
  journal = in_memory_journal platform

  abbrev nap : ℕ → Action W (Unit {0})
  nap attempt = on_second (sleep attempt)

  module _ (c : Command) (hash : Text) where
    abbrev key : Text
    key = scope_key c.context

    abbrev K : W → Type 0
    K = Holds (Known key hash)

    abbrev D : IssuerApprovalReceipt → W → Type 0
    D r = Holds (Decided key hash r)

    record_attempt_keeps :
        (attempt : ℕ) (class : Option PartnerErrorClass) (status : AttemptStatus)
        → Keeps K (journal.record_attempt (attempt_input c attempt class status))
    record_attempt_keeps attempt class status =
        on_first_triple _ _ _ _
          (record_attempt-Known key hash (attempt_input c attempt class status))

    record_failure_keeps :
        (class : PartnerErrorClass) (retryable : Bool)
        → Keeps K (journal.record_failure (failure_input c class retryable))
    record_failure_keeps class retryable =
        on_first_triple _ _ _ _
          (record_failure-Known key hash (failure_input c class retryable) platform)

    commit_triple :
        (receipt : IssuerApprovalReceipt) (resolution : IssuerResolution)
        → Triple K (journal.commit_receipt (commit_input c receipt resolution)) D Anywhere
    commit_triple receipt resolution = forget (
        on_first_triple _ _ _ _
          (commit_receipt-Decided platform (commit_input c receipt resolution) hash))

    attempt_keeps :
        (attempt : ℕ) → Keeps K (try_attempt platform (outer_partner partner) journal nap c attempt)
    unfolding try_attempt
    attempt_keeps attempt =
        then_triple (on_second_keeps (Known key hash) (partner.request_approval c.request))
          λ receipt.
            then_triple (lift_keeps (validate_issuer_receipt platform c.request receipt))
              λ u. then_triple (record_attempt_keeps attempt none success) λ v. give_triple λ w i. i

    unless_terminal_keeps :
        (class : PartnerErrorClass) (retryable : Bool)
        → Keeps K (unless_terminal platform (outer_partner partner) journal nap c class retryable)
    unless_terminal_keeps class true = give_triple λ w i. i
    unless_terminal_keeps class false =
        then_triple (record_failure_keeps class false) λ u. throw_triple

    sleep_keeps :
        (remaining attempt : ℕ)
        → Keeps K (sleep_before platform (outer_partner partner) journal nap remaining attempt)
    sleep_keeps zero attempt = give_triple λ w i. i
    sleep_keeps (suc remaining) attempt = on_second_keeps (Known key hash) (sleep attempt)

    catch_keeps :
        (attempt remaining : ℕ) (class : PartnerErrorClass)
        → Keeps K
            (catch_attempt platform (outer_partner partner) journal nap c attempt remaining class)
    unfolding catch_attempt
    catch_keeps attempt remaining class =
        then_triple
          (record_attempt_keeps attempt (some class) (failure_status (is_retryable_class class)))
          λ u.
            then_triple (unless_terminal_keeps class (is_retryable_class class))
              λ v. sleep_keeps remaining attempt

    commit_or_fail_triple :
        (last : Option PartnerErrorClass) (found : Option IssuerApprovalReceipt)
        → Triple K
            (commit_or_fail platform (outer_partner partner) journal nap c last found)
            D
            Anywhere
    commit_or_fail_triple last none =
        bind_triple (λ u. K) (forget (record_failure_keeps (last_failure last) true))
          λ u. throw-Anywhere
    commit_or_fail_triple last (some receipt) =
        bind_triple (λ u. K)
          (forget (lift_keeps (validate_issuer_receipt platform c.request receipt)))
          λ u. commit_triple receipt reconciled

    reconcile_triple :
        (last : Option PartnerErrorClass)
        → Triple K (reconcile platform (outer_partner partner) journal nap c last) D Anywhere
    unfolding reconcile
    reconcile_triple last =
        bind_triple (λ found. K)
          (forget (
            on_second_keeps (Known key hash)
              (partner.find_approval c.request.partner_idempotency_key)))
          λ found. commit_or_fail_triple last found

    after_attempt-Ends :
        (attempt remaining : ℕ) (next : Option PartnerErrorClass → Action W IssuerApprovalReceipt)
        (r : Result IssuerApprovalReceipt × W)
        → ((last : Option PartnerErrorClass) → Triple K (next last) D Anywhere)
        → Ends (λ receipt. K) K r
        → Ends D Anywhere
            (after_attempt platform (outer_partner partner) journal nap c attempt remaining next r)
    after_attempt-Ends attempt remaining next (ok receipt, w) h k =
        (commit_triple receipt direct).ends w k
    after_attempt-Ends attempt remaining next (err e, w) h k =
        let class = as_issuer_adapter_error e in
        let caught : Triple K
            (catch_attempt platform (outer_partner partner) journal nap c attempt remaining class
              >> next (some class))
            D Anywhere =
          bind_triple (λ u. K) (forget (catch_keeps attempt remaining class)) λ u. h (some class) in
        caught.ends w k

    attempts_triple :
        (remaining attempt : ℕ) (last : Option PartnerErrorClass)
        → Triple K
            (attempt_approval platform (outer_partner partner) journal nap c remaining attempt last)
            D
            Anywhere
    unfolding attempt_approval
    attempts_triple zero attempt last = reconcile_triple last
    attempts_triple (suc remaining) attempt last = record {
      ends = λ w k.
          after_attempt-Ends attempt remaining _ _
            (λ next. attempts_triple remaining (attempt + 1) next)
            ((attempt_keeps attempt).ends w k);
    }

    pub start_triple :
        (max_attempts : Option Number)
        → Triple K
            (start_attempts platform (outer_partner partner) journal nap c max_attempts)
            D
            Anywhere
    unfolding start_attempts
    start_triple max_attempts =
        bind_triple (λ u. K)
          (forget (
            lift_keeps (
              throw_if (not (integer_between (pos 1) (pos 5) (or_two max_attempts)))
                (issuer rejected))))
          λ u. attempts_triple (attempts_of (or_two max_attempts)) 1 none
