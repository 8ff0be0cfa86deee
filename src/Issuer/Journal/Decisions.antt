-- ===== src/Issuer/Journal/Decisions.antt =====
-- What the journal keeps of a command, and how it answers it again
-- (apps/api/src/modules/issuer/adapters/in-memory-issuer-journal.ts).
use jejak.Prelude.{Bool, true, false, ◌≡◌, refl, Option, none, some, ◌∷◌, inl, inr, ap, sym, ◌∙◌}
use jejak.Prelude.Tests.{Bool-cases, Option-cases}
use jejak.Prelude.Text.{Text, text_eq, text_eq_iff, text_eq_refl, text_mem}
use jejak.Shared.Errors.{Result, ok, err}
use jejak.Shared.Action.Triple.{Triple, Ends, Keeps, keeps_after}
use jejak.Shared.Json.{Platform, canonical_hash}
use jejak.Issuer.Receipt.{IssuerApprovalReceipt}
use jejak.Issuer.Ports.{
  BeginIssuerDecision, started, resumed, replayed, conflicting, failed, BeginInput, CommitInput,
  AttemptInput, FailureInput,
}
use jejak.Issuer.Journal.{
  JournalRecord, JournalState, scope_key, set_record, decide_receipt, begin, begin_at,
  commit_receipt, commit_at, commit_to, with_event, with_receipt, payload_json,
}
use jejak.Issuer.Journal.Failures.{
  record_attempt, record_failure, with_failure, with_failure_event, publish_failure, failure_key,
  failure_json, fail_records, failed_record,
}

abbrev is_known : Text → Option JournalRecord → Bool
is_known hash none = false
is_known hash (some r) = text_eq r.request_hash hash

abbrev receipt_in : Option JournalRecord → Option IssuerApprovalReceipt
receipt_in none = none
receipt_in (some r) = r.receipt

module _ (key hash : Text) where
  -- The journal knows the command of the scope `key` by the hash of its request.
  pub record Known (s : JournalState) : Type 0 where
    pub known : is_known hash (s.records key) ≡ true

  -- It holds the receipt of that command.
  pub record Decided (r : IssuerApprovalReceipt) (s : JournalState) : Type 0 where
    pub known : is_known hash (s.records key) ≡ true
    pub receipt : receipt_in (s.records key) ≡ some r

  -- What a decision says of the journal after it.
  abbrev pub Told : BeginIssuerDecision → JournalState → Type 0
  Told (started id) s = Known s
  Told (resumed id) s = Known s
  Told (replayed r) s = Decided r s
  Told (failed class) s = Unit
  Told conflicting s = Unit

  abbrev pub Anything : JournalState → Type 0
  Anything s = Unit

set_record-same :
    (records : Text → Option JournalRecord) (key : Text) (r : JournalRecord)
    → set_record records key r key ≡ some r
unfolding set_record
set_record-same records key r = rw (text_eq_refl key) refl

module _ (input : BeginInput) where
  abbrev key : Text
  key = scope_key input.context

  decide_receipt-Told :
      (s : JournalState) (x : JournalRecord) (o : Option IssuerApprovalReceipt)
      → is_known input.request_hash (s.records key) ≡ true
      → receipt_in (s.records key) ≡ o
      → Told key input.request_hash (decide_receipt x o) s
  decide_receipt-Told s x none k e = elim (Option-cases x.terminal_failure) [
    | inl p ↦ rw p (record { known = k })
    | inr (f, p) ↦ rw p tt
  ]
  decide_receipt-Told s x (some r) k e = record { known = k; receipt = e }

  begin_at-Told :
      (s : JournalState) (o : Option JournalRecord)
      → s.records key ≡ o
      → Ends (Told key input.request_hash) (Anything key input.request_hash) (begin_at input s o)
  unfolding set_record scope_key
  begin_at-Told s none e = record {
    known = rw (text_eq_refl key, text_eq_refl input.request_hash) refl;
  }
  begin_at-Told s (some x) e = elim (Bool-cases (text_eq x.request_hash input.request_hash)) [
    | inl t ↦ rw t (
        decide_receipt-Told s x x.receipt (ap (is_known input.request_hash) e ∙ t)
          (ap receipt_in e))
    | inr f ↦ rw f tt
  ]

  pub begin-Told :
      Triple
        (Anything key input.request_hash)
        (begin input)
        (Told key input.request_hash)
        (Anything key input.request_hash)
  unfolding begin
  begin-Told = record { ends = λ s u. begin_at-Told s (s.records key) refl }

  replays_record :
      (s : JournalState) (r : IssuerApprovalReceipt) (o : Option JournalRecord)
      → s.records key ≡ o
      → Decided key input.request_hash r s
      → begin_at input s o ≡ (ok (replayed r), s)
  replays_record s r none e d = let absent : none ≡ some r = ap receipt_in (sym e) ∙ d.receipt in cc
  replays_record s r (some x) e d =
      let known = ap (is_known input.request_hash) (sym e) ∙ d.known in
      let held = ap receipt_in (sym e) ∙ d.receipt in rw (known, held) refl

  -- A command that is decided is answered with its receipt, and the journal stays as it is.
  pub begin-Decided :
      (s : JournalState) (r : IssuerApprovalReceipt)
      → Decided key input.request_hash r s
      → begin input s ≡ (ok (replayed r), s)
  unfolding begin
  begin-Decided s r d = replays_record s r (s.records key) refl d

module _ (platform : Platform) (input : CommitInput) (hash : Text) where
  abbrev here : Text
  here = scope_key input.context

  with_event-Decided :
      (s : JournalState) (x : JournalRecord) (q : Result Text)
      → text_eq x.request_hash hash ≡ true
      → Ends (Decided here hash) (Anything here hash) (with_event (with_receipt s input x) input q)
  with_event-Decided s x (err e) k = tt
  with_event-Decided s x (ok t) k = record {
    known = ap (is_known hash) (set_record-same s.records here _) ∙ k;
    receipt = ap receipt_in (set_record-same s.records here _);
  }

  commit_to-Decided :
      (s : JournalState) (x : JournalRecord) (o : Option IssuerApprovalReceipt)
      → s.records here ≡ some x
      → x.receipt ≡ o
      → text_eq x.request_hash hash ≡ true
      → Ends (Decided here hash) (Anything here hash) (commit_to platform input s x o)
  commit_to-Decided s x none e q k =
      with_event-Decided s x (canonical_hash platform (payload_json input)) k
  commit_to-Decided s x (some r) e q k =
      elim (Bool-cases (text_eq r.receipt_hash input.receipt.receipt_hash)) [
        | inl t ↦ rw t (record { known = ap (is_known hash) e ∙ k; receipt = ap receipt_in e ∙ q })
        | inr f ↦ rw f tt
      ]

  commit_at-Decided :
      (s : JournalState) (o : Option JournalRecord)
      → s.records here ≡ o
      → is_known hash o ≡ true
      → Ends (Decided here hash) (Anything here hash) (commit_at platform input s o)
  commit_at-Decided s none e k = tt
  commit_at-Decided s (some x) e k =
      elim (Bool-cases (text_eq x.operation_record_id input.operation_record_id)) [
        | inl t ↦ rw t (commit_to-Decided s x x.receipt e refl k)
        | inr f ↦ rw f tt
      ]

  pub commit_receipt-Decided :
      Triple
        (Known here hash)
        (commit_receipt platform input)
        (Decided here hash)
        (Anything here hash)
  unfolding commit_receipt
  commit_receipt-Decided = record {
    ends = λ s k. commit_at-Decided s (s.records here) refl k.known;
  }

pub record_attempt-Known :
    (key hash : Text) (input : AttemptInput) → Keeps (Known key hash) (record_attempt input)
unfolding record_attempt
record_attempt-Known key hash input =
    keeps_after (Known key hash) (record_attempt input) λ s k. record { known = k.known }

module _ (key hash : Text) (input : FailureInput) where
  failed_record-known :
      (x : JournalRecord)
      → text_eq x.request_hash hash ≡ true
      → text_eq (failed_record input x).request_hash hash ≡ true
  failed_record-known x k = elim (Bool-cases input.retryable) [ inl t ↦ rw t k | inr f ↦ rw f k ]

  fail_records-known :
      (records : Text → Option JournalRecord) (o : Option JournalRecord)
      → records (scope_key input.context) ≡ o
      → is_known hash (records key) ≡ true
      → is_known hash (fail_records input records o key) ≡ true
  unfolding set_record
  fail_records-known records none e k = k
  fail_records-known records (some x) e k =
      elim (Bool-cases (text_eq (scope_key input.context) key)) [
        | inl t ↦
            let same = (text_eq_iff (scope_key input.context) key).0 t in
            let stored = ap records (sym same) ∙ e in
            rw t (failed_record-known x (ap (is_known hash) (sym stored) ∙ k))
        | inr f ↦ rw f k
      ]

  with_event-known :
      (s : JournalState) (q : Result Text)
      → is_known hash (s.records key) ≡ true
      → is_known hash ((with_failure_event input s q).1.records key) ≡ true
  with_event-known s (ok t) k = k
  with_event-known s (err e) k = k

  publish_failure-known :
      (platform : Platform) (b : Bool) (s : JournalState)
      → is_known hash (s.records key) ≡ true
      → is_known hash ((publish_failure platform input b s).1.records key) ≡ true
  publish_failure-known platform true s k = k
  publish_failure-known platform false s k =
      with_event-known (record s { failure_events = failure_key input ∷ s.failure_events })
        (canonical_hash platform (failure_json input)) k

  pub record_failure-Known :
      (platform : Platform) → Keeps (Known key hash) (record_failure platform input)
  unfolding record_failure
  record_failure-Known platform =
      keeps_after (Known key hash) (record_failure platform input) λ s k. record {
        known =
            publish_failure-known platform (text_mem (failure_key input) s.failure_events)
              (with_failure input s)
              (fail_records-known s.records (s.records (scope_key input.context)) refl k.known);
      }
