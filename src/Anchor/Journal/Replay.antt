-- ===== src/Anchor/Journal/Replay.antt =====
-- What the journal keeps of a committed payout, and how it answers the same command again
-- (apps/api/src/modules/anchor/adapters/in-memory-payout-journal.ts).
use jejak.Prelude.{◌≡◌, refl, sym, ap, ◌∙◌, ◌⊎◌, inl, inr, Option, none, some}
use jejak.Prelude.Tests.{Bool-cases, Option-cases}
use jejak.Prelude.Text.{Text, text_eq, text_eq_iff, text_eq_refl}
use jejak.Shared.Errors.{Result, ok, err}
use jejak.Shared.Json.{Platform, canonical_hash}
use jejak.Anchor.Payout.{AnchorPayoutReceipt, replayed, conflicting, BeginInput, CommitInput}
use jejak.Anchor.Journal.{
  RecordStatus, JournalRecord, JournalState, scope_key, set_record, begin, begin_at, decide_receipt,
  with_event, with_receipt, payload_json, commit_to, commit_at, commit_receipt,
}

-- The journal knows the command of the scope `key` under the hash of its request.
pub record Known (key hash : Text) (s : JournalState) : Type 0 where
  pub found : JournalRecord
  pub stored : s.records key ≡ some found
  pub same_request : found.request_hash ≡ hash

-- The journal holds the receipt of that command.
pub record Committed (key hash : Text) (r : AnchorPayoutReceipt) (s : JournalState) : Type 0 where
  pub found : JournalRecord
  pub stored : s.records key ≡ some found
  pub same_request : found.request_hash ≡ hash
  pub receipt : found.receipt ≡ some r

set_record-same :
    (records : Text → Option JournalRecord) (key : Text) (r : JournalRecord)
    → set_record records key r key ≡ some r
unfolding set_record
set_record-same records key r = rw (text_eq_refl key) refl

begin_at-Known :
    (input : BeginInput) (s : JournalState) (o : Option JournalRecord)
    → s.records (scope_key input.context) ≡ o
    → ((begin_at input s o).0 ≡ ok conflicting)
      ⊎ Known (scope_key input.context) input.request_hash (begin_at input s o).1
begin_at-Known input s none e =
    inr (record { found = _; stored = set_record-same s.records _ _; same_request = refl })
begin_at-Known input s (some x) e = elim (Bool-cases (text_eq x.request_hash input.request_hash)) [
  | inl t ↦
      inr (record { found = x; stored = e; same_request = (text_eq_iff x.request_hash _).0 t })
  | inr f ↦ inl (rw (f) refl)
]

-- A command that does not conflict is known to the journal once it has begun.
pub begin-Known :
    (input : BeginInput) (s : JournalState)
    → ((begin input s).0 ≡ ok conflicting)
      ⊎ Known (scope_key input.context) input.request_hash (begin input s).1
unfolding begin
begin-Known input s = begin_at-Known input s (s.records (scope_key input.context)) refl

decide-Committed :
    (input : BeginInput) (s : JournalState) (x : JournalRecord) (o : Option AnchorPayoutReceipt)
    (r : AnchorPayoutReceipt)
    → s.records (scope_key input.context) ≡ some x
    → x.request_hash ≡ input.request_hash
    → x.receipt ≡ o
    → decide_receipt x o ≡ replayed r
    → Committed (scope_key input.context) input.request_hash r s
decide-Committed input s x none r e t e' h = elim (Option-cases x.terminal_failure) [
  | inl n ↦ cc
  | inr (f, n) ↦ cc
]
decide-Committed input s x (some q) r e t e' h =
    let k : q ≡ r = cc in
    record { found = x; stored = e; same_request = t; receipt = e' ∙ ap some k }

begin_at-Committed :
    (input : BeginInput) (s s' : JournalState) (o : Option JournalRecord) (r : AnchorPayoutReceipt)
    → s.records (scope_key input.context) ≡ o
    → begin_at input s o ≡ (ok (replayed r), s')
    → Committed (scope_key input.context) input.request_hash r s'
begin_at-Committed input s s' none r e h = cc
begin_at-Committed input s s' (some x) r e h =
    let q : s ≡ s' = ap (λ p. p.1) h in
    elim (Bool-cases (text_eq x.request_hash input.request_hash)) [
      | inl t ↦
          let d : decide_receipt x x.receipt ≡ replayed r = cc in
          (rw (q) at
            (decide-Committed input s x x.receipt r e ((text_eq_iff x.request_hash _).0 t) refl d))
      | inr f ↦ cc
    ]

-- A receipt that the journal answers with is the one that it holds.
pub begin-Committed :
    (input : BeginInput) (s s' : JournalState) (r : AnchorPayoutReceipt)
    → begin input s ≡ (ok (replayed r), s')
    → Committed (scope_key input.context) input.request_hash r s'
unfolding begin
begin-Committed input s s' r h =
    begin_at-Committed input s s' (s.records (scope_key input.context)) r refl h

with_event-Committed :
    (input : CommitInput) (x : JournalRecord) (s : JournalState) (q : Result Text)
    (r : AnchorPayoutReceipt) (s' : JournalState)
    → with_event (with_receipt s input x) input q ≡ (ok r, s')
    → Committed (scope_key input.context) x.request_hash r s'
with_event-Committed input x s (ok t) r s' h =
    let e : input.receipt ≡ r = cc in
    let records =
      set_record s.records (scope_key input.context)
        (record x { receipt = some input.receipt; status = RecordStatus.succeeded }) in
    let k : records ≡ s'.records = ap (λ q. q.1.records) h in
    record {
      found = record x { receipt = some input.receipt; status = RecordStatus.succeeded };
      stored = rw (sym k) (set_record-same s.records _ _);
      same_request = refl;
      receipt = ap some e;
    }
with_event-Committed input x s (err e) r s' h = cc

commit_to-Committed :
    (platform : Platform) (input : CommitInput) (x : JournalRecord) (r : AnchorPayoutReceipt)
    (s s' : JournalState) (o : Option AnchorPayoutReceipt)
    → s.records (scope_key input.context) ≡ some x
    → x.receipt ≡ o
    → commit_to platform input s x o ≡ (ok r, s')
    → Committed (scope_key input.context) x.request_hash r s'
commit_to-Committed platform input x r s s' none e e' h =
    with_event-Committed input x s (canonical_hash platform (payload_json input)) r s' h
commit_to-Committed platform input x r s s' (some c) e e' h =
    let (q, k) : (c ≡ r) × (s ≡ s') =
      elim (Bool-cases (text_eq c.receipt_hash input.receipt.receipt_hash)) [
        | inl t ↦ (cc, cc)
        | inr f ↦ cc
      ] in
    record { found = x; stored = rw (sym k) e; same_request = refl; receipt = e' ∙ ap some q }

commit_at-Committed :
    (platform : Platform) (input : CommitInput) (x : JournalRecord) (r : AnchorPayoutReceipt)
    (s s' : JournalState)
    → s.records (scope_key input.context) ≡ some x
    → commit_at platform input s (some x) ≡ (ok r, s')
    → Committed (scope_key input.context) x.request_hash r s'
commit_at-Committed platform input x r s s' e h =
    elim (Bool-cases (text_eq x.operation_id input.operation_id)) [
      | inl t ↦ commit_to-Committed platform input x r s s' x.receipt e refl (rw (t) at h)
      | inr f ↦ cc
    ]

-- A commit that returns a receipt leaves the journal holding it under the hash of the request.
pub commit-Committed :
    (platform : Platform) (input : CommitInput) (hash : Text) (r : AnchorPayoutReceipt)
    (s s' : JournalState)
    → Known (scope_key input.context) hash s
    → commit_receipt platform input s ≡ (ok r, s')
    → Committed (scope_key input.context) hash r s'
unfolding commit_receipt
commit-Committed platform input hash r s s' k h =
    let h' = (rw (k.stored) at h) in
    let c = commit_at-Committed platform input k.found r s s' k.stored h' in
    record {
      found = c.found;
      stored = c.stored;
      same_request = c.same_request ∙ k.same_request;
      receipt = c.receipt;
    }

-- The journal answers a command whose receipt it holds with that receipt, and does not change.
pub begin-replays :
    (input : BeginInput) (r : AnchorPayoutReceipt) (s : JournalState)
    → Committed (scope_key input.context) input.request_hash r s
    → begin input s ≡ (ok (replayed r), s)
unfolding begin
begin-replays input r s c =
    rw (c.stored, c.same_request, text_eq_refl input.request_hash, c.receipt) refl
