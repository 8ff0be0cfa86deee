-- ===== src/Anchor/Orchestrator/Idempotency.antt =====
-- The orchestration on the journal in memory: a command that has ended well is not run again
-- (apps/api/src/modules/anchor/application/orchestrate-payout.ts).
use jejak.Prelude.{
  ℕ, zero, suc, ◌+◌, ◌≡◌, refl, sym, ap, ◌⊎◌, inl, inr, Bool, true, false, not, Option, none, some,
}
use jejak.Prelude.Text.{Text}
use jejak.Prelude.Int.{pos}
use jejak.Shared.Number.{Number, integer_between}
use jejak.Shared.Errors.{Result, ok, err, throw_if, anchor, PartnerErrorClass, rejected}
use jejak.Shared.Action.{
  Action, ◌>>◌, continue_with, give, lift, continue_with-eq-ok, continue_with-lift,
}
use jejak.Shared.Json.{Platform, canonical_hash}
use jejak.Anchor.Conversion.{AnchorSandboxConfig}
use jejak.Anchor.Payout.{
  AnchorPayoutContext, AnchorPayoutRequest, AnchorPayoutReceipt, AnchorPayoutPort,
  AnchorPayoutJournal, AnchorResolution, direct, reconciled, success, BeginPayoutDecision, started,
  resumed, replayed, failed, conflicting, is_retryable, as_anchor_error,
}
use jejak.Anchor.Receipt.{is_sandbox, anchor_request_hash, validate_anchor_receipt}
use jejak.Anchor.Journal.{
  JournalState, scope_key, begin, commit_receipt, record_attempt, record_failure,
}
use jejak.Anchor.Journal.Replay.{
  Known, Committed, begin-Known, begin-Committed, commit-Committed, begin-replays,
}
use jejak.Anchor.Orchestrator.{
  Command, commit_input, attempt_input, try_attempt, unless_terminal, sleep_before, catch_attempt,
  commit_or_fail, reconcile, after_attempt, attempt_payout, start_attempts, command_of,
  follow_decision, begin_input, execute_payout, request_of, key_json, attempts_of, or_two,
}

-- A step of the journal, and one of the partner or the clock, in a world made of both.
abbrev pub on_journal : {P A : Type 0} → Action JournalState A → Action (JournalState × P) A
on_journal f (s, p) = ((f s).0, ((f s).1, p))

abbrev pub on_partner : {P A : Type 0} → Action P A → Action (JournalState × P) A
on_partner f (s, p) = ((f p).0, (s, (f p).1))

abbrev pub in_memory_journal : {P : Type 0} → Platform → AnchorPayoutJournal (JournalState × P)
in_memory_journal platform = record {
  begin = λ input. on_journal (begin input);
  commit_receipt = λ input. on_journal (commit_receipt platform input);
  record_attempt = λ input. on_journal (record_attempt input);
  record_failure = λ input. on_journal (record_failure input);
}

abbrev pub outer_partner : {P : Type 0} → AnchorPayoutPort P → AnchorPayoutPort (JournalState × P)
outer_partner partner = record {
  mode = partner.mode;
  find_payout = λ key. on_partner (partner.find_payout key);
  request_payout = λ request. on_partner (partner.request_payout request);
}

module _ {P : Type 0} (platform : Platform) (partner : AnchorPayoutPort P)
    (config : AnchorSandboxConfig) (sleep : ℕ → Action P (Unit {0})) where
  abbrev W : Type 0
  W = JournalState × P

  -- The orchestrator on the journal in memory.
  abbrev pub execute_in_memory :
      AnchorPayoutContext → Option Number → Action (JournalState × P) AnchorPayoutReceipt
  execute_in_memory =
      execute_payout platform (outer_partner partner) (in_memory_journal platform) config
        (λ n. on_partner (sleep n))

  abbrev KnownBy : Command → W → Type 0
  KnownBy c w = Known (scope_key c.context) c.request_hash w.0

  abbrev CommittedBy : Command → AnchorPayoutReceipt → W → Type 0
  CommittedBy c r w = Committed (scope_key c.context) c.request_hash r w.0

  abbrev memory : AnchorPayoutJournal W
  memory = in_memory_journal platform

  -- An attempt only writes its log.
  validated-Known :
      (c : Command) (n : ℕ) (receipt : AnchorPayoutReceipt) (v : Result (Unit {0})) (w : W)
      → KnownBy c w
      → KnownBy c
          (continue_with
            (v, w)
            (λ _. memory.record_attempt (attempt_input c n none success) >> give receipt)).1
  unfolding record_attempt
  validated-Known c n receipt (ok u) w k = record {
    found = k.found;
    stored = k.stored;
    same_request = k.same_request;
  }
  validated-Known c n receipt (err e) w k = k

  requested-Known :
      (c : Command) (n : ℕ) (q : Result AnchorPayoutReceipt) (w : W)
      → KnownBy c w
      → KnownBy c
          (continue_with
            (q, w)
            (λ receipt.
              lift (validate_anchor_receipt platform c.request receipt config)
              >> (memory.record_attempt (attempt_input c n none success) >> give receipt))).1
  requested-Known c n (ok receipt) w k = validated-Known c n receipt _ w k
  requested-Known c n (err e) w k = k

  try_attempt-Known :
      (c : Command) (n : ℕ) (w : W)
      → KnownBy c w
      → KnownBy c
          (try_attempt platform
            (outer_partner partner)
            memory
            config
            (λ n. on_partner (sleep n))
            c
            n
            w).1
  unfolding try_attempt
  try_attempt-Known c n (s, p) k =
      requested-Known c n (partner.request_payout c.request p).0
        (s, (partner.request_payout c.request p).1) k

  committed_by :
      (c : Command) (receipt r : AnchorPayoutReceipt) (resolution : AnchorResolution) (w w' : W)
      → KnownBy c w
      → memory.commit_receipt (commit_input c receipt resolution) w ≡ (ok r, w')
      → CommittedBy c r w'
  committed_by c receipt r resolution (s, p) (s', p') k h =
      commit-Committed platform (commit_input c receipt resolution) c.request_hash r s s' k
        (ap (λ q. (q.0, q.1.0)) h)

  abbrev pause : ℕ → Action W (Unit {0})
  pause n = on_partner (sleep n)

  sleep_before-Known :
      (c : Command) (m n : ℕ) (w w' : W)
      → KnownBy c w
      → sleep_before platform (outer_partner partner) memory config pause m n w ≡ (ok tt, w')
      → KnownBy c w'
  sleep_before-Known c zero n w w' k h = rw (sym (ap (λ q. q.1.0) h)) k
  sleep_before-Known c (suc m) n (s, p) w' k h = rw (sym (ap (λ q. q.1.0) h)) k

  caught-Known :
      (c : Command) (m n : ℕ) (class : PartnerErrorClass) (b : Bool) (w w' : W)
      → KnownBy c w
      → continue_with
          (unless_terminal platform (outer_partner partner) memory config pause c class b w)
          (λ _. sleep_before platform (outer_partner partner) memory config pause m n)
        ≡ (ok tt, w')
      → KnownBy c w'
  unfolding record_failure
  caught-Known c m n class true w w' k h = sleep_before-Known c m n w w' k h
  caught-Known c m n class false (s, p) w' k h = cc

  catch_attempt-Known :
      (c : Command) (m n : ℕ) (class : PartnerErrorClass) (w w' : W)
      → KnownBy c w
      → catch_attempt platform (outer_partner partner) memory config pause c n m class w
        ≡ (ok tt, w')
      → KnownBy c w'
  unfolding catch_attempt record_attempt
  catch_attempt-Known c m n class (s, p) w' k h =
      caught-Known c m n class (is_retryable class) _ w'
        (record { found = k.found; stored = k.stored; same_request = k.same_request }) h

  found-Committed :
      (c : Command) (last : Option PartnerErrorClass) (o : Option AnchorPayoutReceipt)
      (r : AnchorPayoutReceipt) (w w' : W)
      → KnownBy c w
      → commit_or_fail platform (outer_partner partner) memory config pause c last o w ≡ (ok r, w')
      → CommittedBy c r w'
  unfolding record_failure
  found-Committed c last none r (s, p) w' k h = cc
  found-Committed c last (some receipt) r w w' k h =
      let (u, v, h') =
        continue_with-lift (validate_anchor_receipt platform c.request receipt config) w _ h in
      committed_by c receipt r reconciled w w' k h'

  reconcile-Committed :
      (c : Command) (last : Option PartnerErrorClass) (r : AnchorPayoutReceipt) (w w' : W)
      → KnownBy c w
      → reconcile platform (outer_partner partner) memory config pause c last w ≡ (ok r, w')
      → CommittedBy c r w'
  unfolding reconcile
  reconcile-Committed c last r (s, p) w' k h =
      let (found, w1, e, h') =
        continue_with-eq-ok
          (on_partner (partner.find_payout c.request.partner_idempotency_key) (s, p)) _ h in
      found-Committed c last found r w1 w' (rw (sym (ap (λ q. q.1.0) e)) k) h'

  after-Committed :
      (c : Command) (m n : ℕ) (r : AnchorPayoutReceipt)
      (next : Option PartnerErrorClass → Action W AnchorPayoutReceipt)
      (q : Result AnchorPayoutReceipt × W) (w' : W)
      → ((last : Option PartnerErrorClass) (w : W)
          → KnownBy c w
          → next last w ≡ (ok r, w')
          → CommittedBy c r w')
      → KnownBy c q.1
      → after_attempt platform (outer_partner partner) memory config pause c n m next q ≡ (ok r, w')
      → CommittedBy c r w'
  after-Committed c m n r next (ok receipt, w) w' rec k h = committed_by c receipt r direct w w' k h
  after-Committed c m n r next (err e, w) w' rec k h =
      let class = as_anchor_error e in
      let (u, w1, e1, h1) =
        continue_with-eq-ok
          (catch_attempt platform (outer_partner partner) memory config pause c n m class w) _ h in
      rec (some class) w1 (catch_attempt-Known c m n class w w1 k e1) h1

  attempt_payout-Committed :
      (c : Command) (m n : ℕ) (last : Option PartnerErrorClass) (r : AnchorPayoutReceipt) (w w' : W)
      → KnownBy c w
      → attempt_payout platform (outer_partner partner) memory config pause c m n last w
        ≡ (ok r, w')
      → CommittedBy c r w'
  unfolding attempt_payout
  attempt_payout-Committed c zero n last r w w' k h = reconcile-Committed c last r w w' k h
  attempt_payout-Committed c (suc m) n last r w w' k h =
      after-Committed c m n r _ _ w'
        (λ l w1 k1 h1. attempt_payout-Committed c m (n + 1) l r w1 w' k1 h1)
        (try_attempt-Known c n w k) h

  start_attempts-Committed :
      (c : Command) (max : Option Number) (r : AnchorPayoutReceipt) (w w' : W)
      → KnownBy c w
      → start_attempts platform (outer_partner partner) memory config pause c max w ≡ (ok r, w')
      → CommittedBy c r w'
  unfolding start_attempts
  start_attempts-Committed c max r w w' k h =
      let (u, b, h') =
        continue_with-lift
          (throw_if (not (integer_between (pos 1) (pos 5) (or_two max))) (anchor rejected)) w _ h in
      attempt_payout-Committed c (attempts_of (or_two max)) 1 none r w w' k h'

  begun-Known :
      (context : AnchorPayoutContext) (request : AnchorPayoutRequest) (hash : Text)
      (d : BeginPayoutDecision) (w w' : W)
      → memory.begin
          (begin_input platform (outer_partner partner) memory config pause context request hash)
          w
        ≡ (ok d, w')
      → (d ≡ conflicting) ⊎ Known (scope_key context) hash w'.0
  begun-Known context request hash d (s, p) (s', p') h =
      let i =
        begin_input platform (outer_partner partner) memory config pause context request hash in
      let e : begin i s ≡ (ok d, s') = ap (λ q. (q.0, q.1.0)) h in
      elim (begin-Known i s) [ inl c ↦ inl cc | inr k ↦ inr (rw (ap (λ q. q.1) e) at k) ]

  followed-Committed :
      (context : AnchorPayoutContext) (request : AnchorPayoutRequest) (hash : Text)
      (max : Option Number) (d : BeginPayoutDecision) (r : AnchorPayoutReceipt) (w w1 w' : W)
      → memory.begin
          (begin_input platform (outer_partner partner) memory config pause context request hash)
          w
        ≡ (ok d, w1)
      → follow_decision platform
          (outer_partner partner)
          memory
          config
          pause
          (command_of platform (outer_partner partner) memory config pause context request hash)
          max
          d
          w1
        ≡ (ok r, w')
      → Committed (scope_key context) hash r w'.0
  followed-Committed context request hash max (started id) r w w1 w' b h =
      elim (begun-Known context request hash (started id) w w1 b) [
        | inl c ↦ cc
        | inr k ↦ start_attempts-Committed _ max r w1 w' k h
      ]
  followed-Committed context request hash max (resumed id) r w w1 w' b h =
      elim (begun-Known context request hash (resumed id) w w1 b) [
        | inl c ↦ cc
        | inr k ↦ start_attempts-Committed _ max r w1 w' k h
      ]
  followed-Committed context request hash max (replayed q) r (s, p) w1 w' b h =
      let i =
        begin_input platform (outer_partner partner) memory config pause context request hash in
      let e : q ≡ r = cc in
      let e' : w1 ≡ w' = cc in
      let c = begin-Committed i s w1.0 q (ap (λ x. (x.0, x.1.0)) b) in
      let c' : Committed (scope_key context) hash r w1.0 = rw (sym e) c in rw (sym e') c'
  followed-Committed context request hash max (failed class) r w w1 w' b h = cc
  followed-Committed context request hash max conflicting r w w1 w' b h = cc

  -- A command that has returned a receipt returns the same receipt when it is sent again, whatever
  -- the partner has become and whatever number of attempts is allowed then. Neither the journal nor
  -- the partner is changed by it.
  pub execute_in_memory_again :
      (context : AnchorPayoutContext) (max again : Option Number) (r : AnchorPayoutReceipt)
      (s s' : JournalState) (p p' q : P)
      → execute_in_memory context max (s, p) ≡ (ok r, (s', p'))
      → execute_in_memory context again (s', q) ≡ (ok r, (s', q))
  unfolding execute_payout
  execute_in_memory_again context max again r s s' p p' q h =
      let (u, m, h1) =
        continue_with-lift (throw_if (not (is_sandbox partner.mode)) (anchor rejected)) (s, p) _
          h in
      let (key, k, h2) =
        continue_with-lift (canonical_hash platform (key_json context)) (s, p) _ h1 in
      let (hash, a, h3) =
        continue_with-lift (anchor_request_hash platform (request_of context key)) (s, p) _ h2 in
      let i =
        begin_input platform (outer_partner partner) memory config pause context
          (request_of context key) hash in
      let (d, w1, b, h4) = continue_with-eq-ok (memory.begin i (s, p)) _ h3 in
      let c =
        followed-Committed context (request_of context key) hash max d r (s, p) w1 (s', p') b h4 in
      rw (m, k, a, begin-replays i r s' c) refl
