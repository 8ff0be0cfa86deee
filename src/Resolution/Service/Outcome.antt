-- ===== src/Resolution/Service/Outcome.antt =====
-- What a resolution command that ends well has done
-- (apps/api/src/modules/resolution/application/resolution-service.ts).
use jejak.Prelude.{◌≡◌, refl, sym, ◌⊎◌, inl, inr, Bool, true, false, not, Option, none, some}
use jejak.Prelude.Text.{Text}
use jejak.Shared.Errors.{
  Result, ok, err, throw_if, throw_if-eq-ok, validation_error, domain_error,
  invalid_state_transition,
}
use jejak.Shared.Action.{Action, lift, continue_with, continue_with-lift, continue_with-eq-ok}
use jejak.Shared.Json.{Platform, canonical_hash}
use jejak.Resolution.Transition.{
  ResolutionAction, open_case, update_case, close_case, assert_resolution_transition,
}
use jejak.Resolution.Transition.Guards.{IsAllowed, assert_resolution_transition_exact}
use jejak.Resolution.Service.{
  ResolutionCommandContext, ResolutionCaseView, ResolutionSnapshot, ResolutionRepository,
  ResolutionReconciliationPort, ResolutionInput, is_empty, transition_of, mutation_of, input_json,
  replay_of, or_run, required_snapshot, assert_reconciled, run_command, execute,
}

module _ {W : Type 0} (platform : Platform) (repository : ResolutionRepository W)
    (reconciliation : ResolutionReconciliationPort W) (context : ResolutionCommandContext)
    (input : ResolutionInput) where
  -- The claim is not found to be unreconciled on the way from `w` to `w'`.
  abbrev pub Reconciled : ResolutionAction → W → W → Type 0
  Reconciled open_case w w' = w ≡ w'
  Reconciled update_case w w' = w ≡ w'
  Reconciled close_case w w' =
      reconciliation.is_close_reconciled input.claim_id context.tenant_id w ≡ (ok true, w')

  -- The command was run on a claim that allows it: the repository changed it in the world `w3`.
  pub record Executed (hash : Text) (v : ResolutionCaseView) (w1 w' : W) : Type 0 where
    pub snapshot : ResolutionSnapshot
    pub w2 : W
    pub w3 : W
    pub loaded : repository.load input.claim_id context w1 ≡ (ok (some snapshot), w2)
    pub allowed : IsAllowed (transition_of input snapshot)
    pub reconciled : Reconciled input.action w2 w3
    pub mutated : repository.mutate (mutation_of context input hash) w3 ≡ (ok v, w')

  required_snapshot-then :
      (o : Option ResolutionSnapshot) (w : W) (f : ResolutionSnapshot → Action W ResolutionCaseView)
      {v : ResolutionCaseView} {w' : W}
      → continue_with (required_snapshot platform repository reconciliation o w) f ≡ (ok v, w')
      → (s : ResolutionSnapshot) × (o ≡ some s) × (f s w ≡ (ok v, w'))
  required_snapshot-then none w f h = cc
  required_snapshot-then (some s) w f h = (s, refl, h)

  reconciled-case :
      (r : Result Bool × W) {w' : W}
      → continue_with r
          (λ reconciled. lift (throw_if (not reconciled) (domain_error invalid_state_transition)))
        ≡ (ok tt, w')
      → r ≡ (ok true, w')
  reconciled-case (ok true, w) h = cc
  reconciled-case (ok false, w) h = cc
  reconciled-case (err e, w) h = cc

  assert_reconciled-Reconciled :
      (a : ResolutionAction) (w w' : W)
      → assert_reconciled platform repository reconciliation a input.claim_id context w
        ≡ (ok tt, w')
      → Reconciled a w w'
  assert_reconciled-Reconciled open_case w w' h = cc
  assert_reconciled-Reconciled update_case w w' h = cc
  assert_reconciled-Reconciled close_case w w' h = reconciled-case _ h

  run_command-Executed :
      (hash : Text) (v : ResolutionCaseView) (w1 w' : W)
      → run_command platform repository reconciliation context input hash w1 ≡ (ok v, w')
      → Executed hash v w1 w'
  unfolding run_command
  run_command-Executed hash v w1 w' h =
      let (found, w2, e2, h2) =
        continue_with-eq-ok (repository.load input.claim_id context w1) _ h in
      let (snapshot, f, h3) = required_snapshot-then found w2 _ h2 in
      let (u, g, h4) =
        continue_with-lift (assert_resolution_transition (transition_of input snapshot)) w2 _ h3 in
      let (u', w3, e5, h5) =
        continue_with-eq-ok
          (assert_reconciled platform repository reconciliation input.action input.claim_id context
            w2)
          _ h4 in
      record {
        snapshot = snapshot;
        w2 = w2;
        w3 = w3;
        loaded = rw (sym f) e2;
        allowed = (assert_resolution_transition_exact (transition_of input snapshot)).0 g;
        reconciled = assert_reconciled-Reconciled input.action w2 w3 e5;
        mutated = h5;
      }

  or_run-cases :
      (o : Option ResolutionCaseView) (hash : Text) (v : ResolutionCaseView) (w1 w' : W)
      → or_run platform repository reconciliation context input hash o w1 ≡ (ok v, w')
      → ((o ≡ some v) × (w1 ≡ w')) ⊎ ((o ≡ none) × Executed hash v w1 w')
  or_run-cases none hash v w1 w' h = inr (refl, run_command-Executed hash v w1 w' h)
  or_run-cases (some u) hash v w1 w' h = inl (cc, cc)

  -- What a command that ends well has done: it names a reason, and either the view it returns is
  -- that of an earlier run under the hash of the input, nothing else being done, or there is none
  -- and the command was run on a claim that allows it.
  pub record Outcome (v : ResolutionCaseView) (w w' : W) : Type 0 where
    pub reasons : is_empty input.reason_codes ≡ false
    pub hash : Text
    pub hashed : canonical_hash platform (input_json input) ≡ ok hash
    pub found : Option ResolutionCaseView
    pub w1 : W
    pub replayed :
        replay_of platform repository reconciliation repository.replay context hash w
        ≡ (ok found, w1)
    pub result : ((found ≡ some v) × (w1 ≡ w')) ⊎ ((found ≡ none) × Executed hash v w1 w')

  -- A resolution command returns a view only of an earlier run of the same command, or after the
  -- repository has changed a claim that it has loaded, that allows the action, and that is
  -- reconciled where the action is to close the case.
  pub execute-Outcome :
      (v : ResolutionCaseView) (w w' : W)
      → execute platform repository reconciliation context input w ≡ (ok v, w')
      → Outcome v w w'
  unfolding execute
  execute-Outcome v w w' h =
      let (u, r, h1) =
        continue_with-lift (throw_if (is_empty input.reason_codes) validation_error) w _ h in
      let (hash, k, h2) = continue_with-lift (canonical_hash platform (input_json input)) w _ h1 in
      let (found, w1, e, h3) =
        continue_with-eq-ok
          (replay_of platform repository reconciliation repository.replay context hash w) _ h2 in
      record {
        reasons = throw_if-eq-ok (is_empty input.reason_codes) validation_error r;
        hash = hash;
        hashed = k;
        found = found;
        w1 = w1;
        replayed = e;
        result = or_run-cases found hash v w1 w' h3;
      }
