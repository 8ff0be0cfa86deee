-- ===== src/Facility/Run/Payout.antt =====
-- No payout without a funding that the chain has confirmed:
-- apps/api/src/modules/facility/application/funding-saga.ts on the repository in memory.
use jejak.Prelude.{Bool, true, false, not, ◌≡◌, refl, List, [], ◌∷◌, arith}
use jejak.Prelude.Lists.{all}
use jejak.Shared.Errors.{Result, ok, err}
use jejak.Shared.Action.{Action}
use jejak.Shared.Action.Triple.{Triple, Ends, Keeps, after_keeps, keeps_after}
use jejak.Shared.Json.{Platform}
use jejak.Facility.Ports.{FundingChainPort, IssuerApprovalExecutor, AnchorPayoutExecutor}
use jejak.Facility.Repository.{SagaState, empty_state}
use jejak.Facility.Run.{
  World, Command, funding, reconciliation, compensation, on_saga, on_issuer, on_chain,
  memory_repository, outer_chain, outer_issuer, outer_anchor, obey, run, confirms_funding,
}
use jejak.Facility.Run.Unfunded.{KeepsUnfunded, IsUnfunded, UnfundedDecision}
use jejak.Facility.Run.Unfunded.Chain.{execute_compensation_keeps}
use jejak.Facility.Run.Unfunded.Saga.{execute_keeps, resume_keeps}
use jejak.Facility.Run.Memory.{AllUnfunded}
use jejak.Facility.Run.Memory.Chain.{in_memory-KeepsUnfunded}

module _ {I C A : Type 0} (a : A) where
  -- The worlds in which no stored saga is funded and the anchor is as it was.
  record Untouched (w : World I C A) : Type 0 where
    all_unfunded : AllUnfunded w.saga
    same_anchor : w.anchor ≡ a

  on_saga-Ends :
      {B : Type 0} (X : B → Type 0) (w : World I C A) (r : Result B × SagaState)
      → w.anchor ≡ a
      → Ends (λ b s. X b × AllUnfunded s) AllUnfunded r
      → Ends (λ b v. X b × Untouched v) Untouched (r.0, record w { saga = r.1 })
  on_saga-Ends X w (ok b, s) same h = (h.0, record { all_unfunded = h.1; same_anchor = same })
  on_saga-Ends X w (err e, s) same h = record { all_unfunded = h; same_anchor = same }

  on_saga_triple :
      {B : Type 0} (X : B → Type 0) (m : Action SagaState B)
      → Triple AllUnfunded m (λ b s. X b × AllUnfunded s) AllUnfunded
      → Triple Untouched (on_saga m) (λ b w. X b × Untouched w) Untouched
  on_saga_triple X m h = record {
    ends = λ w u. on_saga-Ends X w (m w.saga) u.same_anchor (h.ends w.saga u.all_unfunded);
  }

  on_saga_keeps :
      {B : Type 0} (m : Action SagaState B) → Keeps AllUnfunded m → Keeps Untouched (on_saga m)
  on_saga_keeps m h = keeps_after Untouched (on_saga m) λ w u. record {
    all_unfunded = after_keeps AllUnfunded m h w.saga u.all_unfunded;
    same_anchor = u.same_anchor;
  }

  memory_repository-KeepsUnfunded :
      (valid : Bool) → KeepsUnfunded Untouched (memory_repository valid)
  memory_repository-KeepsUnfunded valid =
      let kept = in_memory-KeepsUnfunded valid in
      record {
        begin = λ c hash. on_saga_triple UnfundedDecision _ (kept.begin c hash);
        load = λ c id. on_saga_triple IsUnfunded _ (kept.load c id);
        commit_chain =
            λ c id receipt submission. on_saga_keeps _ (kept.commit_chain c id receipt submission);
        mark_status = λ c id status reason. on_saga_keeps _ (kept.mark_status c id status reason);
        ensure_preconditions = λ c id. on_saga_keeps _ (kept.ensure_preconditions c id);
        commit_issuer = λ c id receipt. on_saga_keeps _ (kept.commit_issuer c id receipt);
        mark_compensation_required =
            λ c id reason. on_saga_keeps _ (kept.mark_compensation_required c id reason);
        reconcile = λ c id r h. on_saga_keeps _ (kept.reconcile c id r h);
        prepare_chain = λ c id request. on_saga_keeps _ (kept.prepare_chain c id request);
      }

  on_issuer_keeps : {B : Type 0} (m : Action I B) → Keeps Untouched (on_issuer m)
  on_issuer_keeps m =
      keeps_after Untouched (on_issuer m)
        λ w u. record { all_unfunded = u.all_unfunded; same_anchor = u.same_anchor }

  on_chain_keeps : {B : Type 0} (m : Action C B) → Keeps Untouched (on_chain m)
  on_chain_keeps m =
      keeps_after Untouched (on_chain m)
        λ w u. record { all_unfunded = u.all_unfunded; same_anchor = u.same_anchor }

module _ {I C A : Type 0} (platform : Platform) (preconditions_valid : Bool)
    (issuer : IssuerApprovalExecutor I) (chain : FundingChainPort C)
    (anchor : AnchorPayoutExecutor A) where
  obey_keeps :
      (a : A) (command : Command)
      → confirms_funding command ≡ false
      → Keeps
          (Untouched {I = I} {C = C} a)
          (obey platform preconditions_valid issuer chain anchor command)
  obey_keeps a (funding c) h =
      execute_keeps (Untouched a) platform (memory_repository preconditions_valid)
        (outer_chain chain) (memory_repository-KeepsUnfunded a preconditions_valid)
        (λ request. on_chain_keeps a (chain.find_action request))
        (λ request. on_chain_keeps a (chain.submit_action request))
        (outer_issuer platform preconditions_valid issuer chain anchor)
        (outer_anchor platform preconditions_valid issuer chain anchor)
        (λ context. on_issuer_keeps a (issuer context)) c
  obey_keeps a (reconciliation c r) h =
      resume_keeps (Untouched a) platform (memory_repository preconditions_valid)
        (outer_chain chain) (memory_repository-KeepsUnfunded a preconditions_valid)
        (λ request. on_chain_keeps a (chain.find_action request))
        (λ request. on_chain_keeps a (chain.submit_action request))
        (outer_issuer platform preconditions_valid issuer chain anchor)
        (outer_anchor platform preconditions_valid issuer chain anchor)
        (λ context. on_issuer_keeps a (issuer context)) c r h
  obey_keeps a (compensation c) h =
      execute_compensation_keeps (Untouched a) platform (memory_repository preconditions_valid)
        (outer_chain chain) (memory_repository-KeepsUnfunded a preconditions_valid)
        (λ request. on_chain_keeps a (chain.find_action request))
        (λ request. on_chain_keeps a (chain.submit_action request)) c

  run-Untouched :
      (a : A) (commands : List Command) (w : World I C A)
      → all (λ c. not (confirms_funding c)) commands ≡ true
      → Untouched a w
      → (run platform preconditions_valid issuer chain anchor commands w).anchor ≡ a
  unfolding run
  run-Untouched a [] w h u = u.same_anchor
  run-Untouched a (c ∷ cs) w h u =
      run-Untouched a cs _ (ground arith)
        (after_keeps (Untouched a) _ (obey_keeps a c (ground arith)) w u)

  -- From an empty repository, whatever the issuer, the chain and the anchor do, and whatever
  -- fundings, reconciliations and compensations are commanded for whatever claims, the anchor is
  -- left as it was, so that nothing is paid out, as long as no reconciliation confirms on the
  -- chain a FUND or an ISSUE_AND_FUND.
  pub no_payout_without_funding :
      (commands : List Command) (issuer_state : I) (chain_state : C) (anchor_state : A)
      → all (λ c. not (confirms_funding c)) commands ≡ true
      → (run platform preconditions_valid issuer chain anchor commands (record {
        saga = empty_state;
        issuer = issuer_state;
        chain = chain_state;
        anchor = anchor_state;
      })).anchor
        ≡ anchor_state
  no_payout_without_funding commands issuer_state chain_state anchor_state h =
      run-Untouched anchor_state commands _ h
        (record { all_unfunded = record { unfunded = λ key. refl }; same_anchor = refl })
