-- ===== src/Facility/Run.antt =====
-- The saga on the repository in memory, in a world with an issuer, a chain and an anchor of any
-- kind, and the commands that reach it: apps/api/src/modules/facility/application/funding-saga.ts.
pub mod Unfunded
pub mod Memory
pub mod Payout
use jejak.Prelude.{Bool, true, false, not, ◌&&◌, ◌||◌, Option, List, [], ◌∷◌}
use jejak.Shared.Errors.{Result}
use jejak.Shared.Action.{Action}
use jejak.Shared.Json.{Platform}
use jejak.Facility.Types.{
  FundingSagaContext, FundingChainReconciliation, FundingChainAction, fund, issue_and_fund, Outcome,
  reconciled, mismatch, FundingSagaResult, ChainActionRequest, same_action,
}
use jejak.Facility.Ports.{
  FundingChainPort, FundingSagaRepository, IssuerApprovalExecutor, AnchorPayoutExecutor,
}
use jejak.Facility.Repository.{SagaState, empty_state}
use jejak.Facility.Repository.Chain.{in_memory}
use jejak.Facility.Saga.{execute, resume_after_chain_reconciliation}
use jejak.Facility.Compensation.{execute_compensation}

pub record World (I C A : Type 0) : Type 0 where
  pub saga : SagaState
  pub issuer : I
  pub chain : C
  pub anchor : A

-- What an operation may be asked: a funding, a reconciliation of the chain, a compensation.
pub data Command : Type 0 where
  funding : FundingSagaContext → Command
  reconciliation : FundingSagaContext → FundingChainReconciliation → Command
  compensation : FundingSagaContext → Command

module _ {I C A : Type 0} where
  abbrev pub on_saga : {B : Type 0} → Action SagaState B → Action (World I C A) B
  on_saga m w = ((m w.saga).0, record w { saga = (m w.saga).1 })

  abbrev pub on_issuer : {B : Type 0} → Action I B → Action (World I C A) B
  on_issuer m w = ((m w.issuer).0, record w { issuer = (m w.issuer).1 })

  abbrev pub on_chain : {B : Type 0} → Action C B → Action (World I C A) B
  on_chain m w = ((m w.chain).0, record w { chain = (m w.chain).1 })

  abbrev pub on_anchor : {B : Type 0} → Action A B → Action (World I C A) B
  on_anchor m w = ((m w.anchor).0, record w { anchor = (m w.anchor).1 })

  abbrev pub memory_repository : Bool → FundingSagaRepository (World I C A)
  memory_repository preconditions_valid = record {
    begin = λ c hash. on_saga (memory.begin c hash);
    commit_anchor = λ c id receipt. on_saga (memory.commit_anchor c id receipt);
    commit_chain = λ c id receipt submission. on_saga (memory.commit_chain c id receipt submission);
    commit_issuer = λ c id receipt. on_saga (memory.commit_issuer c id receipt);
    complete = λ c id result. on_saga (memory.complete c id result);
    ensure_preconditions = λ c id. on_saga (memory.ensure_preconditions c id);
    load = λ c id. on_saga (memory.load c id);
    mark_compensation_required =
        λ c id reason. on_saga (memory.mark_compensation_required c id reason);
    mark_status = λ c id status reason. on_saga (memory.mark_status c id status reason);
    prepare_chain = λ c id request. on_saga (memory.prepare_chain c id request);
    record_chain_reconciliation = λ c id r. on_saga (memory.record_chain_reconciliation c id r);
  }
    where
      memory : FundingSagaRepository SagaState
      memory = in_memory preconditions_valid

  abbrev pub outer_chain : FundingChainPort C → FundingChainPort (World I C A)
  outer_chain chain = record {
    mode = chain.mode;
    configured = chain.configured;
    find_action = λ request. on_chain (chain.find_action request);
    submit_action = λ request. on_chain (chain.submit_action request);
  }

module _ {I C A : Type 0} (platform : Platform) (preconditions_valid : Bool)
    (issuer : IssuerApprovalExecutor I) (chain : FundingChainPort C)
    (anchor : AnchorPayoutExecutor A) where
  abbrev pub outer_issuer : IssuerApprovalExecutor (World I C A)
  outer_issuer context = on_issuer (issuer context)

  abbrev pub outer_anchor : AnchorPayoutExecutor (World I C A)
  outer_anchor context = on_anchor (anchor context)

  abbrev pub fund_in_memory : FundingSagaContext → Action (World I C A) FundingSagaResult
  fund_in_memory context =
      execute platform (memory_repository preconditions_valid) outer_issuer (outer_chain chain)
        outer_anchor context

  abbrev pub resume_in_memory :
      FundingSagaContext → FundingChainReconciliation → Action (World I C A) FundingSagaResult
  resume_in_memory context r =
      resume_after_chain_reconciliation platform (memory_repository preconditions_valid)
        outer_issuer (outer_chain chain) outer_anchor context r

  abbrev pub compensate_in_memory : FundingSagaContext → Action (World I C A) FundingSagaResult
  compensate_in_memory context =
      execute_compensation platform (memory_repository preconditions_valid) (outer_chain chain)
        context

  abbrev pub obey : Command → Action (World I C A) FundingSagaResult
  obey (funding context) = fund_in_memory context
  obey (reconciliation context r) = resume_in_memory context r
  obey (compensation context) = compensate_in_memory context

  -- The world after the commands, whatever they return or throw.
  unfoldable pub run : List Command → World I C A → World I C A
  run [] w = w
  run (c ∷ cs) w = run cs (obey c w).1

abbrev pub is_funding : FundingChainAction → Bool
is_funding action = same_action action fund || same_action action issue_and_fund

abbrev pub is_reconciled : Outcome → Bool
is_reconciled reconciled = true
is_reconciled mismatch = false

-- A reconciliation by which the chain confirms that the facility has funded a claim.
abbrev pub confirms_funding : Command → Bool
confirms_funding (funding context) = false
confirms_funding (compensation context) = false
confirms_funding (reconciliation context r) = is_reconciled r.outcome && is_funding r.action
