-- ===== src/Facility/Ports.antt =====
-- apps/api/src/modules/facility/ports: the chain and the repository of the saga as interfaces over
-- a world whose type is left open, with the executors of application/funding-saga.ts.
use jejak.Prelude.{Bool, Option}
use jejak.Prelude.Text.{Text}
use jejak.Shared.Action.{Action}
use jejak.Issuer.Ports.{IssuerOperationContext}
use jejak.Issuer.Receipt.{IssuerApprovalReceipt}
use jejak.Anchor.Payout.{AnchorPayoutContext, AnchorPayoutReceipt}
use jejak.Facility.Types.{
  FundingSagaContext, FundingSagaRecord, FundingSagaResult, FundingSagaStatus,
  FundingChainReconciliation, ChainActionRequest, ChainActionReceipt,
}

pub data PortMode : Type 0 where
  sandbox production : PortMode

pub record FundingChainPort (W : Type 0) : Type 0 where
  pub mode : PortMode
  pub configured : Option Bool
  pub find_action : ChainActionRequest → Action W (Option ChainActionReceipt)
  pub submit_action : ChainActionRequest → Action W ChainActionReceipt

-- The decisions `NEW`, `RESUME`, `REPLAY` and `CONFLICT`.
pub data BeginFundingDecision : Type 0 where
  started resumed : FundingSagaRecord → BeginFundingDecision
  replayed : FundingSagaResult → BeginFundingDecision
  conflicting : BeginFundingDecision

pub record PreparedChain : Type 0 where
  pub receipt : Option ChainActionReceipt
  pub submission_id : Text

-- The operations that the services call; the Text after the context is the operation record.
pub record FundingSagaRepository (W : Type 0) : Type 0 where
  pub begin : FundingSagaContext → Text → Action W BeginFundingDecision
  pub commit_anchor : FundingSagaContext → Text → AnchorPayoutReceipt → Action W (Unit {0})
  pub commit_chain : FundingSagaContext → Text → ChainActionReceipt → Text → Action W (Unit {0})
  pub commit_issuer : FundingSagaContext → Text → IssuerApprovalReceipt → Action W (Unit {0})
  pub complete : FundingSagaContext → Text → FundingSagaResult → Action W FundingSagaResult
  pub ensure_preconditions : FundingSagaContext → Text → Action W (Unit {0})
  pub load : FundingSagaContext → Text → Action W FundingSagaRecord
  pub mark_compensation_required : FundingSagaContext → Text → Text → Action W (Unit {0})
  pub mark_status :
      FundingSagaContext → Text → FundingSagaStatus → Option Text → Action W (Unit {0})
  pub prepare_chain : FundingSagaContext → Text → ChainActionRequest → Action W PreparedChain
  pub record_chain_reconciliation :
      FundingSagaContext → Text → FundingChainReconciliation → Action W FundingSagaRecord

abbrev pub IssuerApprovalExecutor : Type 0 → Type 0
IssuerApprovalExecutor W = IssuerOperationContext → Action W IssuerApprovalReceipt

abbrev pub AnchorPayoutExecutor : Type 0 → Type 0
AnchorPayoutExecutor W = AnchorPayoutContext → Action W AnchorPayoutReceipt
