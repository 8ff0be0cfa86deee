-- ===== src/Lib.antt =====
-- Jejak: the domain rules of the API server, apps/api/src. Amounts of money in minor units pass from
-- a settlement of a marketplace to a claim that is financed in advance, and back. The paths below
-- stand under apps/api/src.
--
-- Shared code.
--   Shared.Money is modules/shared/money.ts: amounts as texts of integers, with their unit.
--   Shared.Errors is modules/shared/errors.ts; a function that may throw returns a Result.
--   Shared.Action is an async method: a Result together with a changed world. Interfaces of the
--   source are records of such computations over a world whose type is a parameter.
--   Shared.Json is reliability/canonical-json.ts. What the runtime and node:crypto give is the
--   parameter Platform: quoting, the text of a number, localeCompare, SHA-256, the parsing of dates.
--   Reliability.Redaction and Reliability.Coordinator are reliability/redaction.ts and
--   reliability/mutation-coordinator.ts: safeAttributes and MutationCoordinator.execute
--   (execute_mutation), whose transaction and unit of work are parameters.
--   Shared.Hash is modules/shared/hash.ts, a second canonical text, whose keys are in the order of
--   their code units. Shared.Action.Triple has the rules for what an action keeps.
-- Ingestion.
--   Ingestion is modules/ingestion: Ingestion.Csv is parseRfc4180 as a scan with a cursor,
--   Ingestion.Cells and Ingestion.Rows are normalizeRow, Ingestion.Report is parseCanonicalCsv, and
--   Ingestion.Reading and Ingestion.Service are readCanonicalCsv and ingestCanonicalCsv. The decoding
--   of UTF-8, upper case, dates, the hash of bytes, the reader and the repository are parameters.
-- The life of a claim.
--   Claims.Lifecycle and Claims.Offers are modules/claims/domain/lifecycle.ts and offers.ts: createClaim,
--   startClaimAnalysis and applyRiskDecision; createFinancingOffer and acceptFinancingOffer.
--   Risk.Evaluation is modules/risk/domain/evaluation.ts: the request of an evaluation, and what of an
--   answer of the risk service is trusted before a claim is decided on it. Risk.Features is
--   domain/feature-snapshot.ts, buildRiskFeatureSnapshot.
--   Settlement.Events and Settlement.Waterfall are modules/settlement/domain/settlement.ts:
--   validateSettlementEvent and calculateWaterfall, whose cash split is divide_cash.
--   Resolution.Loss, Resolution.Transition, Resolution.Service and Resolution.Finalization are
--   modules/resolution: allocateLoss, assertResolutionTransition, ResolutionService.execute and
--   ClaimFinalizationService.
-- The partners.
--   Anchor.Conversion, Anchor.Receipt, Anchor.Journal and Anchor.Orchestrator are modules/anchor: the
--   conversion of a payout, the guards of a receipt, the journal in memory and
--   AnchorPayoutOrchestrator.execute (execute_payout). Anchor.Payout has their data and interfaces.
--   Issuer.Transaction and Issuer.Receipt are modules/issuer/domain: the guards of a transaction, of
--   its revision and of an answer of the issuer. Issuer.Ports has the data and interfaces of
--   modules/issuer/ports; Issuer.Journal is the journal in memory and Issuer.Orchestrator
--   IssuerApprovalOrchestrator.execute (execute_approval).
--   Facility.Saga and Facility.Compensation are modules/facility/application/funding-saga.ts over any
--   repository, issuer, chain and anchor; Facility.Action and Facility.Request are its actions on the
--   chain and what it sends. Facility.Repository is the repository in memory, Facility.Receipt the
--   guards of a chain receipt, Facility.Context the builder of the context and Facility.Sandbox the
--   chain of the sandbox. Facility.Run puts the saga and the repository into one world with partners
--   of any kind, in which commands follow one another.
-- Access.
--   Auth.Authorization is auth/authorization.ts, authorize, with the data of auth/types.ts.
--
-- Numbers and bounds. A bigint is ℤ over the native numbers, without bounds, as in the source; a number
-- of the source is Number, which keeps apart the values that its guards refuse; versions are natural
-- numbers. A string is the list of its UTF-16 code units. The decimal text of n is written with fuel
-- n + 1, which is enough since each step divides by ten. The loop of the orchestrator is recursion on
-- the attempts that are left, at most five. Operations that the source runs one after the other by a
-- queue are single steps; what the source copies before it stores it is an immutable value here.
--
-- Not modelled: databases, HTTP routes, configuration, telemetry, authentication, the web application,
-- the risk service in Python and the contracts in Rust, which are other programs or I/O; the services
-- over repositories, the batches of a marketplace, reconciliation, control evidence and the chain
-- indexer.
pub mod Prelude
pub mod Shared
pub mod Anchor
pub mod Auth
pub mod Claims
pub mod Facility
pub mod Ingestion
pub mod Issuer
pub mod Reliability
pub mod Resolution
pub mod Risk
pub mod Settlement
