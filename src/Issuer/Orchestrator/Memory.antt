-- ===== src/Issuer/Orchestrator/Memory.antt =====
-- The journal in memory (apps/api/src/modules/issuer/adapters/in-memory-issuer-journal.ts) in a world
-- that it shares with the partner.
use jejak.Shared.Action.{on_first, on_second}
use jejak.Shared.Json.{Platform}
use jejak.Issuer.Ports.{IssuerApprovalPort, IssuerOperationJournal}
use jejak.Issuer.Journal.{JournalState, begin, commit_receipt}
use jejak.Issuer.Journal.Failures.{record_attempt, record_failure}

abbrev pub in_memory_journal : {P : Type 0} → Platform → IssuerOperationJournal (JournalState × P)
in_memory_journal platform = record {
  begin = λ input. on_first (begin input);
  commit_receipt = λ input. on_first (commit_receipt platform input);
  record_attempt = λ input. on_first (record_attempt input);
  record_failure = λ input. on_first (record_failure platform input);
}

abbrev pub outer_partner :
    {P : Type 0} → IssuerApprovalPort P → IssuerApprovalPort (JournalState × P)
outer_partner partner = record {
  mode = partner.mode;
  find_approval = λ key. on_second (partner.find_approval key);
  request_approval = λ request. on_second (partner.request_approval request);
}
