-- ===== src/Protocol/Query/Laws.antt =====
-- The Query protocol as a lawful state machine.
use fipa_wasm.Base.{refl, arith}
use fipa_wasm.Protocol.{add_participant}
use fipa_wasm.Protocol.Machine.Laws.{IsLawful, Recorded, Reported, lawful_by}
use fipa_wasm.Protocol.Query.{
  query_machine, validate_transition, advance, process, validate, is_failed, is_complete,
}

query-Recorded :
    Recorded query_machine validate_transition (λ p now msg perf s. advance msg perf s p)
unfolding add_participant validate_transition advance
query-Recorded p now msg perf s t = ground arith

query-Reported :
    Reported query_machine validate_transition (λ p now msg perf s. advance msg perf s p)
unfolding add_participant validate_transition advance is_failed is_complete
query-Reported p now msg perf s t = ground arith

pub query_machine-IsLawful : IsLawful query_machine
unfolding validate process is_failed is_complete
query_machine-IsLawful =
    lawful_by query_machine validate_transition (λ p now msg perf s. advance msg perf s p)
      (λ p msg. refl) (λ p now msg. refl) (query-Recorded) (query-Reported) λ p f. ground arith
