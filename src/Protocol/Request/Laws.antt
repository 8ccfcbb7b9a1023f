-- ===== src/Protocol/Request/Laws.antt =====
-- The Request protocol as a lawful state machine, and what a finished conversation looked like.
use fipa_wasm.Base.{refl, arith}
use fipa_wasm.Protocol.{add_participant}
use fipa_wasm.Protocol.Machine.Laws.{IsLawful, Recorded, Reported, lawful_by}
use fipa_wasm.Protocol.Request.{
  request_machine, validate_transition, advance, process, validate, is_failed, is_complete,
}

request-Recorded :
    Recorded request_machine validate_transition (λ p now msg perf s. advance msg s p)
unfolding add_participant advance is_failed is_complete validate_transition
request-Recorded p now msg perf s t = ground arith

request-Reported :
    Reported request_machine validate_transition (λ p now msg perf s. advance msg s p)
unfolding advance is_failed is_complete validate_transition
request-Reported p now msg perf s t = ground arith

pub request_machine-IsLawful : IsLawful request_machine
unfolding validate process is_failed is_complete
request_machine-IsLawful =
    lawful_by request_machine validate_transition (λ p now msg perf s. advance msg s p)
      (λ p msg. refl) (λ p now msg. refl) request-Recorded request-Reported λ p h. ground arith
