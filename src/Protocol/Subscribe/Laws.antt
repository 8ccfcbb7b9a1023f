-- ===== src/Protocol/Subscribe/Laws.antt =====
-- The Subscribe protocol as a lawful state machine.
use fipa_wasm.Base.{refl, arith}
use fipa_wasm.Protocol.{add_participant}
use fipa_wasm.Protocol.Machine.Laws.{IsLawful, Recorded, Reported, lawful_by}
use fipa_wasm.Protocol.Subscribe.{
  subscribe_machine, validate_transition, advance, process, validate, is_failed, is_complete,
}

subscribe-Recorded :
    Recorded subscribe_machine validate_transition (λ p now msg perf s. advance msg perf s p)
unfolding add_participant validate_transition advance
subscribe-Recorded p now msg perf s t = ground arith

subscribe-Reported :
    Reported subscribe_machine validate_transition (λ p now msg perf s. advance msg perf s p)
unfolding add_participant validate_transition advance is_failed is_complete
subscribe-Reported p now msg perf s t = ground arith

pub subscribe_machine-IsLawful : IsLawful subscribe_machine
unfolding validate process is_failed is_complete
subscribe_machine-IsLawful =
    lawful_by subscribe_machine validate_transition (λ p now msg perf s. advance msg perf s p)
      (λ p msg. refl) (λ p now msg. refl) (subscribe-Recorded) (subscribe-Reported)
      λ p f. ground arith
