-- ===== src/Protocol/Propose/Laws.antt =====
-- The Propose protocol as a lawful state machine.
use fipa_wasm.Base.{refl, arith}
use fipa_wasm.Protocol.{add_participant}
use fipa_wasm.Protocol.Machine.Laws.{IsLawful, Recorded, Reported, lawful_by}
use fipa_wasm.Protocol.Propose.{
  propose_machine, validate_transition, advance, process, validate, is_failed, is_complete,
}

propose-Recorded :
    Recorded propose_machine validate_transition (λ p now msg perf s. advance msg s p)
unfolding add_participant validate_transition advance
propose-Recorded p now msg perf s t = ground arith

propose-Reported :
    Reported propose_machine validate_transition (λ p now msg perf s. advance msg s p)
unfolding add_participant validate_transition advance is_failed is_complete
propose-Reported p now msg perf s t = ground arith

pub propose_machine-IsLawful : IsLawful propose_machine
unfolding validate process is_failed is_complete
propose_machine-IsLawful =
    lawful_by propose_machine validate_transition (λ p now msg perf s. advance msg s p)
      (λ p msg. refl) (λ p now msg. refl) (propose-Recorded) (propose-Reported) λ p f. ground arith
