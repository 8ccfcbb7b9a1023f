-- ===== src/Protocol/IteratedContractNet/Laws.antt =====
-- The Iterated Contract Net protocol as a lawful state machine.
use fipa_wasm.Base.{refl, arith}
use fipa_wasm.Protocol.Machine.Laws.{IsLawful, Recorded, Reported, lawful_by}
use fipa_wasm.Protocol.IteratedContractNet.{
  iterated_contract_net_machine, validate_transition, advance, process, validate, is_failed,
  is_complete,
}

iterated_contract_net-Recorded :
    Recorded iterated_contract_net_machine validate_transition
      (λ p now msg perf s. advance now msg perf s p)
unfolding validate_transition advance
iterated_contract_net-Recorded p now msg perf s t = ground arith

iterated_contract_net-Reported :
    Reported iterated_contract_net_machine validate_transition
      (λ p now msg perf s. advance now msg perf s p)
unfolding validate_transition advance is_failed is_complete
iterated_contract_net-Reported p now msg perf s t = ground arith

pub iterated_contract_net_machine-IsLawful : IsLawful iterated_contract_net_machine
unfolding validate process is_failed is_complete
iterated_contract_net_machine-IsLawful =
    lawful_by iterated_contract_net_machine validate_transition
      (λ p now msg perf s. advance now msg perf s p) (λ p msg. refl) (λ p now msg. refl)
      (iterated_contract_net-Recorded) (iterated_contract_net-Reported) λ p f. ground arith
