-- ===== src/Protocol/ContractNet/Laws.antt =====
-- The Contract Net protocol as a lawful state machine.
use fipa_wasm.Base.{refl, arith}
use fipa_wasm.Base.Dict.{HashOrder}
use fipa_wasm.Protocol.{add_participant}
use fipa_wasm.Protocol.Machine.Laws.{IsLawful, Recorded, Reported, lawful_by}
use fipa_wasm.Protocol.ContractNet.{
  contract_net_machine, validate_transition, advance, process, validate, is_failed, is_complete,
}

contract_net-Recorded :
    (h : HashOrder)
    → Recorded
        (contract_net_machine h)
        validate_transition
        (λ p now msg perf s. advance h now msg perf s p)
unfolding add_participant validate_transition advance
contract_net-Recorded h p now msg perf s t = ground arith

contract_net-Reported :
    (h : HashOrder)
    → Reported
        (contract_net_machine h)
        validate_transition
        (λ p now msg perf s. advance h now msg perf s p)
unfolding add_participant validate_transition advance is_failed is_complete
contract_net-Reported h p now msg perf s t = ground arith

pub contract_net_machine-IsLawful : (h : HashOrder) → IsLawful (contract_net_machine h)
unfolding validate process is_failed is_complete
contract_net_machine-IsLawful h =
    lawful_by (contract_net_machine h) validate_transition
      (λ p now msg perf s. advance h now msg perf s p) (λ p msg. refl) (λ p now msg. refl)
      (contract_net-Recorded h) (contract_net-Reported h) λ p f. ground arith
