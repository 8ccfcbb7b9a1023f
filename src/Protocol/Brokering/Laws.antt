-- ===== src/Protocol/Brokering/Laws.antt =====
-- The Brokering protocol as a lawful state machine.
use fipa_wasm.Base.{ℕ, List, refl, arith}
use fipa_wasm.Protocol.Machine.Laws.{IsLawful, Recorded, Reported, lawful_by}
use fipa_wasm.Protocol.Brokering.{
  brokering_machine, validate_transition, advance, process, validate, is_failed, is_complete,
}

brokering-Recorded :
    (results_json : List (List ℕ) → List ℕ)
    → Recorded
        (brokering_machine results_json)
        validate_transition
        (λ p now msg perf s. advance results_json msg perf s p)
unfolding validate_transition advance
brokering-Recorded results_json p now msg perf s t = ground arith

brokering-Reported :
    (results_json : List (List ℕ) → List ℕ)
    → Reported
        (brokering_machine results_json)
        validate_transition
        (λ p now msg perf s. advance results_json msg perf s p)
unfolding validate_transition advance is_failed is_complete
brokering-Reported results_json p now msg perf s t = ground arith

pub brokering_machine-IsLawful :
    (results_json : List (List ℕ) → List ℕ) → IsLawful (brokering_machine results_json)
unfolding validate process is_failed is_complete
brokering_machine-IsLawful results_json =
    lawful_by (brokering_machine results_json) validate_transition
      (λ p now msg perf s. advance results_json msg perf s p) (λ p msg. refl) (λ p now msg. refl)
      (brokering-Recorded results_json) (brokering-Reported results_json) λ p f. ground arith
