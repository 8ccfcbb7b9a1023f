-- ===== src/Protocol/Recruiting/Laws.antt =====
-- The Recruiting protocol as a lawful state machine.
use fipa_wasm.Base.{List, ℕ, String, refl, arith}
use fipa_wasm.Float.{Float}
use fipa_wasm.Protocol.Machine.Laws.{IsLawful, Recorded, Reported, lawful_by}
use fipa_wasm.Protocol.Recruiting.{
  recruiting_machine, validate_transition, advance, process, validate, is_failed, is_complete,
}

module _ (f : Float) (names_json : List String → List ℕ) where
  recruiting-Recorded :
      Recorded
        (recruiting_machine f names_json)
        (validate_transition f)
        (λ p now msg perf s. advance f names_json msg perf s p)
  unfolding validate_transition advance
  recruiting-Recorded p now msg perf s t = ground arith

  recruiting-Reported :
      Reported
        (recruiting_machine f names_json)
        (validate_transition f)
        (λ p now msg perf s. advance f names_json msg perf s p)
  unfolding validate_transition advance is_failed is_complete
  recruiting-Reported p now msg perf s t = ground arith

  pub recruiting_machine-IsLawful : IsLawful (recruiting_machine f names_json)
  unfolding validate process is_failed is_complete
  recruiting_machine-IsLawful =
      lawful_by (recruiting_machine f names_json) (validate_transition f)
        (λ p now msg perf s. advance f names_json msg perf s p) (λ p msg. refl) (λ p now msg. refl)
        recruiting-Recorded recruiting-Reported λ p h. ground arith
