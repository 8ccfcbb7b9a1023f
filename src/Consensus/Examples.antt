-- ===== src/Consensus/Examples.antt =====
-- Two replicas of one log.
use fipa_wasm.Base.{ℕ, List, [], ◌∷◌, ◌≡◌}
use fipa_wasm.Base.Int.{ℤ, pos}
use fipa_wasm.Consensus.{
  StateRequest, register_agent, register_service, unregister_agent, query_services, default_state,
  apply,
}
use fipa_wasm.Consensus.Replicas.{replay, shared, shared_response, replay-agrees}

abbrev log : List StateRequest
log =
    register_agent "a" 1 []
    ∷ register_service "directory" "agents" "a" []
    ∷ unregister_agent "a"
    ∷ []

abbrev early : ℕ → ℤ
early n = pos 0

abbrev late : ℕ → ℤ
late n = pos 7

replay-agrees_example :
    let a = replay early 1 log default_state in
    let b = replay late 2 log default_state in
    (shared a ≡ shared b)
    × (shared_response (apply (pos 1) 1 (query_services "directory") a).1
        ≡ shared_response (apply (pos 9) 2 (query_services "directory") b).1)
replay-agrees_example =
    replay-agrees early late (pos 1) (pos 9) 1 2 log (query_services "directory") default_state
