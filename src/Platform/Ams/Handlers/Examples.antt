-- ===== src/Platform/Ams/Handlers/Examples.antt =====
-- The life of an agent at concrete inputs.
use fipa_wasm.Base.{
  arith, ℕ, ◌*◌, ◌<◌, String, List, [], ◌∷◌, length, ◌≡◌, ◌≤◌, refl, none, some, true, false, ◌=s=◌,
  if◌then◌else◌,
}
use fipa_wasm.Base.Dict.{insertion_order, contains_key, insert}
use fipa_wasm.Acl.Capabilities.{AgentCapabilities}
use fipa_wasm.Base.Int.{pos}
use fipa_wasm.Actor.Supervisor.{Numbers}
use fipa_wasm.Platform.Ams.{
  Ams, AmsConfig, new_ams, with_supervisor, started, is_name_available, generate_unique_name,
  numbered,
}
use fipa_wasm.Platform.Ams.Names.{generate_unique_name-available}
use fipa_wasm.Platform.Ams.Handlers.{Targeted}
use fipa_wasm.Platform.Ams.Handlers.Refinement.{
  destroying, order, order-verdict, verdict, view, view_of, answer_of,
}
use fipa_wasm.Platform.Ams.Handlers.Taken.{
  Call, creating, ending, ordering, performs, performs-taken,
}

abbrev numbers : Numbers
numbers = record { F64 = ℕ; two = 2; grow = λ (n f m : ℕ). n * f; AgentState = Unit }

abbrev limits : AgentCapabilities
limits = record {
  max_memory_bytes = 64;
  max_execution_time_ms = 30000;
  allowed_protocols = [];
  network_access = pos 1;
  storage_quota_bytes = 10;
  migration_allowed = true;
  spawn_allowed = true;
  allowed_destinations = [];
}

abbrev config : AmsConfig
config = record {
  platform_name = "p";
  require_auth = true;
  max_agents = 10;
  reserved_names = "ams" ∷ "df" ∷ "acc" ∷ [];
  default_capabilities = limits;
}

abbrev platform : Ams
platform = started 0 (with_supervisor (new_ams config))

generate_unique_name-available_example :
    (k : ℕ) × (generate_unique_name platform "agent" ≡ some (numbered "agent" k))
    × (is_name_available platform (numbered "agent" k) ≡ true)
    × ((i : ℕ) → i < k → is_name_available platform (numbered "agent" i) ≡ false)
unfolding insert
generate_unique_name-available_example =
    generate_unique_name-available platform "agent" (omega arith)

abbrev stop_ams : Targeted
stop_ams = record { agent_name = "ams"; requester = none }

order-verdict_example :
    let v = verdict config destroying stop_ams (view platform "ams") in
    let r = order numbers destroying stop_ams platform in
    (r.1 ≡ answer_of v)
    × ((name : String)
        → view r.0 name
          ≡ (if "ams" =s= name then view_of v (view platform name) else view platform name))
order-verdict_example = order-verdict numbers destroying stop_ams platform

abbrev calls : List Call
calls =
    creating (record { name = some "a"; wasm_module = []; capabilities = none; owner = none })
    ∷ ending 5 0
    ∷ ordering destroying stop_ams
    ∷ []

performs-taken_example :
    (is_name_available (performs insertion_order numbers calls platform) "ams" ≡ false)
    × (length platform.agents ≤ length (performs insertion_order numbers calls platform).agents)
unfolding contains_key insert
performs-taken_example = performs-taken insertion_order numbers calls platform "ams" refl
