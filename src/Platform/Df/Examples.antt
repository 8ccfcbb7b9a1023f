-- ===== src/Platform/Df/Examples.antt =====
-- The directory at concrete inputs.
use fipa_wasm.Base.{◌<◌, ◌≤◌, String, List, [], ◌∷◌, length, ◌≡◌, some}
use fipa_wasm.Base.Dict.{insertion_order, get}
use fipa_wasm.Acl.{AgentId, ServiceDescription}
use fipa_wasm.Platform.Df.{default_config, list_of, total_count, new_df}
use fipa_wasm.Platform.Df.Index.{is_listed, is_provided}
use fipa_wasm.Platform.Df.Removal.{
  Call, registering, deregistering, modifying, performs, performs-IsIndexed,
}
use fipa_wasm.Platform.Df.Limits.{performs-limits}

abbrev named : String → AgentId
named name = record { name = name; addresses = []; resolvers = [] }

abbrev service : String → ServiceDescription
service name = record {
  name = name;
  description = "";
  protocols = [];
  ontology = "";
  properties = [];
}

abbrev offering : String → String → Call
offering agent name =
    registering 1 2
      (record { agent_id = named agent; service = service name; lease_duration = some 60 })

abbrev calls : List Call
calls =
    offering "a" "print"
    ∷ offering "b" "print"
    ∷ modifying 3 4 (named "a") (service "print")
    ∷ deregistering (record { agent_id = named "b"; service_name = "print" })
    ∷ []

performs-IsIndexed_example :
    let d = performs insertion_order calls (new_df default_config) in
    is_listed d "a" "print" ≡ is_provided d "a" "print"
performs-IsIndexed_example = performs-IsIndexed insertion_order calls default_config "a" "print"

performs-limits_example :
    let d = performs insertion_order calls (new_df default_config) in
    (0 < 10000 → total_count d.services ≤ 10000)
    × (length (list_of (get "a" d.agent_services)) ≤ 100)
performs-limits_example = performs-limits insertion_order calls default_config "a"
