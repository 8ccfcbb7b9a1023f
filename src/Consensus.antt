-- ===== src/Consensus.antt =====
-- crates/fipa-wasm-agents/src/consensus/state.rs: the cluster state that each replica applies the log
-- of requests to. The clock and the node are those of the replica, which
-- crates/fipa-wasm-agents/src/consensus/storage.rs passes. The position in the log and the membership
-- belong to the openraft library, and no request reads or changes them.
pub mod Replicas
mod Examples
use fipa_wasm.Base.{ℕ, String, List, [], ◌∷◌, ◌++◌, filter, Option, none, some, Bool, not, ◌=s=◌}
use fipa_wasm.Base.Dict.{Dict, get, insert, remove}
use fipa_wasm.Base.Int.{ℤ}

pub record AgentLocation : Type 0 where
  pub fingerprint : String
  pub node_id : ℕ
  pub updated_at : ℤ
  pub capabilities : List String

pub record ServiceEntry : Type 0 where
  pub service_type : String
  pub name : String
  pub provider : String
  pub node_id : ℕ
  pub properties : Dict String
  pub registered_at : ℤ

pub data StateRequest : Type 0 where
  register_agent : String → ℕ → List String → StateRequest
  unregister_agent : String → StateRequest
  register_service : String → String → String → Dict String → StateRequest
  unregister_service : String → String → StateRequest
  query_agent query_services : String → StateRequest

pub data StateResponse : Type 0 where
  done : StateResponse
  agent : Option AgentLocation → StateResponse
  services_found : List ServiceEntry → StateResponse
  error : String → StateResponse

pub record ClusterState : Type 0 where
  pub agents : Dict AgentLocation
  pub services : Dict (List ServiceEntry)

abbrev pub default_state : ClusterState
default_state = record { agents = []; services = [] }

-- `or_default` and `unwrap_or_default`.
abbrev pub or_empty : Option (List ServiceEntry) → List ServiceEntry
or_empty none = []
or_empty (some entries) = entries

abbrev pub retain : String → List ServiceEntry → List ServiceEntry
retain provider entries = filter (λ (e : ServiceEntry). not (e.provider =s= provider)) entries

abbrev pub unregister : String → String → Option (List ServiceEntry) → ClusterState → ClusterState
unregister service_type provider none s = s
unregister service_type provider (some entries) s = record s {
  services = insert service_type (retain provider entries) s.services;
}

pub apply : ℤ → ℕ → StateRequest → ClusterState → ClusterState × StateResponse
apply now node_id (register_agent fingerprint node capabilities) s = (
  record s {
    agents =
        insert fingerprint
          (record {
            fingerprint = fingerprint;
            node_id = node;
            updated_at = now;
            capabilities = capabilities;
          })
          s.agents;
  },
  done,
)
apply now node_id (unregister_agent fingerprint) s =
    (record s { agents = remove fingerprint s.agents }, done)
apply now node_id (register_service service_type name provider properties) s = (
  record s {
    services =
        insert service_type
          (retain provider (or_empty (get service_type s.services))
            ++ record {
              service_type = service_type;
              name = name;
              provider = provider;
              node_id = node_id;
              properties = properties;
              registered_at = now;
            }
              ∷ [])
          s.services;
  },
  done,
)
apply now node_id (unregister_service service_type provider) s =
    (unregister service_type provider (get service_type s.services) s, done)
apply now node_id (query_agent fingerprint) s = (s, agent (get fingerprint s.agents))
apply now node_id (query_services service_type) s =
    (s, services_found (or_empty (get service_type s.services)))
