-- ===== src/Actor/Registry.antt =====
-- The actor registry of crates/fipa-wasm-agents/src/actor/registry.rs. Its three `DashMap`s are
-- association lists: each handler makes its calls of them one after the other.
pub mod Log
use fipa_wasm.Base.{
  String, List, [], ◌∷◌, ◌++◌, map, filter, Option, none, some, Bool, true, false, not, ◌=s=◌,
  if◌then◌else◌,
}
use fipa_wasm.Base.Dict.{Dict, get, insert, remove, contains_key}
use fipa_wasm.Base.Result.{Result, ok, err}
use fipa_wasm.Acl.{AgentId}
use fipa_wasm.Actor.{Addr, AgentError, not_found}

pub record ActorRegistry : Type 0 where
  pub local_agents : Dict Addr
  pub remote_agents : Dict String
  pub services : Dict (List String)
  pub node_id : String

pub new : String → ActorRegistry
new node_id = record { local_agents = []; remote_agents = []; services = []; node_id = node_id }

is_local : String → ActorRegistry → Bool
is_local agent_name r = contains_key agent_name r.local_agents

get_agent_node : String → ActorRegistry → Option String
unfolding is_local
get_agent_node agent_name r =
    if is_local agent_name r then some r.node_id else get agent_name r.remote_agents

register_remote : String → String → ActorRegistry → ActorRegistry
register_remote agent_name node_id r = record r {
  remote_agents = insert agent_name node_id r.remote_agents;
}

deregister_remote : String → ActorRegistry → ActorRegistry
deregister_remote agent_name r = record r { remote_agents = remove agent_name r.remote_agents }

-- `unwrap_or_default`, and `or_insert_with(Vec::new)`.
abbrev pub or_empty : Option (List String) → List String
or_empty none = []
or_empty (some names) = names

find_service_providers : String → ActorRegistry → List String
find_service_providers service_name r = or_empty (get service_name r.services)

register_service : String → String → ActorRegistry → ActorRegistry
unfolding find_service_providers
register_service service_name agent_name r = record r {
  services =
      insert service_name (find_service_providers service_name r ++ agent_name ∷ []) r.services;
}

abbrev pub retain : String → List String → List String
retain agent_name = filter (λ (a : String). not (a =s= agent_name))

-- The removal of an agent from a service, by what `get_mut` finds.
drop_provider : String → String → Option (List String) → ActorRegistry → ActorRegistry
drop_provider service_name agent_name none r = r
drop_provider service_name agent_name (some providers) r = record r {
  services = insert service_name (retain agent_name providers) r.services;
}

-- The messages that change the registry.
pub data Update : Type 0 where
  register_actor : AgentId → Addr → Update
  deregister_actor : AgentId → Update
  update_remote_registry : AgentId → String → Bool → Update
  update_service_registry : String → String → Bool → Update

pub handle : Update → ActorRegistry → ActorRegistry
unfolding register_remote deregister_remote register_service drop_provider
handle (register_actor agent_id addr) r = record r {
  local_agents = insert agent_id.name addr r.local_agents;
}
handle (deregister_actor agent_id) r = record r {
  local_agents = remove agent_id.name r.local_agents;
}
handle (update_remote_registry agent_id node_id true) r = register_remote agent_id.name node_id r
handle (update_remote_registry agent_id node_id false) r = deregister_remote agent_id.name r
handle (update_service_registry service_name agent_name true) r =
    register_service service_name agent_name r
handle (update_service_registry service_name agent_name false) r =
    drop_provider service_name agent_name (get service_name r.services) r

pub lookup_actor : AgentId → ActorRegistry → Option Addr
lookup_actor agent_id r = get agent_id.name r.local_agents

-- `ok_or_else(|| AgentError::NotFound(name))`
abbrev pub or_not_found : String → Option String → Result AgentError String
or_not_found name none = err (not_found name)
or_not_found name (some node) = ok node

pub resolve_agent : AgentId → ActorRegistry → Result AgentError String
unfolding get_agent_node
resolve_agent agent_id r = or_not_found agent_id.name (get_agent_node agent_id.name r)

-- `Handler<FindAgents>`, which does not read the protocol of the request.
abbrev pub to_agent : String → AgentId
to_agent name = record { name = name; addresses = []; resolvers = [] }

pub find_agents : String → ActorRegistry → Result AgentError (List AgentId)
unfolding find_service_providers
find_agents service_name r = ok (map to_agent (find_service_providers service_name r))
