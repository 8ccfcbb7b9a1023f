-- ===== src/Actor/Registry/Log.antt =====
-- The answers of the registry, read off the log of its updates, newest first.
use fipa_wasm.Base.{
  String, ◌≡◌, refl, sym, ap, ◌∙◌, List, [], ◌∷◌, ◌++◌, map, Option, none, some, true, false, ◌=s=◌,
  eq_iff, if◌then◌else◌, is_some, inl, inr, Bool-cases,
}
use fipa_wasm.Base.Dict.{get, get-insert, get-remove, contains_key-get}
use fipa_wasm.Base.Result.{ok}
use fipa_wasm.Acl.{AgentId}
use fipa_wasm.Actor.{Addr}
use fipa_wasm.Actor.Registry.{
  ActorRegistry, new, is_local, get_agent_node, find_service_providers, register_service,
  register_remote, deregister_remote, drop_provider, or_empty, retain, Update, register_actor,
  deregister_actor, update_remote_registry, update_service_registry, handle, lookup_actor,
  resolve_agent, or_not_found, to_agent, find_agents,
}

abbrev pub serve : String → List Update → ActorRegistry
serve node [] = new node
serve node (u ∷ log) = handle u (serve node log)

-- The address that the last word on a local agent gives.
abbrev pub local_of : String → List Update → Option Addr
local_of name [] = none
local_of name (register_actor a addr ∷ log) =
    if a.name =s= name then some addr else local_of name log
local_of name (deregister_actor a ∷ log) = if a.name =s= name then none else local_of name log
local_of name (u ∷ log) = local_of name log

-- The node that the last word on a remote agent gives.
abbrev pub remote_of : String → List Update → Option String
remote_of name [] = none
remote_of name (update_remote_registry a node true ∷ log) =
    if a.name =s= name then some node else remote_of name log
remote_of name (update_remote_registry a node false ∷ log) =
    if a.name =s= name then none else remote_of name log
remote_of name (u ∷ log) = remote_of name log

-- The agents that entered a service after they last left it, each as often, the oldest entry first.
abbrev pub providers_of : String → List Update → List String
providers_of service [] = []
providers_of service (update_service_registry s agent true ∷ log) =
    if s =s= service then providers_of service log ++ agent ∷ [] else providers_of service log
providers_of service (update_service_registry s agent false ∷ log) =
    if s =s= service then retain agent (providers_of service log) else providers_of service log
providers_of service (u ∷ log) = providers_of service log

drop_provider-agents :
    (s agent : String) (o : Option (List String)) (r : ActorRegistry)
    → ((drop_provider s agent o r).local_agents ≡ r.local_agents)
      × ((drop_provider s agent o r).remote_agents ≡ r.remote_agents)
      × ((drop_provider s agent o r).node_id ≡ r.node_id)
unfolding drop_provider
drop_provider-agents s agent none r = (refl, refl, refl)
drop_provider-agents s agent (some ps) r = (refl, refl, refl)

local_lem :
    (node name : String) (log : List Update)
    → get name (serve node log).local_agents ≡ local_of name log
unfolding new get handle register_remote deregister_remote register_service
local_lem node name [] = refl
local_lem node name (register_actor a addr ∷ log) =
    get-insert a.name name addr (serve node log).local_agents ∙ rw (local_lem node name log)
local_lem node name (deregister_actor a ∷ log) =
    get-remove a.name name (serve node log).local_agents ∙ rw (local_lem node name log)
local_lem node name (update_remote_registry a n true ∷ log) = local_lem node name log
local_lem node name (update_remote_registry a n false ∷ log) = local_lem node name log
local_lem node name (update_service_registry s agent true ∷ log) = local_lem node name log
local_lem node name (update_service_registry s agent false ∷ log) =
    ap (get name)
      (drop_provider-agents s agent (get s (serve node log).services) (serve node log)).0
    ∙ local_lem node name log

remote_lem :
    (node name : String) (log : List Update)
    → get name (serve node log).remote_agents ≡ remote_of name log
unfolding new get handle register_remote deregister_remote register_service
remote_lem node name [] = refl
remote_lem node name (register_actor a addr ∷ log) = remote_lem node name log
remote_lem node name (deregister_actor a ∷ log) = remote_lem node name log
remote_lem node name (update_remote_registry a n true ∷ log) =
    get-insert a.name name n (serve node log).remote_agents ∙ rw (remote_lem node name log)
remote_lem node name (update_remote_registry a n false ∷ log) =
    get-remove a.name name (serve node log).remote_agents ∙ rw (remote_lem node name log)
remote_lem node name (update_service_registry s agent true ∷ log) = remote_lem node name log
remote_lem node name (update_service_registry s agent false ∷ log) =
    ap (get name)
      (drop_provider-agents s agent (get s (serve node log).services) (serve node log)).1
    ∙ remote_lem node name log

node_lem : (node : String) (log : List Update) → (serve node log).node_id ≡ node
unfolding new handle register_remote deregister_remote register_service
node_lem node [] = refl
node_lem node (register_actor a addr ∷ log) = node_lem node log
node_lem node (deregister_actor a ∷ log) = node_lem node log
node_lem node (update_remote_registry a n true ∷ log) = node_lem node log
node_lem node (update_remote_registry a n false ∷ log) = node_lem node log
node_lem node (update_service_registry s agent true ∷ log) = node_lem node log
node_lem node (update_service_registry s agent false ∷ log) =
    (drop_provider-agents s agent (get s (serve node log).services) (serve node log)).2
    ∙ node_lem node log

-- What one service holds after an entry, and after a removal.
entered :
    (s service agent : String) (r : ActorRegistry)
    → find_service_providers service (register_service s agent r) ≡ (
        if s =s= service
        then find_service_providers service r ++ agent ∷ []
        else find_service_providers service r)
unfolding find_service_providers register_service
entered s service agent r = elim (Bool-cases (s =s= service)) [
  | inl e ↦ ap or_empty (get-insert s service _ r.services) ∙ rw (e, (eq_iff s service).0 e) refl
  | inr n ↦ ap or_empty (get-insert s service _ r.services) ∙ rw n refl
]

left :
    (s service agent : String) (o : Option (List String)) (r : ActorRegistry)
    → get s r.services ≡ o
    → find_service_providers service (drop_provider s agent o r) ≡ (
        if s =s= service
        then retain agent (find_service_providers service r)
        else find_service_providers service r)
unfolding find_service_providers drop_provider
left s service agent none r g = elim (Bool-cases (s =s= service)) [
  | inl e ↦ rw (e, sym ((eq_iff s service).0 e), g) refl
  | inr n ↦ rw n refl
]
left s service agent (some ps) r g = elim (Bool-cases (s =s= service)) [
  | inl e ↦
      ap or_empty (get-insert s service _ r.services) ∙ rw (e, sym ((eq_iff s service).0 e), g) refl
  | inr n ↦ ap or_empty (get-insert s service _ r.services) ∙ rw n refl
]

providers_lem :
    (node service : String) (log : List Update)
    → find_service_providers service (serve node log) ≡ providers_of service log
unfolding new get handle register_remote deregister_remote find_service_providers
providers_lem node service [] = refl
providers_lem node service (register_actor a addr ∷ log) = providers_lem node service log
providers_lem node service (deregister_actor a ∷ log) = providers_lem node service log
providers_lem node service (update_remote_registry a n true ∷ log) = providers_lem node service log
providers_lem node service (update_remote_registry a n false ∷ log) = providers_lem node service log
providers_lem node service (update_service_registry s agent true ∷ log) =
    entered s service agent (serve node log) ∙ rw (providers_lem node service log)
providers_lem node service (update_service_registry s agent false ∷ log) =
    left s service agent (get s (serve node log).services) (serve node log) refl
    ∙ rw (providers_lem node service log)

-- The node that has the last word: this one for an agent registered here, else the remote one.
abbrev pub located : String → Option Addr → Option String → Option String
located node (some addr) remote = some node
located node none remote = remote

located_lem :
    (node : String) (o : Option Addr) (remote : Option String)
    → (if is_some o then some node else remote) ≡ located node o remote
located_lem node none remote = refl
located_lem node (some addr) remote = refl

-- After any updates the answers of the registry are those of the log: a lookup gives the address of the
-- last registration that no deregistration followed; an agent is located on this node if it has such an
-- address, else on the node of the last remote registration that none took back, else it is not found;
-- and a service has the agents that entered it and did not leave it since, in the order of entry, each
-- as often as it entered, whether or not they are registered.
pub serve-answers :
    (node service : String) (agent : AgentId) (log : List Update)
    → (lookup_actor agent (serve node log) ≡ local_of agent.name log)
      × (resolve_agent agent (serve node log)
          ≡ or_not_found agent.name
              (located node (local_of agent.name log) (remote_of agent.name log)))
      × (find_agents service (serve node log) ≡ ok (map to_agent (providers_of service log)))
unfolding lookup_actor resolve_agent get_agent_node is_local find_agents
serve-answers node service agent log = (
  local_lem node agent.name log,
  ap (or_not_found agent.name) (
      rw
        (
          contains_key-get agent.name (serve node log).local_agents,
          local_lem node agent.name log,
          remote_lem node agent.name log,
          node_lem node log,
        )
        (located_lem node (local_of agent.name log) (remote_of agent.name log))),
  ap (λ ps. ok (map to_agent ps)) (providers_lem node service log),
)
