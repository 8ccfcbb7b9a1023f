-- ===== src/Platform/Ams/Handlers.antt =====
-- The message handlers of the agent management system.
pub mod Refinement
pub mod Taken
mod Examples
use fipa_wasm.Base.{
  ℕ, zero, suc, String, List, [], ◌∷◌, ◌++◌, map, filter, length, Option, none, some, Bool, true,
  false, not, ◌&&◌, ◌||◌, ltb, leb, ◌=s=◌, ◌<>◌, if◌then◌else◌,
}
use fipa_wasm.Base.Dict.{Dict, HashOrder, get, insert, contains_key}
use fipa_wasm.Base.Result.{Result, ok, err}
use fipa_wasm.Base.Text.{contains}
use fipa_wasm.Acl.{AgentId}
use fipa_wasm.Acl.Capabilities.{AgentCapabilities}
use fipa_wasm.Actor.{next_u64}
use fipa_wasm.Actor.Supervisor.{ShutdownReason, requested, Numbers, AgentConfig, default_strategy}
use fipa_wasm.Platform.Ams.{
  Ams, AmsConfig, AmsError, AmsStats, AgentState, AgentRegistration, Creation, active, suspended,
  terminated, same_state, state_name, name_not_available, agent_not_found, agent_limit_reached,
  invalid_state, unauthorized, supervisor_not_available, is_name_available, generate_unique_name,
}

pub record CreateAgent : Type 0 where
  pub name : Option String
  pub wasm_module : List ℕ
  pub capabilities : Option AgentCapabilities
  pub owner : Option String

-- The message of `destroy`, `suspend` and `resume`.
pub record Targeted : Type 0 where
  pub agent_name : String
  pub requester : Option String

pub record QueryAgents : Type 0 where
  pub name_pattern : Option String
  pub state : Option AgentState
  pub owner : Option String

pub record AgentDescription : Type 0 where
  pub name : String
  pub addresses : List String
  pub state : AgentState
  pub owner : Option String

pub record PlatformDescription : Type 0 where
  pub name : String
  pub ams_address : String
  pub df_address : String
  pub agent_count : ℕ
  pub max_agents : ℕ

abbrev pub same_owner : Option String → Option String → Bool
same_owner none none = true
same_owner (some s) (some t) = s =s= t
same_owner _ _ = false

-- What is sent to the supervisor.
pub data Command (f : Numbers) : Type 0 where
  spawn_agent : AgentConfig f → Command f
  stop_agent : AgentId → ShutdownReason → Command f

-- The state behind a handler, what it sends, and its answer.
abbrev pub Answer : Numbers → Type 0 → Type 0
Answer f A = Ams × List (Command f) × Result AmsError A

abbrev pub identifier : Ams → String → AgentId
identifier a name = record {
  name = name;
  addresses = (name <> "@" <> a.config.platform_name) ∷ [];
  resolvers = [];
}

abbrev or_default : AmsConfig → Option AgentCapabilities → AgentCapabilities
or_default config none = config.default_capabilities
or_default config (some c) = c

abbrev pub config_for : (f : Numbers) → Ams → CreateAgent → String → AgentConfig f
config_for f a request name = record {
  id = identifier a name;
  wasm_module = request.wasm_module;
  capabilities = or_default a.config request.capabilities;
  initial_state = none;
  restart_strategy = default_strategy f;
}

-- `create_agent` behind the choice of a name. The command is sent by the future that is spawned.
pub create_named : (f : Numbers) → Ams → CreateAgent → String → Answer f AgentId
create_named f a request name =
    if ltb 0 a.config.max_agents && leb a.config.max_agents (length a.agents)
    then (a, [], err agent_limit_reached)
    else if a.has_supervisor
    then (
      record a {
        creations =
            a.creations
            ++ record { name = name; agent_id = identifier a name; owner = request.owner } ∷ [];
      },
      spawn_agent (config_for f a request name) ∷ [],
      ok (identifier a name),
    )
    else (a, [], err supervisor_not_available)

create_generated : (f : Numbers) → Ams → CreateAgent → Option String → Option (Answer f AgentId)
unfolding create_named
create_generated f a request none = none
create_generated f a request (some name) = some (create_named f a request name)

-- `none` would be a loop over names that has not ended.
pub create_agent : (f : Numbers) → Ams → CreateAgent → Option (Answer f AgentId)
unfolding create_named create_generated
create_agent f a request = elim request.name [
  | some n ↦ some (
      if is_name_available a n
      then create_named f a request n
      else (a, [], err (name_not_available n)))
  | none ↦ create_generated f a request (generate_unique_name a "agent")
]

-- One of the futures that have not ended, and the others.
pub extract : ℕ → List Creation → Option (Creation × List Creation)
extract n [] = none
extract zero (c ∷ cs) = some (c, cs)
extract (suc n) (c ∷ cs) = elim (extract n cs) [ none ↦ none | some (d, ds) ↦ some (d, c ∷ ds) ]

-- The future ends, whatever the supervisor answers: the map it is given counts the agent.
pub end_creation : ℕ → Creation → Ams → Ams
end_creation now c a = record a {
  agents =
      insert c.name
        (record {
          agent_id = c.agent_id;
          state = active;
          registered_at = now;
          owner = c.owner;
          properties = [];
        })
        a.agents;
  stats = record a.stats { agents_created = next_u64 a.stats.agents_created };
}

abbrev pub may_destroy : AmsConfig → Option String → AgentRegistration → Bool
may_destroy config requester reg = elim reg.owner [
  | none ↦ true
  | some owner ↦ not config.require_auth || same_owner requester (some owner)
]

abbrev pub with_state : AgentState → AgentRegistration → AgentRegistration
with_state s reg = record reg { state = s }

abbrev stop_commands : (f : Numbers) → Ams → String → List (Command f)
stop_commands f a name =
    if a.has_supervisor
    then stop_agent (record { name = name; addresses = []; resolvers = [] }) requested ∷ []
    else []

abbrev destroy_found :
    (f : Numbers) → Ams → Targeted → Option AgentRegistration → Answer f (Unit {0})
destroy_found f a request none = (a, [], err (agent_not_found request.agent_name))
destroy_found f a request (some reg) =
    if may_destroy a.config request.requester reg
    then (
      record a {
        agents = insert request.agent_name (with_state terminated reg) a.agents;
        stats = record a.stats { agents_destroyed = next_u64 a.stats.agents_destroyed };
      },
      stop_commands f a request.agent_name,
      ok tt,
    )
    else (a, [], err unauthorized)

pub destroy_agent : (f : Numbers) → Ams → Targeted → Answer f (Unit {0})
destroy_agent f a request = destroy_found f a request (get request.agent_name a.agents)

abbrev suspend_found : Ams → String → Option AgentRegistration → Ams × Result AmsError (Unit {0})
suspend_found a name none = (a, err (agent_not_found name))
suspend_found a name (some reg) =
    if not (same_state reg.state active)
    then (a, err (invalid_state ("Agent is " <> state_name reg.state <> ", cannot suspend")))
    else (
      record a {
        agents = insert name (with_state suspended reg) a.agents;
        stats = record a.stats { agents_suspended = next_u64 a.stats.agents_suspended };
      },
      ok tt,
    )

pub suspend_agent : Ams → Targeted → Ams × Result AmsError (Unit {0})
suspend_agent a request = suspend_found a request.agent_name (get request.agent_name a.agents)

abbrev resume_found : Ams → String → Option AgentRegistration → Ams × Result AmsError (Unit {0})
resume_found a name none = (a, err (agent_not_found name))
resume_found a name (some reg) =
    if not (same_state reg.state suspended)
    then (a, err (invalid_state ("Agent is " <> state_name reg.state <> ", cannot resume")))
    else (
      record a {
        agents = insert name (with_state active reg) a.agents;
        stats = record a.stats { agents_resumed = next_u64 a.stats.agents_resumed };
      },
      ok tt,
    )

pub resume_agent : Ams → Targeted → Ams × Result AmsError (Unit {0})
resume_agent a request = resume_found a request.agent_name (get request.agent_name a.agents)

abbrev asked_for {ℓ} : {A : Type ℓ} → Option A → (A → Bool) → Bool
asked_for none test = true
asked_for (some x) test = test x

-- The filter of `query_agents`.
abbrev pub fits : QueryAgents → String → AgentRegistration → Bool
fits q name reg =
    asked_for q.name_pattern (λ (p : String). contains p name)
    && asked_for q.state (λ (s : AgentState). same_state reg.state s)
    && asked_for q.owner (λ (o : String). same_owner reg.owner (some o))

abbrev describe : String × AgentRegistration → AgentDescription
describe (name, reg) = record {
  name = reg.agent_id.name;
  addresses = reg.agent_id.addresses;
  state = reg.state;
  owner = reg.owner;
}

abbrev pub query_agents : HashOrder → Ams → QueryAgents → Ams × List AgentDescription
query_agents h a q = (
  record a { stats = record a.stats { queries_handled = next_u64 a.stats.queries_handled } },
  map describe (
      filter (λ (e : String × AgentRegistration). fits q e.0 e.1)
        (h.order AgentRegistration a.agents)),
)

abbrev pub get_platform_description : Ams → PlatformDescription
get_platform_description a = record {
  name = a.config.platform_name;
  ams_address = "ams@" <> a.config.platform_name;
  df_address = "df@" <> a.config.platform_name;
  agent_count = length a.agents;
  max_agents = a.config.max_agents;
}
