-- ===== src/Platform/Ams.antt =====
-- crates/fipa-wasm-agents/src/platform/ams.rs: the life cycle of agents and their names. An agent is
-- entered when the future that `create_agent` spawns ends, so the futures that have not ended are part
-- of the state; what the supervisor answers there is only logged. The agent configuration that is sent
-- to the supervisor is a value of crates/fipa-wasm-agents/src/actor.
pub mod Handlers
pub mod Names
use fipa_wasm.Base.{
  ℕ, zero, suc, ◌+◌, ◌-◌, ◌%◌, ◌^◌, ltb, String, List, [], ◌∷◌, length, any, Option, none, some,
  Bool, true, false, not, ◌&&◌, ◌=s=◌, ◌<>◌, ◌==◌, if◌then◌else◌,
}
use fipa_wasm.Base.Decimal.{decimal}
use fipa_wasm.Base.Dict.{Dict, insert, contains_key}
use fipa_wasm.Acl.{AgentId}
use fipa_wasm.Acl.Capabilities.{AgentCapabilities}

pub record AmsConfig : Type 0 where
  pub platform_name : String
  pub require_auth : Bool
  pub max_agents : ℕ
  pub reserved_names : List String
  pub default_capabilities : AgentCapabilities

pub data AgentState : Type 0 where
  initiated active suspended waiting transit terminated : AgentState

-- The derived `==` and `Debug`.
abbrev pub same_state : AgentState → AgentState → Bool
same_state initiated initiated = true
same_state active active = true
same_state suspended suspended = true
same_state waiting waiting = true
same_state transit transit = true
same_state terminated terminated = true
same_state s t = false

abbrev pub state_name : AgentState → String
state_name initiated = "Initiated"
state_name active = "Active"
state_name suspended = "Suspended"
state_name waiting = "Waiting"
state_name transit = "Transit"
state_name terminated = "Terminated"

pub record AgentRegistration : Type 0 where
  pub agent_id : AgentId
  pub state : AgentState
  pub registered_at : ℕ
  pub owner : Option String
  pub properties : Dict String

pub record AmsStats : Type 0 where
  pub agents_created : ℕ
  pub agents_destroyed : ℕ
  pub agents_suspended : ℕ
  pub agents_resumed : ℕ
  pub queries_handled : ℕ
  pub auth_failures : ℕ

-- What a spawned future enters when it ends.
pub record Creation : Type 0 where
  pub name : String
  pub agent_id : AgentId
  pub owner : Option String

-- `creations` are the futures that were spawned and have not ended.
pub record Ams : Type 0 where
  pub config : AmsConfig
  pub agents : Dict AgentRegistration
  pub has_supervisor : Bool
  pub agent_id : AgentId
  pub stats : AmsStats
  pub creations : List Creation

pub data AmsError : Type 0 where
  name_not_available agent_not_found : String → AmsError
  agent_limit_reached : AmsError
  invalid_state : String → AmsError
  unauthorized supervisor_not_available : AmsError
  agent_error : String → AmsError

abbrev pub new_ams : AmsConfig → Ams
new_ams config = record {
  config = config;
  agents = [];
  has_supervisor = false;
  agent_id = record {
    name = "ams";
    addresses = ("ams@" <> config.platform_name) ∷ [];
    resolvers = [];
  };
  stats = record {
    agents_created = 0;
    agents_destroyed = 0;
    agents_suspended = 0;
    agents_resumed = 0;
    queries_handled = 0;
    auth_failures = 0;
  };
  creations = [];
}

abbrev pub with_supervisor : Ams → Ams
with_supervisor a = record a { has_supervisor = true }

-- `started`; the instant is the clock's.
abbrev pub started : ℕ → Ams → Ams
started now a = record a {
  agents =
      insert "ams"
        (record {
          agent_id = a.agent_id;
          state = active;
          registered_at = now;
          owner = none;
          properties = [];
        })
        a.agents;
}

abbrev pub is_reserved : String → Ams → Bool
is_reserved name a = any (λ (r : String). r =s= name) a.config.reserved_names

pub is_name_available : Ams → String → Bool
is_name_available a name = not (contains_key name a.agents) && not (is_reserved name a)

-- `format!("{}", counter)` of an `i32`, which is kept as its 32-bit word.
signed : ℕ → String
signed counter = if ltb counter (2 ^ 31) then decimal counter else "-" <> decimal (2 ^ 32 - counter)

pub numbered : String → ℕ → String
unfolding signed
numbered prefix counter = if counter == 0 then prefix else prefix <> "-" <> signed counter

-- `counter += 1`, which wraps in a release build.
abbrev pub next_counter : ℕ → ℕ
next_counter counter = (counter + 1) % 2 ^ 32

-- The loop, from a counter on, with fuel for its rounds.
pub first_available : ℕ → Ams → String → ℕ → Option String
first_available zero a prefix counter = none
first_available (suc fuel) a prefix counter =
    let later = first_available fuel a prefix (next_counter counter) in
    if is_name_available a (numbered prefix counter) then some (numbered prefix counter) else later

-- Enough fuel: see `generate_unique_name-available`.
abbrev pub fuel_of : Ams → ℕ
fuel_of a = suc (length a.agents + length a.config.reserved_names)

pub generate_unique_name : Ams → String → Option String
unfolding first_available
generate_unique_name a prefix = first_available (fuel_of a) a prefix 0
