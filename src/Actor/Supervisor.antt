-- ===== src/Actor/Supervisor.antt =====
-- The supervision of agents in crates/fipa-wasm-agents/src/actor/supervisor.rs: who is supervised, what
-- a failure does, and the restart that it schedules. Durations and instants are nanoseconds. What
-- decodes a bundle, builds the WASM runtime and restores its state is a parameter (`build`), as is the
-- arithmetic of `f64` on a backoff (`grow`, for `(current * multiplier).min(max)`).
pub mod Restarts
use fipa_wasm.Base.{
  ℕ, ◌+◌, ◌*◌, ◌%◌, ◌^◌, String, List, [], ◌∷◌, ◌++◌, map, filter, length, Option, none, some, Bool,
  true, false, ltb, if◌then◌else◌, ◌<>◌,
}
use fipa_wasm.Base.Dict.{Dict, HashOrder, get, insert, remove, contains_key, values}
use fipa_wasm.Base.Result.{Result, ok, err}
use fipa_wasm.Acl.{AgentId}
use fipa_wasm.Acl.Capabilities.{AgentCapabilities}
use fipa_wasm.Actor.{
  Addr, AgentError, invalid_state, not_found, AgentRuntimeState, starting, running, stopped, failed,
  SupervisionEventType, event_started, event_stopped, event_failed, event_migrated, event_recovered,
}

pub data ShutdownReason : Type 0 where
  requested migration node_shutdown : ShutdownReason
  error : String → ShutdownReason
  timeout : ShutdownReason

abbrev pub seconds : ℕ → ℕ
seconds n = n * 10 ^ 9

-- `F64` with the number 2.0, and the type of a saved agent state.
pub record Numbers : Type 1 where
  pub F64 : Type 0
  pub two : F64
  pub grow : ℕ → F64 → ℕ → ℕ
  pub AgentState : Type 0

module _ (f : Numbers) where
  open f use {F64, two, grow, AgentState}

  pub data RestartStrategy : Type 0 where
    immediate : RestartStrategy
    backoff : ℕ → ℕ → F64 → RestartStrategy
    max_failures : ℕ → ℕ → RestartStrategy
    never : RestartStrategy

  -- `Default for RestartStrategy`
  abbrev pub default_strategy : RestartStrategy
  default_strategy = backoff (seconds 1) (seconds 60) two

  pub record AgentConfig : Type 0 where
    pub id : AgentId
    pub wasm_module : List ℕ
    pub capabilities : AgentCapabilities
    pub initial_state : Option AgentState
    pub restart_strategy : RestartStrategy

  pub record SupervisedAgent : Type 0 where
    pub addr : Addr
    pub config : AgentConfig
    pub strategy : RestartStrategy
    pub failures : List ℕ
    pub current_backoff : ℕ
    pub state : AgentRuntimeState

  -- What the supervisor asks for: `do_send(Shutdown)` and `ctx.run_later`.
  pub data Task : Type 0 where
    shutdown : Addr → ShutdownReason → Task
    restart_later : ℕ → AgentId → Task

  pub record Supervisor : Type 0 where
    pub agents : Dict SupervisedAgent
    pub tasks : List Task

  -- The entry that `spawn_agent` makes.
  abbrev pub fresh : AgentConfig → Addr → SupervisedAgent
  fresh config addr = record {
    addr = addr;
    config = config;
    strategy = default_strategy;
    failures = [];
    current_backoff = seconds 1;
    state = starting;
  }

  track :
      AgentConfig
      → Addr
      → Result AgentError (Unit {0})
      → Supervisor
      → Supervisor × Result AgentError Addr
  track config addr (err e) s = (s, err e)
  track config addr (ok u) s =
      (record s { agents = insert config.id.name (fresh config addr) s.agents }, ok addr)

  -- The address is that of the actor that is started. What the new actor is given (network, registry,
  -- verifier, packager, seed) and the vocabulary of its bundle are left out.
  pub spawn_agent :
      (AgentConfig → Result AgentError (Unit {0}))
      → Addr
      → AgentConfig
      → Supervisor
      → Supervisor × Result AgentError Addr
  unfolding track
  spawn_agent build addr config s =
      if contains_key config.id.name s.agents
      then (s, err (invalid_state ("Agent " <> config.id.name <> " already exists")))
      else track config addr (build config) s

  abbrev entry_failed : ℕ → SupervisedAgent → SupervisedAgent
  entry_failed now a = record a { failures = a.failures ++ now ∷ []; state = failed }

  -- The failures that `MaxFailures` still counts: those after `now - window`.
  forget : RestartStrategy → ℕ → SupervisedAgent → SupervisedAgent
  forget (max_failures count window) now a = record a {
    failures = filter (λ (t : ℕ). ltb now (t + window)) a.failures;
  }
  forget strategy now a = a

  should_restart : RestartStrategy → SupervisedAgent → Bool
  should_restart immediate a = true
  should_restart (backoff initial max multiplier) a = true
  should_restart (max_failures count window) a = ltb (length a.failures) count
  should_restart never a = false

  delay : RestartStrategy → SupervisedAgent → ℕ
  delay immediate a = 0
  delay (backoff initial max multiplier) a = a.current_backoff
  delay strategy a = seconds 1

  back_off : RestartStrategy → SupervisedAgent → SupervisedAgent
  back_off (backoff initial max multiplier) a = record a {
    current_backoff = grow a.current_backoff multiplier max;
  }
  back_off strategy a = a

  -- `handle_failure`, by the entry found.
  fail : ℕ → AgentId → Option SupervisedAgent → Supervisor → Supervisor
  unfolding forget should_restart delay back_off
  fail now agent_id none s = s
  fail now agent_id (some a) s =
      let b = forget a.strategy now (entry_failed now a) in
      if should_restart b.strategy b
      then record s {
        agents = insert agent_id.name (back_off b.strategy b) s.agents;
        tasks = s.tasks ++ restart_later (delay b.strategy b) agent_id ∷ [];
      }
      else record s { agents = insert agent_id.name b s.agents }

  pub handle_failure : ℕ → AgentId → Supervisor → Supervisor
  unfolding fail
  handle_failure now agent_id s = fail now agent_id (get agent_id.name s.agents) s

  -- The closure that `run_later` calls, by the entry found.
  respawn :
      (AgentConfig → Result AgentError (Unit {0}))
      → Addr
      → AgentId
      → Option SupervisedAgent
      → Supervisor
      → Supervisor
  unfolding spawn_agent
  respawn build addr agent_id none s = s
  respawn build addr agent_id (some a) s =
      (spawn_agent build addr a.config (record s { agents = remove agent_id.name s.agents })).0

  pub restart :
      (AgentConfig → Result AgentError (Unit {0})) → Addr → AgentId → Supervisor → Supervisor
  unfolding respawn
  restart build addr agent_id s = respawn build addr agent_id (get agent_id.name s.agents) s

  stop_by :
      AgentId
      → ShutdownReason
      → Option SupervisedAgent
      → Supervisor
      → Supervisor × Result AgentError (Unit {0})
  stop_by agent_id reason none s = (s, err (not_found agent_id.name))
  stop_by agent_id reason (some a) s = (
    record s {
      agents = remove agent_id.name s.agents;
      tasks = s.tasks ++ shutdown a.addr reason ∷ [];
    },
    ok tt,
  )

  pub stop_agent : AgentId → ShutdownReason → Supervisor → Supervisor × Result AgentError (Unit {0})
  unfolding stop_by
  stop_agent agent_id reason s = stop_by agent_id reason (get agent_id.name s.agents) s

  abbrev reset_backoff : RestartStrategy → SupervisedAgent → SupervisedAgent
  reset_backoff (backoff initial max multiplier) a = record a { current_backoff = initial }
  reset_backoff strategy a = a

  -- An event that changes an entry, by the entry found.
  note :
      AgentId
      → (SupervisedAgent → SupervisedAgent)
      → Option SupervisedAgent
      → Supervisor
      → Supervisor
  note agent_id change none s = s
  note agent_id change (some a) s = record s { agents = insert agent_id.name (change a) s.agents }

  -- `Handler<SupervisionEvent>`
  pub handle_event : ℕ → AgentId → SupervisionEventType → Supervisor → Supervisor
  unfolding note handle_failure
  handle_event now agent_id event_started s =
      note agent_id (λ a. reset_backoff a.strategy (record a { state = running }))
        (get agent_id.name s.agents) s
  handle_event now agent_id event_stopped s =
      note agent_id (λ a. record a { state = stopped }) (get agent_id.name s.agents) s
  handle_event now agent_id (event_failed e true) s = handle_failure now agent_id s
  handle_event now agent_id (event_failed e false) s = s
  handle_event now agent_id (event_migrated from to) s = record s {
    agents = remove agent_id.name s.agents;
  }
  handle_event now agent_id event_recovered s =
      note agent_id (λ a. record a { state = running }) (get agent_id.name s.agents) s

  pub record AgentInfo : Type 0 where
    pub agent_id : AgentId
    pub state : AgentRuntimeState
    pub restart_count : ℕ
    pub last_error : Option String

  abbrev list_agents : HashOrder → Supervisor → List AgentInfo
  list_agents h s =
      map
        (λ (a : SupervisedAgent). record {
          agent_id = a.config.id;
          state = a.state;
          restart_count = length a.failures % 2 ^ 32;
          last_error = none;
        })
        (values h s.agents)
