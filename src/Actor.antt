-- ===== src/Actor.antt =====
-- The agent actor of crates/fipa-wasm-agents/src/actor/agent_actor.rs and the messages that it answers
-- (actor/messages.rs, content/verify.rs). The WASM runtime, the content verifier and the outbound
-- packager are parameters. What the actor asks of other actors and of its context is kept, in order,
-- in the field `requests`, which the source does not have: `do_send` and `ctx.stop()` return nothing.
pub mod Delivery
pub mod Lifecycle
pub mod Registry
pub mod Supervisor
mod Examples
use fipa_wasm.Base.{ℕ, String, List, [], Option, none, some, ◌+◌, ◌%◌, ◌^◌, Bool, ◌<>◌}
use fipa_wasm.Base.Int.{ℤ}
use fipa_wasm.Base.Dict.{Dict}
use fipa_wasm.Base.Result.{Result}
use fipa_wasm.Acl.{AgentId, AclMessage, ProtocolType}
use fipa_wasm.Acl.Capabilities.{AgentCapabilities}
use fipa_wasm.Protocol.Factory.{Boxed}

pub data AgentError : Type 0 where
  not_found : String → AgentError
  protocol_not_allowed : ProtocolType → AgentError
  network_error migration_failed runtime_error capability_denied : String → AgentError
  timeout : AgentError
  invalid_state serialization_error : String → AgentError
  mailbox_error : AgentError
  protocol_error : String → AgentError

pub data AgentRuntimeState : Type 0 where
  starting running paused migrating stopping stopped failed : AgentRuntimeState

pub data SupervisionEventType : Type 0 where
  event_started event_stopped : SupervisionEventType
  event_failed : String → Bool → SupervisionEventType
  event_migrated : String → String → SupervisionEventType
  event_recovered : SupervisionEventType

-- `Addr<_>`: an actor's address, a number.
abbrev pub Addr : Type 0
Addr = ℕ

-- What the actor asks for: `do_send` to an address, and `ctx.stop()`.
pub data Request : Type 0 where
  deliver_message : Addr → AclMessage → Request
  send_remote_message : Addr → String → AclMessage → Request
  supervision_event : Addr → AgentId → SupervisionEventType → Request
  register_actor deregister_actor : Addr → AgentId → Request
  stop : Request

pub record Decoded : Type 0 where
  pub unl : List ℕ
  pub body : List ℕ

pub record OutboundIntent : Type 0 where
  pub receiver : String
  pub unl : List ℕ
  pub body : List ℕ

-- `ContentVerifier::sanitize`
abbrev pub Verifier : Type 0
Verifier = AclMessage → Result String (Option Decoded)

-- `OutboundPackager::package`
abbrev pub Packager : Type 0
Packager = String → String → List ℕ → List ℕ → Result String AclMessage

-- `WasmRuntime`, as far as the actor calls it. An error is the text that the actor logs or returns.
pub record Runtime : Type 1 where
  pub Self : Type 0
  pub call_init : Self → Self × Result String (Unit {0})
  pub call_config : Self → List ℕ → List ℕ → Self × Result String (Unit {0})
  pub call_run : Self → Self × Result String Bool
  pub call_shutdown : Self → Self × Result String (Unit {0})
  pub handle_message : Self → AclMessage → Self × Result String Bool
  pub take_unl_sends : Self → Self × List OutboundIntent
  pub memory_size : Self → Self × ℕ

pub record AgentStats : Type 0 where
  pub messages_received : ℕ
  pub messages_sent : ℕ
  pub conversations_started : ℕ
  pub conversations_completed : ℕ
  pub errors : ℕ

-- `+= 1` on a `u64`.
abbrev pub next_u64 : ℕ → ℕ
next_u64 n = (n + 1) % 2 ^ 64

module _ (w : Runtime) where
  pub record AgentActor : Type 1 where
    pub agent_id : AgentId
    pub runtime : w.Self
    pub conversations : Dict Boxed
    pub mailbox : List AclMessage
    pub capabilities : AgentCapabilities
    pub supervisor : Option Addr
    pub network : Option Addr
    pub registry : Option Addr
    pub verifier : Option Verifier
    pub outbound : Option Packager
    pub seed_unl : List ℕ
    pub seed_data : List ℕ
    pub state : AgentRuntimeState
    pub stats : AgentStats
    pub start_time : ℤ
    pub requests : List Request

  -- The arguments are the two fields of the configuration that it reads, the runtime and the clock.
  unfoldable pub new : AgentId → AgentCapabilities → w.Self → ℤ → AgentActor
  new id capabilities runtime now = record {
    agent_id = id;
    runtime = runtime;
    conversations = [];
    mailbox = [];
    capabilities = capabilities;
    supervisor = none;
    network = none;
    registry = none;
    verifier = none;
    outbound = none;
    seed_unl = [];
    seed_data = [];
    state = starting;
    stats = record {
      messages_received = 0;
      messages_sent = 0;
      conversations_started = 0;
      conversations_completed = 0;
      errors = 0;
    };
    start_time = now;
    requests = [];
  }

  abbrev with_supervisor : Addr → AgentActor → AgentActor
  with_supervisor supervisor a = record a { supervisor = some supervisor }

  abbrev with_network : Addr → AgentActor → AgentActor
  with_network network a = record a { network = some network }

  abbrev with_registry : Addr → AgentActor → AgentActor
  with_registry registry a = record a { registry = some registry }

  abbrev with_content_verifier : Verifier → AgentActor → AgentActor
  with_content_verifier verifier a = record a { verifier = some verifier }

  abbrev with_outbound_packager : Packager → AgentActor → AgentActor
  with_outbound_packager packager a = record a { outbound = some packager }

  abbrev with_seed : List ℕ → List ℕ → AgentActor → AgentActor
  with_seed unl data_ a = record a { seed_unl = unl; seed_data = data_ }
