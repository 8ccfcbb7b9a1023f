-- ===== src/Actor/Lifecycle.antt =====
-- The life of an actor: start, tick and stop, and the messages that it answers at once.
pub mod Talks
pub mod Deliveries
pub mod Gate
use fipa_wasm.Base.{
  ℕ, String, List, [], ◌∷◌, ◌++◌, Option, none, some, Bool, true, false, ◌&&◌, any, is_empty,
  length, if◌then◌else◌,
}
use fipa_wasm.Base.Int.{ℤ, eqb_ℤ}
use fipa_wasm.Base.Dict.{HashOrder, insert}
use fipa_wasm.Base.Result.{Result, ok, err}
use fipa_wasm.Acl.{AgentId, AclMessage, ProtocolType}
use fipa_wasm.Acl.Capabilities.{protocol_try_from}
use fipa_wasm.Protocol.{ProtocolError}
use fipa_wasm.Protocol.Factory.{Boxed, create_state_machine}
use fipa_wasm.Actor.{
  AgentError, protocol_not_allowed, invalid_state, AgentRuntimeState, running, stopping, stopped,
  failed, SupervisionEventType, event_started, event_stopped, event_failed, Addr, supervision_event,
  register_actor, deregister_actor, Request, stop, Runtime, AgentActor, next_u64,
}
use fipa_wasm.Actor.Delivery.{Ambient, to_string, process_mailbox, count_error}

-- The part of the capabilities check that names the protocol refused, if any.
abbrev pub refusal : List ℤ → Option ℤ → Option ProtocolType
refusal allowed none = none
refusal allowed (some number) =
    if any (λ (p : ℤ). eqb_ℤ p number) allowed then none else protocol_try_from number

abbrev pub is_running : AgentRuntimeState → Bool
is_running running = true
is_running state = false

pub record AgentStatus : Type 0 where
  pub agent_id : AgentId
  pub state : AgentRuntimeState
  pub active_conversations : ℕ
  pub messages_processed : ℕ
  pub uptime_secs : ℕ
  pub memory_used : ℕ

module _ (w : Runtime) where
  abbrev Actor : Type 1
  Actor = AgentActor w

  abbrev request : Request → Actor → Actor
  request q a = record a { requests = a.requests ++ q ∷ [] }

  notify : Option Addr → SupervisionEventType → Actor → Actor
  notify none event a = a
  notify (some supervisor) event a = request (supervision_event supervisor a.agent_id event) a

  notify_supervisor : SupervisionEventType → Actor → Actor
  unfolding notify
  notify_supervisor event a = notify a.supervisor event a

  register : Option Addr → Actor → Actor
  register none a = a
  register (some registry) a = request (register_actor registry a.agent_id) a

  deregister : Option Addr → Actor → Actor
  deregister none a = a
  deregister (some registry) a = request (deregister_actor registry a.agent_id) a

  -- The startup seed; an error of `call_config` is only logged.
  seed : Actor → Actor
  seed a =
      if is_empty a.seed_unl && is_empty a.seed_data
      then a
      else record a { runtime = (w.call_config a.runtime a.seed_unl a.seed_data).0 }

  -- By what `call_init` answers.
  initialized : Result String (Unit {0}) → Actor → Actor
  unfolding seed notify_supervisor register
  initialized (ok u) a =
      let b = notify_supervisor event_started (seed (record a { state = running })) in
      register b.registry b
  initialized (err e) a =
      request stop (notify_supervisor (event_failed e true) (record a { state = failed }))

  unfoldable pub started : Actor → Actor
  unfolding initialized
  started a = let r = w.call_init a.runtime in initialized r.1 (record a { runtime = r.0 })

  -- By what `call_run` answers.
  run_answer : Result String Bool → Actor → Actor
  run_answer (ok true) a = a
  run_answer (ok false) a = request stop a
  run_answer (err e) a = count_error w a

  -- The closure that `run_interval` calls every 10 ms.
  unfoldable pub tick : (ℕ → Ambient) → Actor → Actor
  unfolding run_answer
  tick x a =
      if is_running a.state
      then (let b = process_mailbox w x a in
          let r = w.call_run b.runtime in run_answer r.1 (record b { runtime = r.0 }))
      else a

  abbrev stopping_hook : Actor → Actor
  unfolding deregister notify_supervisor
  stopping_hook a =
      let b = record a { state = stopping; runtime = (w.call_shutdown a.runtime).0 } in
      notify_supervisor event_stopped (deregister b.registry b)

  abbrev stopped_hook : Actor → Actor
  stopped_hook a = record a { state = stopped }

  -- By the protocol that the check refuses.
  queue : Option ProtocolType → AclMessage → Actor → Actor × Result AgentError (Unit {0})
  queue none msg a = (record a { mailbox = a.mailbox ++ msg ∷ [] }, ok tt)
  queue (some protocol) msg a = (a, err (protocol_not_allowed protocol))

  -- `Handler<DeliverMessage>`
  unfoldable pub deliver : AclMessage → Actor → Actor × Result AgentError (Unit {0})
  unfolding queue
  deliver msg a = queue (refusal a.capabilities.allowed_protocols msg.protocol) msg a

  -- By what `create_state_machine` answers.
  keep : String → Result ProtocolError Boxed → Actor → Actor × Result AgentError String
  keep conv_id (err e) a = (a, err (invalid_state (to_string e)))
  keep conv_id (ok state_machine) a = (
    record a {
      conversations = insert conv_id state_machine a.conversations;
      stats = record a.stats { conversations_started = next_u64 a.stats.conversations_started };
    },
    ok conv_id,
  )

  -- `Handler<StartConversation>`. The identifier and the UUID of the machine are drawn apart; the
  -- participants of the request are not read.
  unfoldable pub start_conversation :
      HashOrder → String → String → ℤ → ProtocolType → Actor → Actor × Result AgentError String
  unfolding keep
  start_conversation h conv_id uuid now protocol a =
      keep conv_id (create_state_machine h uuid now protocol) a

  -- `Handler<Shutdown>`
  abbrev shutdown : Actor → Actor
  shutdown a = request stop a

  -- `Handler<GetStatus>`; the time since the start is an argument.
  abbrev get_status : ℕ → Actor → Actor × AgentStatus
  get_status elapsed_secs a =
      let r = w.memory_size a.runtime in
      (
        record a { runtime = r.0 },
        record {
          agent_id = a.agent_id;
          state = a.state;
          active_conversations = length a.conversations;
          messages_processed = a.stats.messages_received;
          uptime_secs = elapsed_secs;
          memory_used = r.1;
        },
      )
