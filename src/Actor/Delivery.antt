-- ===== src/Actor/Delivery.antt =====
-- How an actor takes the messages of its mailbox: `process_mailbox` and what it calls.
pub mod Frame
pub mod Conversations
pub mod Boundary
use fipa_wasm.Base.{
  Bool, ℕ, zero, suc, String, List, [], ◌∷◌, ◌++◌, map, Option, none, some, ◌<>◌, length,
}
use fipa_wasm.Base.Int.{ℤ}
use fipa_wasm.Base.Dict.{get, insert}
use fipa_wasm.Base.Result.{Result, ok, err}
use fipa_wasm.Acl.{AgentId, AclMessage, as_i32, not_understood}
use fipa_wasm.Acl.Capabilities.{protocol_debug_name}
use fipa_wasm.Protocol.{
  ProtocolError, invalid_transition, validation_failed, not_supported, missing_conversation_id,
  unknown_conversation, timeout, cancelled, serialization_error, ProcessResult, continue, respond,
  complete, to_list,
}
use fipa_wasm.Protocol.Machine.{try}
use fipa_wasm.Protocol.Factory.{Boxed}
use fipa_wasm.Actor.{
  AgentError, runtime_error, protocol_error, Addr, deliver_message, send_remote_message, Decoded,
  OutboundIntent, Verifier, Packager, Runtime, AgentStats, next_u64, AgentActor,
}

-- The `Display` of a `ProtocolError`, which `to_string` prints.
abbrev pub to_string : ProtocolError → String
unfolding protocol_debug_name
to_string (invalid_transition from to) = "Invalid state transition from " <> from <> " to " <> to
to_string (validation_failed s) = "Message validation failed: " <> s
to_string (not_supported p) = "Protocol not supported: " <> protocol_debug_name p
to_string missing_conversation_id = "Missing conversation ID"
to_string (unknown_conversation s) = "Unknown conversation: " <> s
to_string timeout = "Timeout waiting for response"
to_string cancelled = "Protocol cancelled"
to_string (serialization_error s) = "Serialization error: " <> s

-- `From<ProtocolError> for AgentError`, by which `?` converts.
abbrev pub from_protocol {ℓ} : {A : Type ℓ} → Result ProtocolError A → Result AgentError A
from_protocol (ok x) = ok x
from_protocol (err e) = err (protocol_error (to_string e))

-- `map_err(|e| AgentError::RuntimeError(e.to_string()))`
abbrev pub from_runtime {ℓ} : {A : Type ℓ} → Result String A → Result AgentError A
from_runtime (ok x) = ok x
from_runtime (err e) = err (runtime_error e)

-- What the handling of one message reads from outside: the clock, and a UUID that it may draw.
pub record Ambient : Type 0 where
  pub now : ℤ
  pub uuid : String

-- `verify::not_understood`
abbrev pub rejection : String → AclMessage → String → AclMessage
unfolding as_i32
rejection uuid msg from = record {
  message_id = "nu-" <> uuid;
  performative = as_i32 not_understood;
  sender = some (record { name = from; addresses = []; resolvers = [] });
  receivers = to_list msg.sender;
  reply_to = none;
  protocol = msg.protocol;
  conversation_id = msg.conversation_id;
  in_reply_to = msg.reply_with;
  reply_with = none;
  reply_by = none;
  language = none;
  encoding = none;
  ontology = none;
  content = [];
  user_properties = [];
}

-- Without a verifier a message takes the raw path, as one that the verifier does not decode.
abbrev pub sanitized : Option Verifier → AclMessage → Result String (Option Decoded)
sanitized none msg = ok none
sanitized (some verifier) msg = verifier msg

module _ (w : Runtime) where
  open w use {call_config, handle_message, take_unl_sends}

  abbrev Actor : Type 1
  Actor = AgentActor w

  abbrev count_sent : AgentStats → AgentStats
  count_sent s = record s { messages_sent = next_u64 s.messages_sent }

  abbrev pub count_error : Actor → Actor
  count_error a = record a { stats = record a.stats { errors = next_u64 a.stats.errors } }

  -- The two branches of `send_message`: the supervisor, else the network once for each receiver.
  send_by : Option Addr → Option Addr → AclMessage → Actor → Actor
  send_by (some supervisor) network msg a = record a {
    requests = a.requests ++ deliver_message supervisor msg ∷ [];
    stats = count_sent a.stats;
  }
  send_by none (some network) msg a = record a {
    requests =
        a.requests
        ++ map (λ (receiver : AgentId). send_remote_message network "" msg) msg.receivers;
    stats = count_sent a.stats;
  }
  send_by none none msg a = a

  pub send_message : AclMessage → Actor → Actor × Result AgentError (Unit {0})
  unfolding send_by
  send_message msg a = (send_by a.supervisor a.network msg a, ok tt)

  -- One round of the loop of `flush_outbound`, by what `package` answers.
  send_packaged : Result String AclMessage → Actor → Actor
  unfolding send_message
  send_packaged (ok msg) a = (send_message msg a).0
  send_packaged (err reason) a = a

  send_intents : Packager → List OutboundIntent → Actor → Actor
  unfolding send_packaged
  send_intents packager [] a = a
  send_intents packager (i ∷ is) a =
      send_intents packager is (send_packaged (packager a.agent_id.name i.receiver i.unl i.body) a)

  flush_by : Option Packager → Actor → Actor
  unfolding send_intents
  flush_by none a = a
  flush_by (some packager) a =
      let r = take_unl_sends a.runtime in send_intents packager r.1 (record a { runtime = r.0 })

  pub flush_outbound : Actor → Actor
  unfolding flush_by
  flush_outbound a = flush_by a.outbound a

  pub handle_protocol_result : ProcessResult → Actor → Actor × Result AgentError (Unit {0})
  unfolding send_message
  handle_protocol_result continue a = (a, ok tt)
  handle_protocol_result (respond response) a = send_message response a
  handle_protocol_result (complete data_) a = (
    record a {
      stats = record a.stats { conversations_completed = next_u64 a.stats.conversations_completed };
    },
    ok tt,
  )
  handle_protocol_result (ProcessResult.failed error) a = (count_error a, ok tt)

  -- A message of a conversation that the actor holds.
  converse : ℤ → AclMessage → String → Boxed → Actor → Actor × Result AgentError (Unit {0})
  unfolding handle_protocol_result
  converse now msg id c a =
      let r = c.machine.process c.object now msg in
      let b = record a {
        conversations = insert id (record { machine = c.machine; object = r.0 }) a.conversations;
      } in
      try b (from_protocol r.1) λ result. handle_protocol_result result b

  -- Any other message goes to the WASM module.
  raw_answer : Result String Bool → Actor → Actor × Result AgentError (Unit {0})
  raw_answer r a = try a (from_runtime r) λ handled. (a, ok tt)

  deliver_raw : AclMessage → Actor → Actor × Result AgentError (Unit {0})
  unfolding raw_answer
  deliver_raw msg a =
      let r = handle_message a.runtime msg in raw_answer r.1 (record a { runtime = r.0 })

  -- By what `conversations.get_mut` finds.
  route_to : ℤ → AclMessage → String → Option Boxed → Actor → Actor × Result AgentError (Unit {0})
  unfolding converse deliver_raw
  route_to now msg id none a = deliver_raw msg a
  route_to now msg id (some c) a = converse now msg id c a

  route : ℤ → AclMessage → Option String → Actor → Actor × Result AgentError (Unit {0})
  unfolding route_to deliver_raw
  route now msg none a = deliver_raw msg a
  route now msg (some id) a = route_to now msg id (get id a.conversations) a

  -- `call_config` with decoded content; an error is only counted.
  configured : Result String (Unit {0}) → Actor → Actor
  configured (ok u) a = a
  configured (err e) a = count_error a

  pub configure : Decoded → Actor → Actor
  unfolding configured
  configure d a =
      let r = call_config a.runtime d.unl d.body in configured r.1 (record a { runtime = r.0 })

  -- What follows `sanitize`.
  admit :
      Ambient
      → AclMessage
      → Result String (Option Decoded)
      → Actor
      → Actor × Result AgentError (Unit {0})
  unfolding send_message configure flush_outbound route
  admit x msg (err reason) a = send_message (rejection x.uuid msg a.agent_id.name) a
  admit x msg (ok (some decoded)) a = (flush_outbound (configure decoded a), ok tt)
  admit x msg (ok none) a = route x.now msg msg.conversation_id a

  pub handle_acl_message : Ambient → AclMessage → Actor → Actor × Result AgentError (Unit {0})
  unfolding admit
  handle_acl_message x msg a = admit x msg (sanitized a.verifier msg) (record a {
    stats = record a.stats { messages_received = next_u64 a.stats.messages_received };
  })

  absorb : Actor × Result AgentError (Unit {0}) → Actor
  absorb (a, ok u) = a
  absorb (a, err e) = count_error a

  -- One round of the loop of `process_mailbox`, by the queue.
  take_next : Ambient → List AclMessage → Actor → Actor
  unfolding handle_acl_message absorb
  take_next x [] a = a
  take_next x (msg ∷ rest) a = absorb (handle_acl_message x msg (record a { mailbox = rest }))

  unfoldable pub process_next : Ambient → Actor → Actor
  unfolding take_next
  process_next x a = take_next x a.mailbox a

  -- The loop, by the number of rounds, which also numbers the readings of the surroundings.
  unfoldable pub rounds : (ℕ → Ambient) → ℕ → Actor → Actor
  unfolding process_next
  rounds x zero a = a
  rounds x (suc n) a = rounds x n (process_next (x n) a)

  unfoldable pub process_mailbox : (ℕ → Ambient) → Actor → Actor
  unfolding rounds
  process_mailbox x a = rounds x (length a.mailbox) a
