-- ===== src/Actor/Examples.antt =====
-- An agent that holds one conversation, by a WASM module that does nothing.
use mathlib.Core.Option
use fipa_wasm.Base.{
  ◌*◌, ℕ, String, ◌≡◌, refl, List, [], ◌∷◌, Option, none, some, true, codes, arith,
}
use fipa_wasm.Base.Dict.{get, insert, insertion_order}
use fipa_wasm.Base.Result.{Result, ok, err}
use fipa_wasm.Acl.{AgentId, AclMessage, protocol_request, try_from}
use fipa_wasm.Acl.Capabilities.{AgentCapabilities}
use fipa_wasm.Protocol.{participant}
use fipa_wasm.Protocol.Request
use fipa_wasm.Protocol.Request.{request_machine}
use fipa_wasm.Protocol.Machine.Laws.{IsLawful}
use fipa_wasm.Protocol.Machine.Conversation.{Arrivals, accepted}
use fipa_wasm.Protocol.Factory.{Boxed, create_state_machine}
use fipa_wasm.Base.Int.{ℤ, pos}
use fipa_wasm.Actor.{AgentError, running, Runtime, AgentActor, Verifier, new}
use fipa_wasm.Actor.Delivery.{Ambient, process_mailbox, rounds, process_next}
use fipa_wasm.Actor.Delivery.Conversations.{hold, process_mailbox-empties}
use fipa_wasm.Actor.Delivery.Boundary.{IsIsolated, rejected-IsIsolated}
use fipa_wasm.Actor.{not_found}
use fipa_wasm.Actor.Registry
use fipa_wasm.Actor.Registry.{
  Update, update_remote_registry, update_service_registry, to_agent, lookup_actor, resolve_agent,
  find_agents,
}
use fipa_wasm.Actor.Supervisor
use fipa_wasm.Actor.Supervisor.{Numbers, AgentConfig, stop_agent, restart, requested}
use fipa_wasm.Actor.Supervisor.Restarts.{Cycle, steady}
use fipa_wasm.Actor.Registry.Log.{serve, serve-answers}
use fipa_wasm.Actor.Lifecycle.{started, tick, deliver, start_conversation}
use fipa_wasm.Actor.Lifecycle.Deliveries.{delivered, live-conversations}
use fipa_wasm.Actor.Lifecycle.Talks.{
  Event, delivery, passing, start, perform, live, all_taken, started_conversation-history,
}

abbrev alice : AgentId
alice = record { name = "alice"; addresses = []; resolvers = [] }

abbrev now : ℤ
now = pos 7

abbrev idle : Runtime
idle = record {
  Self = Unit {0};
  call_init = λ s. (s, ok tt);
  call_config = λ s unl body. (s, ok tt);
  call_run = λ s. (s, ok true);
  call_shutdown = λ s. (s, ok tt);
  handle_message = λ s msg. (s, ok true);
  take_unl_sends = λ s. (s, []);
  memory_size = λ s. (s, 0);
}

abbrev capabilities : AgentCapabilities
capabilities = record {
  max_memory_bytes = 0;
  max_execution_time_ms = 0;
  allowed_protocols = [];
  network_access = pos 0;
  storage_quota_bytes = 0;
  migration_allowed = true;
  spawn_allowed = true;
  allowed_destinations = [];
}

abbrev agent : AgentActor idle
unfolding new started
agent = started idle (new idle alice capabilities tt now)

-- A message with a performative and a conversation.
abbrev message : ℕ → Option String → AclMessage
message perf conversation = record {
  message_id = "m1";
  performative = pos perf;
  sender = some alice;
  receivers = [];
  reply_to = none;
  protocol = none;
  conversation_id = conversation;
  in_reply_to = none;
  reply_with = none;
  reply_by = none;
  language = none;
  encoding = none;
  ontology = none;
  content = codes "ok";
  user_properties = [];
}

-- A request and an agreement.
abbrev asks : AclMessage
asks = message 21 (some "c1")

abbrev agrees : AclMessage
agrees = message 2 (some "c1")

abbrev clock : ℕ → Ambient
clock n = record { now = now; uuid = "u" }

abbrev day : List Event
day =
    delivery asks
    ∷ passing clock
    ∷ delivery (message 21 none)
    ∷ delivery agrees
    ∷ passing clock
    ∷ []

abbrev asked : Boxed
asked = record { machine = request_machine; object = Request.new "u" now participant }

abbrev opened : AgentActor idle
opened = perform insertion_order idle agent (start "c1" "u" now protocol_request)

abbrev heard : Arrivals
heard = all_taken insertion_order idle "c1" opened day

heard_both : heard ≡ (now, asks) ∷ (now, agrees) ∷ []
unfolding new started start_conversation create_state_machine insert deliver tick process_mailbox
    rounds process_next get Request.process try_from Request.new
heard_both = refl

started_conversation-history_example :
    (get "c1" (live insertion_order idle opened day).conversations ≡ some (hold heard asked))
    × IsLawful request_machine
    × (request_machine.message_history (hold heard asked).object
        ≡ accepted request_machine asked.object heard)
unfolding create_state_machine
started_conversation-history_example =
    started_conversation-history insertion_order idle "c1" "u" now protocol_request asked day agent
      refl tt

live-conversations_example :
    get "c1" (live insertion_order idle opened day).conversations
    ≡ Option.map
        (hold (delivered insertion_order idle "c1" opened [] day))
        (get "c1" opened.conversations)
unfolding new started start_conversation create_state_machine insert
live-conversations_example = live-conversations insertion_order idle "c1" day opened tt

abbrev busy : AgentActor idle
busy = record agent { mailbox = asks ∷ agrees ∷ [] }

process_mailbox-empties_example :
    ((process_mailbox idle clock busy).mailbox ≡ [])
    × ((process_mailbox idle clock busy).stats.messages_received ≡ 2)
unfolding new started
process_mailbox-empties_example = process_mailbox-empties idle clock busy (omega arith)

abbrev strict : Verifier
strict msg = err "no"

abbrev guarded : AgentActor idle
guarded = record agent { supervisor = some 5; verifier = some strict; mailbox = asks ∷ agrees ∷ [] }

rejected-IsIsolated_example :
    IsIsolated idle 5 (asks ∷ agrees ∷ []) guarded (process_mailbox idle clock guarded)
unfolding new started
rejected-IsIsolated_example =
    rejected-IsIsolated idle clock guarded 5 strict refl refl (("no", refl), (("no", refl), tt))

abbrev named : AclMessage
named = record asks { protocol = some (pos 1) }

-- An agent that came, offered a service, and went; and one that is elsewhere.
abbrev log : List Update
log =
    Registry.deregister_actor alice
    ∷ update_remote_registry (to_agent "bob") "node-2" true
    ∷ update_service_registry "print" "alice" true
    ∷ Registry.register_actor alice 9
    ∷ []

serve-answers_example :
    (lookup_actor alice (serve "node-1" log) ≡ none)
    × (resolve_agent alice (serve "node-1" log) ≡ err (not_found "alice"))
    × (find_agents "print" (serve "node-1" log) ≡ ok (to_agent "alice" ∷ []))
serve-answers_example = serve-answers "node-1" "print" alice log

abbrev units : Numbers
units = record {
  F64 = ℕ;
  two = 2;
  grow = λ current multiplier max. current * multiplier;
  AgentState = Unit {0};
}

abbrev build : AgentConfig units → Result AgentError (Unit {0})
build c = ok tt

-- An agent that asks never to be restarted.
abbrev config : AgentConfig units
config = record {
  id = alice;
  wasm_module = [];
  capabilities = capabilities;
  initial_state = none;
  restart_strategy = Supervisor.never;
}

abbrev supervisor : Supervisor.Supervisor units
supervisor = record { agents = ("alice", steady units build config 9 running) ∷ []; tasks = [] }

abbrev twice : List Cycle
twice =
    record { failed_at = 1; addr = 10; started_at = none }
    ∷ record { failed_at = 3; addr = 11; started_at = some 4 }
    ∷ []
