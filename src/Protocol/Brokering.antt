-- ===== src/Protocol/Brokering.antt =====
-- crates/fipa-wasm-agents/src/protocol/brokering.rs. The JSON of the results is made by serde_json,
-- here the argument `results_json`.
pub mod Consolidation
pub mod Laws
pub mod Results
use fipa_wasm.Base.{
  ℕ, String, List, [], ◌∷◌, ◌++◌, Option, none, some, Bool, true, false, codes, ◌=s=◌, is_empty,
  length, all, filter, if◌then◌else◌,
}
use fipa_wasm.Base.Int.{ℤ}
use fipa_wasm.Base.Result.{Result, ok, err, ◌>>=◌}
use fipa_wasm.Base.Dict.{Dict, HashOrder, values, insert}
use fipa_wasm.Acl.{
  AgentId, AclMessage, Performative, agree, cancel, failure, inform, inform_done, inform_result,
  proxy, refuse, request, protocol_brokering,
}
use fipa_wasm.Protocol.{
  ProtocolError, invalid_transition, ProcessResult, continue, complete, completion,
  ConversationBase, initiator, new_base, record_message, read_performative, no_transition,
}
use fipa_wasm.Protocol.Machine.{StateMachine, try}

pub data BrokeringState : Type 0 where
  not_started proxy_received forwarding waiting_responses consolidating completed failed cancelled :
      BrokeringState

unfoldable pub as_str : BrokeringState → String
as_str not_started = "not_started"
as_str proxy_received = "proxy_received"
as_str forwarding = "forwarding"
as_str waiting_responses = "waiting_responses"
as_str consolidating = "consolidating"
as_str completed = "completed"
as_str failed = "failed"
as_str cancelled = "cancelled"

pub data ProviderStatus : Type 0 where
  pending agreed refused completed failed : ProviderStatus

pub record ProviderInfo : Type 0 where
  pub agent_id : AgentId
  pub status : ProviderStatus
  pub response : Option (List ℕ)

pub record BrokeringProtocol : Type 0 where
  pub state : BrokeringState
  pub base : ConversationBase
  pub original_request : Option AclMessage
  pub initiator : Option AgentId
  pub providers : Dict ProviderInfo
  pub required_responses : Option ℕ
  pub results : List (List ℕ)
  pub service_name : Option String

-- `new_as_broker` and `new_as_initiator`, which build the same value.
unfoldable pub new_as_broker : String → ℤ → BrokeringProtocol
new_as_broker uuid now = record {
  state = not_started;
  base = new_base uuid initiator now;
  original_request = none;
  initiator = none;
  providers = [];
  required_responses = none;
  results = [];
  service_name = none;
}

abbrev with_required_responses : ℕ → BrokeringProtocol → BrokeringProtocol
with_required_responses count p = record p { required_responses = some count }

abbrev with_service_name : String → BrokeringProtocol → BrokeringProtocol
with_service_name name p = record p { service_name = some name }

abbrev with_conversation_id : String → BrokeringProtocol → BrokeringProtocol
with_conversation_id id p = record p { base = record p.base { conversation_id = id } }

unfoldable pub add_provider : AgentId → BrokeringProtocol → BrokeringProtocol
add_provider agent p = record p {
  providers =
      insert agent.name
        (record { agent_id = agent; status = ProviderStatus.pending; response = none }) p.providers;
}

-- `providers.get_mut(name)` and the two writes through it.
unfoldable pub update :
    String → ProviderStatus → Option (List ℕ) → Dict ProviderInfo → Dict ProviderInfo
update name status response [] = []
update name status response ((j, i) ∷ m) =
    if j =s= name
    then (j, record i { status = status; response = response }) ∷ m
    else (j, i) ∷ update name status response m

update_provider : String → ProviderStatus → Option (List ℕ) → BrokeringProtocol → BrokeringProtocol
update_provider name status response p = record p {
  providers = update name status response p.providers;
}

-- The table of `validate_transition`.
transition : BrokeringState → Performative → Result ProtocolError BrokeringState
transition not_started proxy = ok proxy_received
transition proxy_received request = ok forwarding
transition forwarding request = ok forwarding
transition forwarding agree = ok waiting_responses
transition waiting_responses agree = ok waiting_responses
transition forwarding refuse = ok waiting_responses
transition waiting_responses refuse = ok waiting_responses
transition waiting_responses inform_result = ok consolidating
transition waiting_responses inform_done = ok consolidating
transition waiting_responses failure = ok waiting_responses
transition consolidating inform = ok completed
transition _ failure = ok failed
transition _ cancel = ok cancelled
transition state perf = no_transition (as_str state) perf

-- `self.validate_transition(performative)`
validate_transition : BrokeringProtocol → Performative → Result ProtocolError BrokeringState
unfolding transition
validate_transition p perf = transition p.state perf

unfoldable pub validate : BrokeringProtocol → AclMessage → Result ProtocolError (Unit {0})
unfolding validate_transition read_performative
validate p msg = do perf ← read_performative msg; new_state ← validate_transition p perf; ok tt

-- `if let Some(sender) = &msg.sender { self.update_provider(&sender.name, ..) }`
update_sender :
    Option AgentId → ProviderStatus → Option (List ℕ) → BrokeringProtocol → BrokeringProtocol
unfolding update_provider
update_sender none status response p = p
update_sender (some sender) status response p = update_provider sender.name status response p

push_result : Option AgentId → List ℕ → BrokeringProtocol → BrokeringProtocol
push_result none content p = p
push_result (some sender) content p = record p { results = p.results ++ content ∷ [] }

-- `match performative`: what the message leaves in the conversation.
store : Performative → AclMessage → BrokeringProtocol → BrokeringProtocol
unfolding update_sender push_result
store proxy msg p = record p { original_request = some msg; initiator = msg.sender }
store inform_result msg p =
    push_result msg.sender msg.content
      (update_sender msg.sender ProviderStatus.completed (some msg.content) p)
store inform_done msg p =
    push_result msg.sender msg.content
      (update_sender msg.sender ProviderStatus.completed (some msg.content) p)
store agree msg p = update_sender msg.sender ProviderStatus.agreed none p
store refuse msg p = update_sender msg.sender ProviderStatus.refused none p
store failure msg p = update_sender msg.sender ProviderStatus.failed (some msg.content) p
store perf msg p = p

-- The final `match &self.state`.
outcome : (List (List ℕ) → List ℕ) → BrokeringProtocol → BrokeringState → ProcessResult
outcome results_json p completed = complete (completion (some (results_json p.results)))
outcome results_json p failed = ProcessResult.failed "Brokering failed"
outcome results_json p cancelled = ProcessResult.failed "Brokering cancelled"
outcome results_json p state = continue

-- `process` after the transition was found.
advance :
    (List (List ℕ) → List ℕ)
    → AclMessage
    → Performative
    → BrokeringState
    → BrokeringProtocol
    → BrokeringProtocol × Result ProtocolError ProcessResult
unfolding store outcome
advance results_json msg perf new_state p =
    let q = store perf msg (record p { base = record_message msg p.base }) in
    let r = record q { state = new_state } in (r, ok (outcome results_json r r.state))

unfoldable pub process :
    (List (List ℕ) → List ℕ)
    → BrokeringProtocol
    → ℤ
    → AclMessage
    → BrokeringProtocol × Result ProtocolError ProcessResult
unfolding read_performative validate_transition advance
process results_json p now msg = try p (read_performative msg) λ perf.
    try p (validate_transition p perf) λ new_state. advance results_json msg perf new_state p

terminal : BrokeringState → Bool
terminal completed = true
terminal failed = true
terminal cancelled = true
terminal state = false

unfoldable pub is_complete : BrokeringProtocol → Bool
unfolding terminal
is_complete p = terminal p.state

unsuccessful : BrokeringState → Bool
unsuccessful failed = true
unsuccessful cancelled = true
unsuccessful state = false

unfoldable pub is_failed : BrokeringProtocol → Bool
unfolding unsuccessful
is_failed p = unsuccessful p.state

expected : BrokeringState → List Performative
expected not_started = proxy ∷ []
expected proxy_received = request ∷ cancel ∷ []
expected forwarding = request ∷ agree ∷ refuse ∷ cancel ∷ []
expected waiting_responses = agree ∷ refuse ∷ inform_result ∷ inform_done ∷ failure ∷ cancel ∷ []
expected consolidating = inform ∷ cancel ∷ []
expected state = []

unfoldable pub expected_performatives : BrokeringProtocol → List Performative
unfolding expected
expected_performatives p = expected p.state

abbrev pub serialize_state : BrokeringProtocol → Result ProtocolError (List ℕ)
unfolding as_str
serialize_state p = ok (codes (as_str p.state))

-- The `impl ProtocolStateMachine`.
abbrev pub brokering_machine : (List (List ℕ) → List ℕ) → StateMachine
brokering_machine results_json = record {
  Self = BrokeringProtocol;
  protocol_type = λ p. protocol_brokering;
  state_name = λ p. as_str p.state;
  validate = validate;
  process = process results_json;
  is_complete = is_complete;
  is_failed = is_failed;
  expected_performatives = expected_performatives;
  serialize_state = serialize_state;
  message_history = λ p. p.base.messages;
}
