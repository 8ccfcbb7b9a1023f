-- ===== src/Protocol/Request.antt =====
-- crates/fipa-wasm-agents/src/protocol/request.rs
pub mod Laws
pub mod Trace
use fipa_wasm.Base.{
  ℕ, String, ◌≡◌, List, [], ◌∷◌, ◌++◌, Option, none, some, Bool, true, false, codes,
}
use fipa_wasm.Base.Int.{ℤ}
use fipa_wasm.Base.Result.{Result, ok, err, ◌>>=◌}
use fipa_wasm.Acl.{
  AclMessage, Performative, ProtocolType, request, agree, refuse, inform_done, inform_result,
  failure, cancel, protocol_request,
}
use fipa_wasm.Protocol.{
  ProtocolError, ProcessResult, continue, complete, completion, ConversationBase, Role, new_base,
  add_sender, record_message, read_performative, no_transition,
}
use fipa_wasm.Protocol.Machine.{StateMachine, try}

pub data RequestState : Type 0 where
  not_started requested agreed executing completed failed refused cancelled : RequestState

unfoldable pub as_str : RequestState → String
as_str not_started = "not_started"
as_str requested = "requested"
as_str agreed = "agreed"
as_str executing = "executing"
as_str completed = "completed"
as_str failed = "failed"
as_str refused = "refused"
as_str cancelled = "cancelled"

pub record RequestProtocol : Type 0 where
  pub state : RequestState
  pub base : ConversationBase
  pub request_content : Option (List ℕ)
  pub result : Option (List ℕ)

unfoldable pub new : String → ℤ → Role → RequestProtocol
new uuid now role = record {
  state = not_started;
  base = new_base uuid role now;
  request_content = none;
  result = none;
}

abbrev with_conversation_id : String → RequestProtocol → RequestProtocol
with_conversation_id id p = record p { base = record p.base { conversation_id = id } }

abbrev with_deadline : ℤ → RequestProtocol → RequestProtocol
with_deadline deadline p = record p { base = record p.base { deadline = some deadline } }

-- The table of `validate_transition`.
transition : RequestState → Performative → Result ProtocolError RequestState
transition not_started request = ok requested
transition requested agree = ok agreed
transition requested refuse = ok refused
transition agreed inform_done = ok completed
transition agreed inform_result = ok completed
transition agreed failure = ok failed
transition _ cancel = ok cancelled
transition state perf = no_transition (as_str state) perf

-- `self.validate_transition(performative)`
validate_transition : RequestProtocol → Performative → Result ProtocolError RequestState
unfolding transition
validate_transition p perf = transition p.state perf

unfoldable pub validate : RequestProtocol → AclMessage → Result ProtocolError (Unit {0})
unfolding validate_transition read_performative
validate p msg = do perf ← read_performative msg; new_state ← validate_transition p perf; ok tt

-- `match &new_state`: what the message leaves in the conversation.
store : RequestState → AclMessage → RequestProtocol → RequestProtocol
store requested msg p = record p {
  request_content = some msg.content;
  base = add_sender msg.sender p.base;
}
store completed msg p = record p { result = some msg.content }
store failed msg p = record p { result = some msg.content }
store new_state msg p = p

-- The final `match (&self.base.role, &self.state)`; its first arm also answers `Continue`.
outcome : RequestProtocol → RequestState → ProcessResult
outcome p completed = complete (completion p.result)
outcome p failed = ProcessResult.failed "Request failed"
outcome p refused = ProcessResult.failed "Request refused"
outcome p cancelled = ProcessResult.failed "Request cancelled"
outcome p state = continue

-- `process` after the transition was found.
advance :
    AclMessage
    → RequestState
    → RequestProtocol
    → RequestProtocol × Result ProtocolError ProcessResult
unfolding store outcome
advance msg new_state p =
    let q = store new_state msg (record p { base = record_message msg p.base }) in
    let r = record q { state = new_state } in (r, ok (outcome r r.state))

unfoldable pub process :
    RequestProtocol → ℤ → AclMessage → RequestProtocol × Result ProtocolError ProcessResult
unfolding read_performative validate_transition advance
process p now msg =
    try p (read_performative msg)
      λ perf. try p (validate_transition p perf) λ new_state. advance msg new_state p

terminal : RequestState → Bool
terminal completed = true
terminal failed = true
terminal refused = true
terminal cancelled = true
terminal state = false

unfoldable pub is_complete : RequestProtocol → Bool
unfolding terminal
is_complete p = terminal p.state

unsuccessful : RequestState → Bool
unsuccessful failed = true
unsuccessful refused = true
unsuccessful cancelled = true
unsuccessful state = false

unfoldable pub is_failed : RequestProtocol → Bool
unfolding unsuccessful
is_failed p = unsuccessful p.state

expected : RequestState → List Performative
expected not_started = request ∷ []
expected requested = agree ∷ refuse ∷ cancel ∷ []
expected agreed = inform_done ∷ inform_result ∷ failure ∷ cancel ∷ []
expected state = []

unfoldable pub expected_performatives : RequestProtocol → List Performative
unfolding expected
expected_performatives p = expected p.state

abbrev pub serialize_state : RequestProtocol → Result ProtocolError (List ℕ)
unfolding as_str
serialize_state p = ok (codes (as_str p.state))

-- The `impl ProtocolStateMachine`.
abbrev pub request_machine : StateMachine
request_machine = record {
  Self = RequestProtocol;
  protocol_type = λ p. protocol_request;
  state_name = λ p. as_str p.state;
  validate = validate;
  process = process;
  is_complete = is_complete;
  is_failed = is_failed;
  expected_performatives = expected_performatives;
  serialize_state = serialize_state;
  message_history = λ p. p.base.messages;
}
