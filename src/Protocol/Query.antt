-- ===== src/Protocol/Query.antt =====
-- crates/fipa-wasm-agents/src/protocol/query.rs
pub mod Laws
pub mod Trace
use fipa_wasm.Base.{ℕ, String, List, [], ◌∷◌, Option, none, some, Bool, true, false, codes}
use fipa_wasm.Base.Int.{ℤ}
use fipa_wasm.Base.Result.{Result, ok, ◌>>=◌}
use fipa_wasm.Acl.{
  AclMessage, Performative, agree, failure, inform_if, inform_ref, inform_result, query_if,
  query_ref, refuse, protocol_query,
}
use fipa_wasm.Protocol.{
  ProtocolError, ProcessResult, continue, complete, completion, ConversationBase, Role, new_base,
  record_message, read_performative, no_transition,
}
use fipa_wasm.Protocol.Machine.{StateMachine, try}

pub data QueryState : Type 0 where
  not_started queried agreed completed failed refused : QueryState

unfoldable pub as_str : QueryState → String
as_str not_started = "not_started"
as_str queried = "queried"
as_str agreed = "agreed"
as_str completed = "completed"
as_str failed = "failed"
as_str refused = "refused"

pub data QueryType : Type 0 where
  if_type ref_type : QueryType

pub record QueryProtocol : Type 0 where
  pub state : QueryState
  pub base : ConversationBase
  pub query_type : Option QueryType
  pub query_content : Option (List ℕ)
  pub result : Option (List ℕ)

unfoldable pub new : String → ℤ → Role → QueryProtocol
new uuid now role = record {
  state = not_started;
  base = new_base uuid role now;
  query_type = none;
  query_content = none;
  result = none;
}

-- The table of `validate_transition`.
transition : QueryState → Performative → Result ProtocolError QueryState
transition not_started query_if = ok queried
transition not_started query_ref = ok queried
transition queried agree = ok agreed
transition queried refuse = ok refused
transition agreed inform_if = ok completed
transition agreed inform_ref = ok completed
transition agreed inform_result = ok completed
transition agreed failure = ok failed
transition state perf = no_transition (as_str state) perf

-- `self.validate_transition(performative)`
validate_transition : QueryProtocol → Performative → Result ProtocolError QueryState
unfolding transition
validate_transition p perf = transition p.state perf

unfoldable pub validate : QueryProtocol → AclMessage → Result ProtocolError (Unit {0})
unfolding validate_transition read_performative
validate p msg = do perf ← read_performative msg; new_state ← validate_transition p perf; ok tt

-- `match performative`: what the message leaves in the conversation.
store : Performative → AclMessage → QueryProtocol → QueryProtocol
store query_if msg p = record p { query_type = some if_type; query_content = some msg.content }
store query_ref msg p = record p { query_type = some ref_type; query_content = some msg.content }
store inform_if msg p = record p { result = some msg.content }
store inform_ref msg p = record p { result = some msg.content }
store inform_result msg p = record p { result = some msg.content }
store perf msg p = p

-- The final `match &self.state`.
outcome : QueryProtocol → QueryState → ProcessResult
outcome p completed = complete (completion p.result)
outcome p failed = ProcessResult.failed "Query failed"
outcome p refused = ProcessResult.failed "Query failed"
outcome p state = continue

-- `process` after the transition was found.
advance :
    AclMessage
    → Performative
    → QueryState
    → QueryProtocol
    → QueryProtocol × Result ProtocolError ProcessResult
unfolding store outcome
advance msg perf new_state p =
    let q = store perf msg (record p { base = record_message msg p.base }) in
    let r = record q { state = new_state } in (r, ok (outcome r r.state))

unfoldable pub process :
    QueryProtocol → ℤ → AclMessage → QueryProtocol × Result ProtocolError ProcessResult
unfolding read_performative validate_transition advance
process p now msg =
    try p (read_performative msg)
      λ perf. try p (validate_transition p perf) λ new_state. advance msg perf new_state p

terminal : QueryState → Bool
terminal completed = true
terminal failed = true
terminal refused = true
terminal state = false

unfoldable pub is_complete : QueryProtocol → Bool
unfolding terminal
is_complete p = terminal p.state

unsuccessful : QueryState → Bool
unsuccessful failed = true
unsuccessful refused = true
unsuccessful state = false

unfoldable pub is_failed : QueryProtocol → Bool
unfolding unsuccessful
is_failed p = unsuccessful p.state

expected : QueryState → List Performative
expected not_started = query_if ∷ query_ref ∷ []
expected queried = agree ∷ refuse ∷ []
expected agreed = inform_if ∷ inform_ref ∷ inform_result ∷ failure ∷ []
expected state = []

unfoldable pub expected_performatives : QueryProtocol → List Performative
unfolding expected
expected_performatives p = expected p.state

abbrev pub serialize_state : QueryProtocol → Result ProtocolError (List ℕ)
unfolding as_str
serialize_state p = ok (codes (as_str p.state))

-- The `impl ProtocolStateMachine`.
abbrev pub query_machine : StateMachine
query_machine = record {
  Self = QueryProtocol;
  protocol_type = λ p. protocol_query;
  state_name = λ p. as_str p.state;
  validate = validate;
  process = process;
  is_complete = is_complete;
  is_failed = is_failed;
  expected_performatives = expected_performatives;
  serialize_state = serialize_state;
  message_history = λ p. p.base.messages;
}
