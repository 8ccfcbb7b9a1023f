-- ===== src/Protocol/Propose.antt =====
-- crates/fipa-wasm-agents/src/protocol/propose.rs
pub mod Laws
pub mod Trace
use fipa_wasm.Base.{ℕ, String, List, [], ◌∷◌, Option, none, some, Bool, true, false, codes}
use fipa_wasm.Base.Int.{ℤ}
use fipa_wasm.Base.Result.{Result, ok, ◌>>=◌}
use fipa_wasm.Acl.{
  AclMessage, Performative, accept_proposal, cancel, propose, reject_proposal, protocol_propose,
}
use fipa_wasm.Protocol.{
  ProtocolError, ProcessResult, continue, complete, completion, ConversationBase, Role, new_base,
  add_sender, record_message, read_performative, no_transition,
}
use fipa_wasm.Protocol.Machine.{StateMachine, try}

pub data ProposeState : Type 0 where
  not_started proposed accepted rejected cancelled : ProposeState

unfoldable pub as_str : ProposeState → String
as_str not_started = "not_started"
as_str proposed = "proposed"
as_str accepted = "accepted"
as_str rejected = "rejected"
as_str cancelled = "cancelled"

pub record ProposeProtocol : Type 0 where
  pub state : ProposeState
  pub base : ConversationBase
  pub proposal_content : Option (List ℕ)
  pub response_content : Option (List ℕ)

unfoldable pub new : String → ℤ → Role → ProposeProtocol
new uuid now role = record {
  state = not_started;
  base = new_base uuid role now;
  proposal_content = none;
  response_content = none;
}

abbrev with_conversation_id : String → ProposeProtocol → ProposeProtocol
with_conversation_id id p = record p { base = record p.base { conversation_id = id } }

abbrev with_deadline : ℤ → ProposeProtocol → ProposeProtocol
with_deadline deadline p = record p { base = record p.base { deadline = some deadline } }

-- The table of `validate_transition`.
transition : ProposeState → Performative → Result ProtocolError ProposeState
transition not_started propose = ok proposed
transition proposed accept_proposal = ok accepted
transition proposed reject_proposal = ok rejected
transition _ cancel = ok cancelled
transition state perf = no_transition (as_str state) perf

-- `self.validate_transition(performative)`
validate_transition : ProposeProtocol → Performative → Result ProtocolError ProposeState
unfolding transition
validate_transition p perf = transition p.state perf

unfoldable pub validate : ProposeProtocol → AclMessage → Result ProtocolError (Unit {0})
unfolding validate_transition read_performative
validate p msg = do perf ← read_performative msg; new_state ← validate_transition p perf; ok tt

-- `match &new_state`: what the message leaves in the conversation.
store : ProposeState → AclMessage → ProposeProtocol → ProposeProtocol
store proposed msg p = record p {
  proposal_content = some msg.content;
  base = add_sender msg.sender p.base;
}
store accepted msg p = record p { response_content = some msg.content }
store rejected msg p = record p { response_content = some msg.content }
store new_state msg p = p

-- The final `match &self.state`.
outcome : ProposeProtocol → ProposeState → ProcessResult
outcome p proposed = continue
outcome p accepted = complete (completion p.response_content)
outcome p rejected = ProcessResult.failed "Proposal rejected"
outcome p cancelled = ProcessResult.failed "Protocol cancelled"
outcome p state = continue

-- `process` after the transition was found.
advance :
    AclMessage
    → ProposeState
    → ProposeProtocol
    → ProposeProtocol × Result ProtocolError ProcessResult
unfolding store outcome
advance msg new_state p =
    let q = store new_state msg (record p { base = record_message msg p.base }) in
    let r = record q { state = new_state } in (r, ok (outcome r r.state))

unfoldable pub process :
    ProposeProtocol → ℤ → AclMessage → ProposeProtocol × Result ProtocolError ProcessResult
unfolding read_performative validate_transition advance
process p now msg =
    try p (read_performative msg)
      λ perf. try p (validate_transition p perf) λ new_state. advance msg new_state p

terminal : ProposeState → Bool
terminal accepted = true
terminal rejected = true
terminal cancelled = true
terminal state = false

unfoldable pub is_complete : ProposeProtocol → Bool
unfolding terminal
is_complete p = terminal p.state

unsuccessful : ProposeState → Bool
unsuccessful rejected = true
unsuccessful cancelled = true
unsuccessful state = false

unfoldable pub is_failed : ProposeProtocol → Bool
unfolding unsuccessful
is_failed p = unsuccessful p.state

expected : ProposeState → List Performative
expected not_started = propose ∷ []
expected proposed = accept_proposal ∷ reject_proposal ∷ cancel ∷ []
expected state = []

unfoldable pub expected_performatives : ProposeProtocol → List Performative
unfolding expected
expected_performatives p = expected p.state

abbrev pub serialize_state : ProposeProtocol → Result ProtocolError (List ℕ)
unfolding as_str
serialize_state p = ok (codes (as_str p.state))

-- The `impl ProtocolStateMachine`.
abbrev pub propose_machine : StateMachine
propose_machine = record {
  Self = ProposeProtocol;
  protocol_type = λ p. protocol_propose;
  state_name = λ p. as_str p.state;
  validate = validate;
  process = process;
  is_complete = is_complete;
  is_failed = is_failed;
  expected_performatives = expected_performatives;
  serialize_state = serialize_state;
  message_history = λ p. p.base.messages;
}
