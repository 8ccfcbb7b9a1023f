-- ===== src/Protocol/ContractNet.antt =====
-- crates/fipa-wasm-agents/src/protocol/contract_net.rs. The answer of a finished conversation takes the
-- first of `results.values()`, in the order that the map chooses.
pub mod Laws
pub mod Bids
use fipa_wasm.Base.{
  ℕ, String, List, [], ◌∷◌, ◌++◌, Option, none, some, Bool, true, false, codes, ◌=s=◌,
  if◌then◌else◌,
}
use fipa_wasm.Base.Int.{ℤ}
use fipa_wasm.Base.Result.{Result, ok, ◌>>=◌}
use fipa_wasm.Base.Dict.{Dict, HashOrder, values, insert}
use fipa_wasm.Acl.{
  AgentId, AclMessage, Performative, accept_proposal, cfp, failure, inform_done, inform_result,
  propose, refuse, reject_proposal, protocol_contract_net,
}
use fipa_wasm.Protocol.{
  ProtocolError, ProcessResult, continue, complete, completion, ConversationBase, Role, new_base,
  add_participant, record_message, read_performative, no_transition,
}
use fipa_wasm.Protocol.Machine.{StateMachine, try}

pub data ContractNetState : Type 0 where
  not_started cfp_sent proposals_received evaluating accepted rejected in_execution completed
        failed :
      ContractNetState

unfoldable pub as_str : ContractNetState → String
as_str not_started = "not_started"
as_str cfp_sent = "cfp_sent"
as_str proposals_received = "proposals_received"
as_str evaluating = "evaluating"
as_str accepted = "accepted"
as_str rejected = "rejected"
as_str in_execution = "in_execution"
as_str completed = "completed"
as_str failed = "failed"

pub record Proposal : Type 0 where
  pub bidder : AgentId
  pub content : List ℕ
  pub received_at : ℤ

pub record ContractNetProtocol : Type 0 where
  pub state : ContractNetState
  pub base : ConversationBase
  pub task_description : Option (List ℕ)
  pub expected_participants : ℕ
  pub proposals : List Proposal
  pub accepted : Dict Proposal
  pub results : Dict (List ℕ)

unfoldable pub new : String → ℤ → Role → ContractNetProtocol
new uuid now role = record {
  state = not_started;
  base = new_base uuid role now;
  task_description = none;
  expected_participants = 0;
  proposals = [];
  accepted = [];
  results = [];
}

abbrev with_expected_participants : ℕ → ContractNetProtocol → ContractNetProtocol
with_expected_participants count p = record p { expected_participants = count }

find_bidder : String → List Proposal → Option Proposal
find_bidder name [] = none
find_bidder name (q ∷ qs) = if q.bidder.name =s= name then some q else find_bidder name qs

accept_found : String → Option Proposal → ContractNetProtocol → ContractNetProtocol
accept_found name none p = p
accept_found name (some q) p = record p { accepted = insert name q p.accepted }

-- `accept_proposal`
unfoldable pub accept : String → ContractNetProtocol → ContractNetProtocol × Option Proposal
unfolding accept_found find_bidder
accept name p = let found = find_bidder name p.proposals in (accept_found name found p, found)

-- The table of `validate_transition`.
transition : ContractNetState → Performative → Result ProtocolError ContractNetState
transition not_started cfp = ok cfp_sent
transition cfp_sent propose = ok proposals_received
transition cfp_sent refuse = ok proposals_received
transition proposals_received propose = ok proposals_received
transition proposals_received refuse = ok proposals_received
transition proposals_received accept_proposal = ok in_execution
transition proposals_received reject_proposal = ok rejected
transition in_execution inform_done = ok completed
transition in_execution inform_result = ok completed
transition in_execution failure = ok failed
transition state perf = no_transition (as_str state) perf

-- `self.validate_transition(performative)`
validate_transition : ContractNetProtocol → Performative → Result ProtocolError ContractNetState
unfolding transition
validate_transition p perf = transition p.state perf

unfoldable pub validate : ContractNetProtocol → AclMessage → Result ProtocolError (Unit {0})
unfolding validate_transition read_performative
validate p msg = do perf ← read_performative msg; new_state ← validate_transition p perf; ok tt

store_proposal : Option AgentId → ℤ → AclMessage → ContractNetProtocol → ContractNetProtocol
store_proposal none now msg p = p
store_proposal (some sender) now msg p = record p {
  proposals =
      p.proposals ++ record { bidder = sender; content = msg.content; received_at = now } ∷ [];
  base = add_participant sender p.base;
}

store_result : Option AgentId → AclMessage → ContractNetProtocol → ContractNetProtocol
store_result none msg p = p
store_result (some sender) msg p = record p { results = insert sender.name msg.content p.results }

-- `match performative`: what the message leaves in the conversation.
store : Performative → ℤ → AclMessage → ContractNetProtocol → ContractNetProtocol
unfolding store_proposal store_result
store cfp now msg p = record p { task_description = some msg.content }
store propose now msg p = store_proposal msg.sender now msg p
store inform_done now msg p = store_result msg.sender msg p
store inform_result now msg p = store_result msg.sender msg p
store perf now msg p = p

-- `values().next().cloned()`
next : List (List ℕ) → Option (List ℕ)
next [] = none
next (v ∷ vs) = some v

-- The final `match &self.state`.
outcome : HashOrder → ContractNetProtocol → ContractNetState → ProcessResult
unfolding next
outcome h p completed = complete (completion (next (values h p.results)))
outcome h p failed = ProcessResult.failed "Contract net failed"
outcome h p rejected = ProcessResult.failed "Contract net failed"
outcome h p state = continue

-- `process` after the transition was found.
advance :
    HashOrder
    → ℤ
    → AclMessage
    → Performative
    → ContractNetState
    → ContractNetProtocol
    → ContractNetProtocol × Result ProtocolError ProcessResult
unfolding store outcome
advance h now msg perf new_state p =
    let q = store perf now msg (record p { base = record_message msg p.base }) in
    let r = record q { state = new_state } in (r, ok (outcome h r r.state))

unfoldable pub process :
    HashOrder
    → ContractNetProtocol
    → ℤ
    → AclMessage
    → ContractNetProtocol × Result ProtocolError ProcessResult
unfolding read_performative validate_transition advance
process h p now msg =
    try p (read_performative msg)
      λ perf. try p (validate_transition p perf) λ new_state. advance h now msg perf new_state p

terminal : ContractNetState → Bool
terminal completed = true
terminal failed = true
terminal rejected = true
terminal state = false

unfoldable pub is_complete : ContractNetProtocol → Bool
unfolding terminal
is_complete p = terminal p.state

unsuccessful : ContractNetState → Bool
unsuccessful failed = true
unsuccessful rejected = true
unsuccessful state = false

unfoldable pub is_failed : ContractNetProtocol → Bool
unfolding unsuccessful
is_failed p = unsuccessful p.state

expected : ContractNetState → List Performative
expected not_started = cfp ∷ []
expected cfp_sent = propose ∷ refuse ∷ []
expected proposals_received = propose ∷ refuse ∷ accept_proposal ∷ reject_proposal ∷ []
expected in_execution = inform_done ∷ inform_result ∷ failure ∷ []
expected state = []

unfoldable pub expected_performatives : ContractNetProtocol → List Performative
unfolding expected
expected_performatives p = expected p.state

abbrev pub serialize_state : ContractNetProtocol → Result ProtocolError (List ℕ)
unfolding as_str
serialize_state p = ok (codes (as_str p.state))

-- The `impl ProtocolStateMachine`.
abbrev pub contract_net_machine : HashOrder → StateMachine
contract_net_machine h = record {
  Self = ContractNetProtocol;
  protocol_type = λ p. protocol_contract_net;
  state_name = λ p. as_str p.state;
  validate = validate;
  process = process h;
  is_complete = is_complete;
  is_failed = is_failed;
  expected_performatives = expected_performatives;
  serialize_state = serialize_state;
  message_history = λ p. p.base.messages;
}
