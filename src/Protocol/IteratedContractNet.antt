-- ===== src/Protocol/IteratedContractNet.antt =====
-- crates/fipa-wasm-agents/src/protocol/iterated_contract_net.rs. Rounds are `u32` numbers, whose
-- `+= 1` wraps in a release build.
pub mod Bidders
pub mod Calls
pub mod Laws
pub mod Rounds
use fipa_wasm.Base.{
  ℕ, String, List, [], ◌∷◌, ◌++◌, Option, none, some, Bool, true, false, codes, ◌+◌, ◌%◌, ◌^◌, ◌<>◌,
  is_empty, if◌then◌else◌, ltb, leb, not,
}
use fipa_wasm.Base.Int.{ℤ, pos}
use fipa_wasm.Base.Result.{Result, ok, err, ◌>>=◌}
use fipa_wasm.Base.Dict.{Dict, HashOrder, values, get, insert, contains_key}
use fipa_wasm.Acl.{
  AgentId, AclMessage, Performative, accept_proposal, cancel, cfp, failure, inform_done,
  inform_result, propose, refuse, reject_proposal, protocol_iterated_contract_net,
}
use fipa_wasm.Protocol.{
  ProtocolError, invalid_transition, validation_failed, ProcessResult, continue, complete,
  completion, ConversationBase, initiator, participant, new_base, record_message, read_performative,
  no_transition,
}
use fipa_wasm.Protocol.Machine.{StateMachine, try}
use fipa_wasm.Protocol.ContractNet.{Proposal}

pub data IteratedContractNetState : Type 0 where
  not_started cfp_sent evaluating revising accepted waiting_result completed no_agreement failed
        cancelled :
      IteratedContractNetState

unfoldable pub as_str : IteratedContractNetState → String
as_str not_started = "not_started"
as_str cfp_sent = "cfp_sent"
as_str evaluating = "evaluating"
as_str revising = "revising"
as_str accepted = "accepted"
as_str waiting_result = "waiting_result"
as_str completed = "completed"
as_str no_agreement = "no_agreement"
as_str failed = "failed"
as_str cancelled = "cancelled"

pub record NegotiationRound : Type 0 where
  pub round : ℕ
  pub cfp_content : List ℕ
  pub proposals : List Proposal
  pub timestamp : ℤ

pub record IteratedContractNetProtocol : Type 0 where
  pub state : IteratedContractNetState
  pub base : ConversationBase
  pub current_round : ℕ
  pub max_rounds : ℕ
  pub rounds : List NegotiationRound
  pub current_proposals : Dict Proposal
  pub selected_contractor : Option String
  pub result : Option (List ℕ)
  pub round_deadline : ℤ

unfoldable pub new_as_initiator : ℕ → String → ℤ → IteratedContractNetProtocol
new_as_initiator max_rounds uuid now = record {
  state = not_started;
  base = new_base uuid initiator now;
  current_round = 0;
  max_rounds = max_rounds;
  rounds = [];
  current_proposals = [];
  selected_contractor = none;
  result = none;
  round_deadline = pos 30000;
}

abbrev new_as_participant : String → ℤ → IteratedContractNetProtocol
new_as_participant uuid now = record {
  state = not_started;
  base = new_base uuid participant now;
  current_round = 0;
  max_rounds = 10;
  rounds = [];
  current_proposals = [];
  selected_contractor = none;
  result = none;
  round_deadline = pos 30000;
}

abbrev with_round_deadline : ℤ → IteratedContractNetProtocol → IteratedContractNetProtocol
with_round_deadline deadline_ms p = record p { round_deadline = deadline_ms }

abbrev with_conversation_id : String → IteratedContractNetProtocol → IteratedContractNetProtocol
with_conversation_id id p = record p { base = record p.base { conversation_id = id } }

abbrev pub next_round : ℕ → ℕ
next_round n = (n + 1) % 2 ^ 32

can_continue : IteratedContractNetProtocol → Bool
can_continue p = ltb p.current_round p.max_rounds

-- The table of `validate_transition`.
-- The first argument is `self.can_continue()`.
transition :
    Bool → IteratedContractNetState → Performative → Result ProtocolError IteratedContractNetState
transition more not_started cfp = ok cfp_sent
transition more cfp_sent propose = ok cfp_sent
transition more cfp_sent refuse = ok cfp_sent
transition more cfp_sent accept_proposal = ok accepted
transition more evaluating accept_proposal = ok accepted
transition more cfp_sent reject_proposal = if more then ok revising else ok no_agreement
transition more evaluating reject_proposal = if more then ok revising else ok no_agreement
transition more revising cfp = ok cfp_sent
transition more evaluating cfp = ok cfp_sent
transition more accepted inform_done = ok completed
transition more accepted inform_result = ok completed
transition more waiting_result inform_done = ok completed
transition more waiting_result inform_result = ok completed
transition more accepted failure = ok failed
transition more waiting_result failure = ok failed
transition more _ cancel = ok cancelled
transition more state perf = no_transition (as_str state) perf

-- `self.validate_transition(performative)`
validate_transition :
    IteratedContractNetProtocol → Performative → Result ProtocolError IteratedContractNetState
unfolding transition can_continue
validate_transition p perf = transition (can_continue p) p.state perf

unfoldable pub validate : IteratedContractNetProtocol → AclMessage → Result ProtocolError (Unit {0})
unfolding validate_transition read_performative
validate p msg = do perf ← read_performative msg; new_state ← validate_transition p perf; ok tt

is_not_started : IteratedContractNetState → Bool
is_not_started not_started = true
is_not_started state = false

store_cfp : IteratedContractNetProtocol → IteratedContractNetProtocol
unfolding is_not_started
store_cfp p =
    if is_not_started p.state
    then record p { current_round = 1 }
    else record p { current_round = next_round p.current_round; current_proposals = [] }

store_proposal :
    Option AgentId → ℤ → AclMessage → IteratedContractNetProtocol → IteratedContractNetProtocol
store_proposal none now msg p = p
store_proposal (some sender) now msg p = record p {
  current_proposals =
      insert sender.name (record { bidder = sender; content = msg.content; received_at = now })
        p.current_proposals;
}

-- `match performative`: what the message leaves in the conversation.
store : Performative → ℤ → AclMessage → IteratedContractNetProtocol → IteratedContractNetProtocol
unfolding store_cfp store_proposal
store cfp now msg p = store_cfp p
store propose now msg p = store_proposal msg.sender now msg p
store inform_done now msg p = record p { result = some msg.content }
store inform_result now msg p = record p { result = some msg.content }
store perf now msg p = p

-- The final `match &self.state`.
outcome : IteratedContractNetProtocol → IteratedContractNetState → ProcessResult
outcome p completed = complete (completion p.result)
outcome p no_agreement = ProcessResult.failed "No agreement reached"
outcome p failed = ProcessResult.failed "Contract failed"
outcome p cancelled = ProcessResult.failed "Contract cancelled"
outcome p state = continue

-- `process` after the transition was found.
advance :
    ℤ
    → AclMessage
    → Performative
    → IteratedContractNetState
    → IteratedContractNetProtocol
    → IteratedContractNetProtocol × Result ProtocolError ProcessResult
unfolding store outcome
advance now msg perf new_state p =
    let q = store perf now msg (record p { base = record_message msg p.base }) in
    let r = record q { state = new_state } in (r, ok (outcome r r.state))

unfoldable pub process :
    IteratedContractNetProtocol
    → ℤ
    → AclMessage
    → IteratedContractNetProtocol × Result ProtocolError ProcessResult
unfolding read_performative validate_transition advance
process p now msg =
    try p (read_performative msg)
      λ perf. try p (validate_transition p perf) λ new_state. advance now msg perf new_state p

terminal : IteratedContractNetState → Bool
terminal completed = true
terminal no_agreement = true
terminal failed = true
terminal cancelled = true
terminal state = false

unfoldable pub is_complete : IteratedContractNetProtocol → Bool
unfolding terminal
is_complete p = terminal p.state

unsuccessful : IteratedContractNetState → Bool
unsuccessful no_agreement = true
unsuccessful failed = true
unsuccessful cancelled = true
unsuccessful state = false

unfoldable pub is_failed : IteratedContractNetProtocol → Bool
unfolding unsuccessful
is_failed p = unsuccessful p.state

expected : IteratedContractNetState → List Performative
expected not_started = cfp ∷ []
expected cfp_sent = propose ∷ refuse ∷ accept_proposal ∷ reject_proposal ∷ cancel ∷ []
expected evaluating = accept_proposal ∷ reject_proposal ∷ cfp ∷ cancel ∷ []
expected revising = cfp ∷ cancel ∷ []
expected accepted = inform_done ∷ inform_result ∷ failure ∷ cancel ∷ []
expected waiting_result = inform_done ∷ inform_result ∷ failure ∷ cancel ∷ []
expected state = []

unfoldable pub expected_performatives : IteratedContractNetProtocol → List Performative
unfolding expected
expected_performatives p = expected p.state

abbrev pub serialize_state : IteratedContractNetProtocol → Result ProtocolError (List ℕ)
unfolding as_str
serialize_state p = ok (codes (as_str p.state))

-- The `impl ProtocolStateMachine`.
abbrev pub iterated_contract_net_machine : StateMachine
iterated_contract_net_machine = record {
  Self = IteratedContractNetProtocol;
  protocol_type = λ p. protocol_iterated_contract_net;
  state_name = λ p. as_str p.state;
  validate = validate;
  process = process;
  is_complete = is_complete;
  is_failed = is_failed;
  expected_performatives = expected_performatives;
  serialize_state = serialize_state;
  message_history = λ p. p.base.messages;
}
