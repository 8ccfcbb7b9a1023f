-- ===== src/Protocol/Subscribe.antt =====
-- crates/fipa-wasm-agents/src/protocol/subscribe.rs. The counter is a `usize` of 64 bits, whose `+= 1`
-- wraps in a release build.
pub mod Laws
pub mod Notifications
use fipa_wasm.Base.{
  ℕ, String, List, [], ◌∷◌, Option, none, some, Bool, true, false, codes, ◌+◌, ◌%◌, ◌^◌,
}
use fipa_wasm.Base.Int.{ℤ}
use fipa_wasm.Base.Result.{Result, ok, ◌>>=◌}
use fipa_wasm.Acl.{
  AclMessage, Performative, agree, cancel, failure, inform_result, refuse, subscribe,
  protocol_subscribe,
}
use fipa_wasm.Protocol.{
  ProtocolError, ProcessResult, continue, complete, completion, ConversationBase, Role, new_base,
  add_sender, record_message, read_performative, no_transition,
}
use fipa_wasm.Protocol.Machine.{StateMachine, try}

pub data SubscribeState : Type 0 where
  not_started subscribed agreed active completed failed refused cancelled : SubscribeState

unfoldable pub as_str : SubscribeState → String
as_str not_started = "not_started"
as_str subscribed = "subscribed"
as_str agreed = "agreed"
as_str active = "active"
as_str completed = "completed"
as_str failed = "failed"
as_str refused = "refused"
as_str cancelled = "cancelled"

pub record SubscribeProtocol : Type 0 where
  pub state : SubscribeState
  pub base : ConversationBase
  pub subscription_object : Option (List ℕ)
  pub notification_count : ℕ
  pub last_notification : Option (List ℕ)

unfoldable pub new : String → ℤ → Role → SubscribeProtocol
new uuid now role = record {
  state = not_started;
  base = new_base uuid role now;
  subscription_object = none;
  notification_count = 0;
  last_notification = none;
}

-- The table of `validate_transition`.
transition : SubscribeState → Performative → Result ProtocolError SubscribeState
transition not_started subscribe = ok subscribed
transition subscribed agree = ok agreed
transition subscribed refuse = ok refused
transition agreed inform_result = ok active
transition active inform_result = ok active
transition active failure = ok failed
transition _ cancel = ok cancelled
transition state perf = no_transition (as_str state) perf

-- `self.validate_transition(performative)`
validate_transition : SubscribeProtocol → Performative → Result ProtocolError SubscribeState
unfolding transition
validate_transition p perf = transition p.state perf

unfoldable pub validate : SubscribeProtocol → AclMessage → Result ProtocolError (Unit {0})
unfolding validate_transition read_performative
validate p msg = do perf ← read_performative msg; new_state ← validate_transition p perf; ok tt

-- `match performative`: what the message leaves in the conversation.
store : Performative → AclMessage → SubscribeProtocol → SubscribeProtocol
store subscribe msg p = record p {
  subscription_object = some msg.content;
  base = add_sender msg.sender p.base;
}
store inform_result msg p = record p {
  notification_count = (p.notification_count + 1) % 2 ^ 64;
  last_notification = some msg.content;
}
store perf msg p = p

-- The final `match &self.state`.
outcome : SubscribeProtocol → SubscribeState → ProcessResult
outcome p active = continue
outcome p completed = complete (completion none)
outcome p failed = ProcessResult.failed "Subscription ended"
outcome p refused = ProcessResult.failed "Subscription ended"
outcome p cancelled = ProcessResult.failed "Subscription ended"
outcome p state = continue

-- `process` after the transition was found.
advance :
    AclMessage
    → Performative
    → SubscribeState
    → SubscribeProtocol
    → SubscribeProtocol × Result ProtocolError ProcessResult
unfolding store outcome
advance msg perf new_state p =
    let q = store perf msg (record p { base = record_message msg p.base }) in
    let r = record q { state = new_state } in (r, ok (outcome r r.state))

unfoldable pub process :
    SubscribeProtocol → ℤ → AclMessage → SubscribeProtocol × Result ProtocolError ProcessResult
unfolding read_performative validate_transition advance
process p now msg =
    try p (read_performative msg)
      λ perf. try p (validate_transition p perf) λ new_state. advance msg perf new_state p

terminal : SubscribeState → Bool
terminal completed = true
terminal failed = true
terminal refused = true
terminal cancelled = true
terminal state = false

unfoldable pub is_complete : SubscribeProtocol → Bool
unfolding terminal
is_complete p = terminal p.state

unsuccessful : SubscribeState → Bool
unsuccessful failed = true
unsuccessful refused = true
unsuccessful cancelled = true
unsuccessful state = false

unfoldable pub is_failed : SubscribeProtocol → Bool
unfolding unsuccessful
is_failed p = unsuccessful p.state

expected : SubscribeState → List Performative
expected not_started = subscribe ∷ []
expected subscribed = agree ∷ refuse ∷ cancel ∷ []
expected agreed = inform_result ∷ failure ∷ cancel ∷ []
expected active = inform_result ∷ failure ∷ cancel ∷ []
expected state = []

unfoldable pub expected_performatives : SubscribeProtocol → List Performative
unfolding expected
expected_performatives p = expected p.state

abbrev pub serialize_state : SubscribeProtocol → Result ProtocolError (List ℕ)
unfolding as_str
serialize_state p = ok (codes (as_str p.state))

-- The `impl ProtocolStateMachine`.
abbrev pub subscribe_machine : StateMachine
subscribe_machine = record {
  Self = SubscribeProtocol;
  protocol_type = λ p. protocol_subscribe;
  state_name = λ p. as_str p.state;
  validate = validate;
  process = process;
  is_complete = is_complete;
  is_failed = is_failed;
  expected_performatives = expected_performatives;
  serialize_state = serialize_state;
  message_history = λ p. p.base.messages;
}
