-- ===== src/Protocol.antt =====
-- crates/fipa-wasm-agents/src/protocol/state_machine.rs: the types that the protocols share, the
-- conversation base and the reply to a message. The clock and fresh UUIDs are arguments.
pub mod Machine
pub mod Request
pub mod Lawful
mod Samples
mod Examples
pub mod Expected
pub mod Factory
pub mod Query
pub mod Propose
pub mod Subscribe
pub mod ContractNet
pub mod DutchAuction
pub mod EnglishAuction
pub mod Recruiting
pub mod IteratedContractNet
pub mod Brokering
use fipa_wasm.Base.{
  ℕ, String, ◌≡◌, List, [], ◌∷◌, ◌++◌, Option, none, some, Bool, false, if◌then◌else◌, any, ◌=s=◌,
  arith,
}
use fipa_wasm.Base.Int.{ℤ, ltb_ℤ}
use fipa_wasm.Base.Result.{Result, ok, err}
use fipa_wasm.Base.Dict.{Dict}
use fipa_wasm.Acl.{AgentId, AclMessage, Performative, ProtocolType, as_i32, try_from, debug_name}

pub data ProtocolError : Type 0 where
  invalid_transition : String → String → ProtocolError
  validation_failed : String → ProtocolError
  not_supported : ProtocolType → ProtocolError
  missing_conversation_id : ProtocolError
  unknown_conversation : String → ProtocolError
  timeout cancelled : ProtocolError
  serialization_error : String → ProtocolError

pub record CompletionData : Type 0 where
  pub result : Option (List ℕ)
  pub metadata : Dict String

-- `CompletionData { result, ..Default::default() }`
abbrev pub completion : Option (List ℕ) → CompletionData
completion result = record { result = result; metadata = [] }

pub data ProcessResult : Type 0 where
  continue : ProcessResult
  respond : AclMessage → ProcessResult
  complete : CompletionData → ProcessResult
  failed : String → ProcessResult

pub data Role : Type 0 where
  initiator participant broker : Role

pub record ConversationBase : Type 0 where
  pub conversation_id : String
  pub role : Role
  pub participants : List AgentId
  pub messages : List AclMessage
  pub start_time : ℤ
  pub deadline : Option ℤ

-- `ConversationBase::new`
abbrev pub new_base : String → Role → ℤ → ConversationBase
new_base id role now = record {
  conversation_id = id;
  role = role;
  participants = [];
  messages = [];
  start_time = now;
  deadline = none;
}

pub add_participant : AgentId → ConversationBase → ConversationBase
add_participant agent b =
    if any (λ (p : AgentId). p.name =s= agent.name) b.participants
    then b
    else record b { participants = b.participants ++ agent ∷ [] }

-- `if let Some(sender) = &msg.sender { self.base.add_participant(sender.clone()) }`
abbrev pub add_sender : Option AgentId → ConversationBase → ConversationBase
add_sender none b = b
add_sender (some sender) b = add_participant sender b

abbrev pub record_message : AclMessage → ConversationBase → ConversationBase
record_message msg b = record b { messages = b.messages ++ msg ∷ [] }

is_expired : ℤ → ConversationBase → Bool
is_expired now b = elim b.deadline [ none ↦ false | some deadline ↦ ltb_ℤ deadline now ]

-- `Performative::try_from(msg.performative).map_err(..)`, with which `validate` and `process` begin.
abbrev or_invalid : Option Performative → Result ProtocolError Performative
or_invalid none = err (validation_failed "Invalid performative")
or_invalid (some perf) = ok perf

pub read_performative : AclMessage → Result ProtocolError Performative
read_performative msg = or_invalid (try_from msg.performative)

pub try_from-read :
    (msg : AclMessage) {perf : Performative}
    → read_performative msg ≡ ok perf
    → try_from msg.performative ≡ some perf
unfolding read_performative
try_from-read msg h = ground arith

-- The last arm of `validate_transition`, for a state of the given name.
abbrev pub no_transition {ℓ} : {S : Type ℓ} → String → Performative → Result ProtocolError S
no_transition from perf = err (invalid_transition from (debug_name perf))

first : List AgentId → Option AgentId
first [] = none
first (a ∷ as_) = some a

pub to_list : Option AgentId → List AgentId
to_list none = []
to_list (some a) = a ∷ []

abbrev create_response : String → AclMessage → Performative → List ℕ → AclMessage
unfolding first to_list
create_response uuid original performative content = record {
  message_id = uuid;
  performative = as_i32 performative;
  sender = first original.receivers;
  receivers = to_list original.sender;
  reply_to = none;
  protocol = original.protocol;
  conversation_id = original.conversation_id;
  in_reply_to = some original.message_id;
  reply_with = none;
  reply_by = none;
  language = original.language;
  encoding = original.encoding;
  ontology = original.ontology;
  content = content;
  user_properties = [];
}
