-- ===== src/Acl.antt =====
-- The ACL message types of crates/fipa-wasm-agents/src/proto/fipa.proto, from which the build
-- generates the Rust types that the protocols use. Strings are native texts, `bytes` a list of
-- numbers, `int64` and enum fields are integers, an absent `optional` is `none`.
pub mod Capabilities
use fipa_wasm.Base.{ℕ, String, ◌≡◌, refl, List, Option, none, some, ◌==◌, if◌then◌else◌}
use fipa_wasm.Base.Int.{ℤ, pos, negsuc}
use fipa_wasm.Base.Dict.{Dict}

pub record AgentId : Type 0 where
  pub name : String
  pub addresses : List String
  pub resolvers : List String

pub data Performative : Type 0 where
  unspecified accept_proposal agree cancel cfp confirm disconfirm failure inform inform_done
        inform_if inform_ref inform_result not_understood propagate propose proxy query_if query_ref
        refuse reject_proposal request request_when request_whenever subscribe :
      Performative

pub data ProtocolType : Type 0 where
  protocol_unspecified protocol_request protocol_query protocol_request_when protocol_contract_net
        protocol_iterated_contract_net protocol_propose protocol_brokering protocol_recruiting
        protocol_subscribe protocol_english_auction protocol_dutch_auction :
      ProtocolType

pub record AclMessage : Type 0 where
  pub message_id : String
  pub performative : ℤ
  pub sender : Option AgentId
  pub receivers : List AgentId
  pub reply_to : Option AgentId
  pub protocol : Option ℤ
  pub conversation_id : Option String
  pub in_reply_to : Option String
  pub reply_with : Option String
  pub reply_by : Option ℤ
  pub language : Option String
  pub encoding : Option String
  pub ontology : Option String
  pub content : List ℕ
  pub user_properties : Dict String

pub record ServiceDescription : Type 0 where
  pub name : String
  pub description : String
  pub protocols : List ℤ
  pub ontology : String
  pub properties : Dict String

-- `performative as i32`: the number that the enum gives.
unfoldable pub as_i32 : Performative → ℤ
as_i32 unspecified = pos 0
as_i32 accept_proposal = pos 1
as_i32 agree = pos 2
as_i32 cancel = pos 3
as_i32 cfp = pos 4
as_i32 confirm = pos 5
as_i32 disconfirm = pos 6
as_i32 failure = pos 7
as_i32 inform = pos 8
as_i32 inform_done = pos 9
as_i32 inform_if = pos 10
as_i32 inform_ref = pos 11
as_i32 inform_result = pos 12
as_i32 not_understood = pos 13
as_i32 propagate = pos 14
as_i32 propose = pos 15
as_i32 proxy = pos 16
as_i32 query_if = pos 17
as_i32 query_ref = pos 18
as_i32 refuse = pos 19
as_i32 reject_proposal = pos 20
as_i32 request = pos 21
as_i32 request_when = pos 22
as_i32 request_whenever = pos 23
as_i32 subscribe = pos 24

-- `Performative::try_from` on a number that is not negative.
from_number : ℕ → Option Performative
from_number n =
    if n == 0
    then some unspecified
    else if n == 1
    then some accept_proposal
    else if n == 2
    then some agree
    else if n == 3
    then some cancel
    else if n == 4
    then some cfp
    else if n == 5
    then some confirm
    else if n == 6
    then some disconfirm
    else if n == 7
    then some failure
    else if n == 8
    then some inform
    else if n == 9
    then some inform_done
    else if n == 10
    then some inform_if
    else if n == 11
    then some inform_ref
    else if n == 12
    then some inform_result
    else if n == 13
    then some not_understood
    else if n == 14
    then some propagate
    else if n == 15
    then some propose
    else if n == 16
    then some proxy
    else if n == 17
    then some query_if
    else if n == 18
    then some query_ref
    else if n == 19
    then some refuse
    else if n == 20
    then some reject_proposal
    else if n == 21
    then some request
    else if n == 22
    then some request_when
    else if n == 23
    then some request_whenever
    else if n == 24
    then some subscribe
    else none

-- `Performative::try_from(i32)`: a number that names no value is an error.
unfoldable pub try_from : ℤ → Option Performative
unfolding from_number
try_from (pos n) = from_number n
try_from (negsuc n) = none

-- The derived `Debug` name, which `format!("{:?}", perf)` prints.
abbrev pub debug_name : Performative → String
debug_name unspecified = "Unspecified"
debug_name accept_proposal = "AcceptProposal"
debug_name agree = "Agree"
debug_name cancel = "Cancel"
debug_name cfp = "Cfp"
debug_name confirm = "Confirm"
debug_name disconfirm = "Disconfirm"
debug_name failure = "Failure"
debug_name inform = "Inform"
debug_name inform_done = "InformDone"
debug_name inform_if = "InformIf"
debug_name inform_ref = "InformRef"
debug_name inform_result = "InformResult"
debug_name not_understood = "NotUnderstood"
debug_name propagate = "Propagate"
debug_name propose = "Propose"
debug_name proxy = "Proxy"
debug_name query_if = "QueryIf"
debug_name query_ref = "QueryRef"
debug_name refuse = "Refuse"
debug_name reject_proposal = "RejectProposal"
debug_name request = "Request"
debug_name request_when = "RequestWhen"
debug_name request_whenever = "RequestWhenever"
debug_name subscribe = "Subscribe"

-- A performative that was written as a number is read back.
pub try_from-as_i32 : (p : Performative) → try_from (as_i32 p) ≡ some p
unfolding try_from as_i32
try_from-as_i32 unspecified = refl
try_from-as_i32 _ = refl
