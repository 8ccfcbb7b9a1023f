-- ===== src/Protocol/Recruiting.antt =====
-- crates/fipa-wasm-agents/src/protocol/recruiting.rs. The type of scores is the parameter `f`; the JSON
-- of the names found is made by serde_json, here the argument `names_json`.
pub mod Laws
pub mod Ranking
use Prim.Native.Nat.{Ordering}
use fipa_wasm.Base.{
  ℕ, String, List, [], ◌∷◌, ◌++◌, Option, none, some, Bool, true, false, codes, is_empty, length,
  map, if◌then◌else◌, ltb, ◌&&◌,
}
use fipa_wasm.Base.Int.{ℤ}
use fipa_wasm.Base.Result.{Result, ok, err, ◌>>=◌}
use fipa_wasm.Acl.{
  AgentId, AclMessage, Performative, cancel, failure, inform, inform_ref, proxy, query_ref,
  protocol_recruiting,
}
use fipa_wasm.Protocol.{
  ProtocolError, invalid_transition, ProcessResult, continue, complete, completion,
  ConversationBase, initiator, new_base, record_message, read_performative, no_transition,
}
use fipa_wasm.Protocol.Machine.{StateMachine, try}
use fipa_wasm.Float.{Float, partial_cmp}
use fipa_wasm.Acl.{ProtocolType, ServiceDescription}

pub data RecruitingState : Type 0 where
  not_started proxy_received searching candidates_found completed no_candidates failed cancelled :
      RecruitingState

unfoldable pub as_str : RecruitingState → String
as_str not_started = "not_started"
as_str proxy_received = "proxy_received"
as_str searching = "searching"
as_str candidates_found = "candidates_found"
as_str completed = "completed"
as_str no_candidates = "no_candidates"
as_str failed = "failed"
as_str cancelled = "cancelled"

module _ (f : Float) where
  open f use {F64, zero, le}

  pub record Candidate : Type 0 where
    pub agent_id : AgentId
    pub service : Option ServiceDescription
    pub score : F64

  pub record RecruitingProtocol : Type 0 where
    pub state : RecruitingState
    pub base : ConversationBase
    pub original_request : Option AclMessage
    pub initiator : Option AgentId
    pub search_criteria : Option (List ℕ)
    pub service_name : Option String
    pub required_protocol : Option ProtocolType
    pub candidates : List Candidate
    pub max_candidates : ℕ
    pub min_score : F64

  -- `new_as_recruiter` and `new_as_initiator`, which build the same value.
  pub new_as_recruiter : String → ℤ → RecruitingProtocol
  new_as_recruiter uuid now = record {
    state = not_started;
    base = new_base uuid initiator now;
    original_request = none;
    initiator = none;
    search_criteria = none;
    service_name = none;
    required_protocol = none;
    candidates = [];
    max_candidates = 10;
    min_score = zero;
  }

  abbrev with_service_name : String → RecruitingProtocol → RecruitingProtocol
  with_service_name name p = record p { service_name = some name }

  abbrev with_required_protocol : ProtocolType → RecruitingProtocol → RecruitingProtocol
  with_required_protocol protocol p = record p { required_protocol = some protocol }

  pub with_max_candidates : ℕ → RecruitingProtocol → RecruitingProtocol
  with_max_candidates count p = record p { max_candidates = count }

  pub with_min_score : F64 → RecruitingProtocol → RecruitingProtocol
  with_min_score score p = record p { min_score = score }

  abbrev with_conversation_id : String → RecruitingProtocol → RecruitingProtocol
  with_conversation_id id p = record p { base = record p.base { conversation_id = id } }

  -- `b.score.partial_cmp(&a.score).unwrap_or(Equal)` is `Greater`.
  is_greater : Option Ordering → Bool
  is_greater (some Ordering.gt) = true
  is_greater order = false

  pub comes_after : Candidate → Candidate → Bool
  unfolding is_greater partial_cmp
  comes_after a b = is_greater (partial_cmp f b.score a.score)

  -- `sort_by`, which is stable: equal candidates keep their order.
  unfoldable pub place : Candidate → List Candidate → List Candidate
  place a [] = a ∷ []
  place a (b ∷ bs) = if comes_after a b then b ∷ place a bs else a ∷ b ∷ bs

  pub sort : List Candidate → List Candidate
  unfolding place
  sort [] = []
  sort (a ∷ as_) = place a (sort as_)

  pub add_candidate :
      AgentId → Option ServiceDescription → F64 → RecruitingProtocol → RecruitingProtocol
  unfolding sort
  add_candidate agent service score p =
      if le p.min_score score && ltb (length p.candidates) p.max_candidates
      then record p {
        candidates =
            sort
              (p.candidates ++ record { agent_id = agent; service = service; score = score } ∷ []);
      }
      else p

  is_searching : RecruitingState → Bool
  is_searching searching = true
  is_searching state = false

  abbrev complete_search : RecruitingProtocol → RecruitingProtocol × Result ProtocolError (Unit {0})
  unfolding is_searching as_str
  complete_search p =
      if is_searching p.state
      then (
        record p { state = if is_empty p.candidates then no_candidates else candidates_found },
        ok tt,
      )
      else (p, err (invalid_transition (as_str p.state) "complete_search"))

  -- The table of `validate_transition`.
  transition : RecruitingState → Performative → Result ProtocolError RecruitingState
  transition not_started proxy = ok proxy_received
  transition proxy_received query_ref = ok searching
  transition searching inform = ok candidates_found
  transition searching inform_ref = ok candidates_found
  transition candidates_found inform = ok completed
  transition searching failure = ok no_candidates
  transition _ cancel = ok cancelled
  transition _ failure = ok failed
  transition state perf = no_transition (as_str state) perf

  -- `self.validate_transition(performative)`
  validate_transition : RecruitingProtocol → Performative → Result ProtocolError RecruitingState
  unfolding transition
  validate_transition p perf = transition p.state perf

  unfoldable pub validate : RecruitingProtocol → AclMessage → Result ProtocolError (Unit {0})
  unfolding validate_transition read_performative
  validate p msg = do perf ← read_performative msg; new_state ← validate_transition p perf; ok tt

  -- `match performative`: what the message leaves in the conversation.
  store : Performative → AclMessage → RecruitingProtocol → RecruitingProtocol
  store proxy msg p = record p {
    original_request = some msg;
    initiator = msg.sender;
    search_criteria = some msg.content;
  }
  store perf msg p = p

  -- The final `match &self.state`.
  outcome : (List String → List ℕ) → RecruitingProtocol → RecruitingState → ProcessResult
  outcome names_json p completed =
      complete
        (completion (some (names_json (map (λ (c : Candidate). c.agent_id.name) p.candidates))))
  outcome names_json p no_candidates = ProcessResult.failed "No candidates found"
  outcome names_json p failed = ProcessResult.failed "Recruiting failed"
  outcome names_json p cancelled = ProcessResult.failed "Recruiting cancelled"
  outcome names_json p state = continue

  -- `process` after the transition was found.
  advance :
      (List String → List ℕ)
      → AclMessage
      → Performative
      → RecruitingState
      → RecruitingProtocol
      → RecruitingProtocol × Result ProtocolError ProcessResult
  unfolding store outcome
  advance names_json msg perf new_state p =
      let q = store perf msg (record p { base = record_message msg p.base }) in
      let r = record q { state = new_state } in (r, ok (outcome names_json r r.state))

  unfoldable pub process :
      (List String → List ℕ)
      → RecruitingProtocol
      → ℤ
      → AclMessage
      → RecruitingProtocol × Result ProtocolError ProcessResult
  unfolding read_performative validate_transition advance
  process names_json p now msg = try p (read_performative msg) λ perf.
      try p (validate_transition p perf) λ new_state. advance names_json msg perf new_state p

  terminal : RecruitingState → Bool
  terminal completed = true
  terminal no_candidates = true
  terminal failed = true
  terminal cancelled = true
  terminal state = false

  unfoldable pub is_complete : RecruitingProtocol → Bool
  unfolding terminal
  is_complete p = terminal p.state

  unsuccessful : RecruitingState → Bool
  unsuccessful no_candidates = true
  unsuccessful failed = true
  unsuccessful cancelled = true
  unsuccessful state = false

  unfoldable pub is_failed : RecruitingProtocol → Bool
  unfolding unsuccessful
  is_failed p = unsuccessful p.state

  expected : RecruitingState → List Performative
  expected not_started = proxy ∷ []
  expected proxy_received = query_ref ∷ cancel ∷ []
  expected searching = inform ∷ inform_ref ∷ failure ∷ cancel ∷ []
  expected candidates_found = inform ∷ cancel ∷ []
  expected state = []

  unfoldable pub expected_performatives : RecruitingProtocol → List Performative
  unfolding expected
  expected_performatives p = expected p.state

  abbrev pub serialize_state : RecruitingProtocol → Result ProtocolError (List ℕ)
  unfolding as_str
  serialize_state p = ok (codes (as_str p.state))

  -- The `impl ProtocolStateMachine`.
  abbrev pub recruiting_machine : (List String → List ℕ) → StateMachine
  recruiting_machine names_json = record {
    Self = RecruitingProtocol;
    protocol_type = λ p. protocol_recruiting;
    state_name = λ p. as_str p.state;
    validate = validate;
    process = process names_json;
    is_complete = is_complete;
    is_failed = is_failed;
    expected_performatives = expected_performatives;
    serialize_state = serialize_state;
    message_history = λ p. p.base.messages;
  }
