-- ===== src/Protocol/Query/Trace.antt =====
-- Which messages a Query conversation took, for each state that it can be in, and what it answers.
use fipa_wasm.Base.{String, ◌≡◌, List, [], ◌∷◌, Option, some, arith, ◌⊎◌}
use fipa_wasm.Base.Int.{ℤ}
use fipa_wasm.Base.Result.{ok}
use fipa_wasm.Acl.{
  AclMessage, Performative, query_if, query_ref, agree, refuse, inform_if, inform_ref,
  inform_result, failure,
}
use fipa_wasm.Protocol.{read_performative, Role, CompletionData, complete, completion}
use fipa_wasm.Protocol.Machine.Laws.{step_by}
use fipa_wasm.Protocol.Machine.Conversation.{Arrivals, run, run_keeps}
use fipa_wasm.Protocol.Machine.Log.{performatives, performatives-snoc, performatives-nil}
use fipa_wasm.Protocol.Query.{
  QueryState, QueryProtocol, not_started, queried, agreed, completed, failed, refused,
  validate_transition, advance, process, query_machine, new,
}

abbrev pub Shape : QueryState → List (Option Performative) → Type 0
Shape not_started log = log ≡ []
Shape queried log = (log ≡ some query_if ∷ []) ⊎ (log ≡ some query_ref ∷ [])
Shape agreed log =
    (log ≡ some query_if ∷ some agree ∷ []) ⊎ (log ≡ some query_ref ∷ some agree ∷ [])
Shape completed log =
    (log ≡ some query_if ∷ some agree ∷ some inform_if ∷ [])
    ⊎ (log ≡ some query_if ∷ some agree ∷ some inform_ref ∷ [])
    ⊎ (log ≡ some query_if ∷ some agree ∷ some inform_result ∷ [])
    ⊎ (log ≡ some query_ref ∷ some agree ∷ some inform_if ∷ [])
    ⊎ (log ≡ some query_ref ∷ some agree ∷ some inform_ref ∷ [])
    ⊎ (log ≡ some query_ref ∷ some agree ∷ some inform_result ∷ [])
Shape failed log =
    (log ≡ some query_if ∷ some agree ∷ some failure ∷ [])
    ⊎ (log ≡ some query_ref ∷ some agree ∷ some failure ∷ [])
Shape refused log =
    (log ≡ some query_if ∷ some refuse ∷ []) ⊎ (log ≡ some query_ref ∷ some refuse ∷ [])

abbrev pub Shaped : QueryProtocol → Type 0
Shaped p = Shape p.state (performatives p.base.messages)

advance-Shaped :
    (p : QueryProtocol) (msg : AclMessage) (perf : Performative) (s : QueryState)
    → Shaped p
    → read_performative msg ≡ ok perf
    → validate_transition p perf ≡ ok s
    → Shaped (advance msg perf s p).0
unfolding validate_transition advance
advance-Shaped p msg perf s h r t = ground (arith, performatives-snoc p.base.messages msg r)

process-Shaped :
    (p : QueryProtocol) (now : ℤ) (msg : AclMessage) → Shaped p → Shaped (process p now msg).0
unfolding process
process-Shaped p now msg h =
    step_by query_machine validate_transition (λ q now' msg' perf' s. advance msg' perf' s q) Shaped
      p now msg h λ perf s r t. advance-Shaped p msg perf s h r t

-- After any messages the history fits the state: a completed query was asked, agreed to and answered
-- by one of the three inform messages, and no other message was taken; likewise for the states
-- queried, agreed, refused and failed.
pub query_run-Shaped :
    (uuid : String) (start : ℤ) (role : Role) (arrivals : Arrivals)
    → Shaped (run query_machine (new uuid start role) arrivals)
unfolding new
query_run-Shaped uuid start role arrivals =
    run_keeps query_machine Shaped process-Shaped (new uuid start role) arrivals performatives-nil

-- The query is reported complete only from the agreed state, and the result reported is the content of
-- the message that completes it, with no metadata.
pub query_process-complete :
    (p : QueryProtocol) (now : ℤ) (msg : AclMessage) {d : CompletionData}
    → (process p now msg).1 ≡ ok (complete d)
    → (p.state ≡ agreed) × (d ≡ completion (some msg.content))
unfolding process validate_transition advance
query_process-complete p now msg h = ground arith
