-- ===== src/Protocol/Request/Trace.antt =====
-- Which messages a Request conversation took, for each state that it can be in.
use fipa_wasm.Base.{String, ◌≡◌, List, [], ◌∷◌, Option, some, arith, ◌⊎◌, true, false}
use fipa_wasm.Base.Int.{ℤ}
use fipa_wasm.Base.Result.{ok}
use fipa_wasm.Acl.{
  AclMessage, try_from, Performative, request, agree, refuse, inform_done, inform_result, failure,
  cancel,
}
use fipa_wasm.Protocol.{
  add_participant, read_performative, Role, CompletionData, complete, completion,
}
use fipa_wasm.Protocol.Machine.Laws.{step_by}
use fipa_wasm.Protocol.Machine.Conversation.{Arrivals, run, run_keeps}
use fipa_wasm.Protocol.Machine.Log.{
  performatives, performatives-snoc, performatives-nil, last?, last?-snoc,
}
use fipa_wasm.Protocol.Request.{
  RequestState, RequestProtocol, not_started, requested, agreed, executing, completed, failed,
  refused, cancelled, validate_transition, advance, process, request_machine, new, is_complete,
  is_failed,
}

abbrev pub Shape : RequestState → List (Option Performative) → Type 0
Shape not_started log = log ≡ []
Shape requested log = log ≡ some request ∷ []
Shape agreed log = log ≡ some request ∷ some agree ∷ []
Shape executing log = ⊥
Shape completed log =
    (log ≡ some request ∷ some agree ∷ some inform_done ∷ [])
    ⊎ (log ≡ some request ∷ some agree ∷ some inform_result ∷ [])
Shape failed log = log ≡ some request ∷ some agree ∷ some failure ∷ []
Shape refused log = log ≡ some request ∷ some refuse ∷ []
Shape cancelled log = last? log ≡ some (some cancel)

abbrev pub Shaped : RequestProtocol → Type 0
Shaped p = Shape p.state (performatives p.base.messages)

advance-Shaped :
    (p : RequestProtocol) (msg : AclMessage) (perf : Performative) (s : RequestState)
    → Shaped p
    → read_performative msg ≡ ok perf
    → validate_transition p perf ≡ ok s
    → Shaped (advance msg s p).0
unfolding add_participant validate_transition advance
advance-Shaped p msg perf s h r t = ground (
  arith,
  performatives-snoc p.base.messages msg r,
  last?-snoc (performatives p.base.messages) (some perf),
)

process-Shaped :
    (p : RequestProtocol) (now : ℤ) (msg : AclMessage) → Shaped p → Shaped (process p now msg).0
unfolding process
process-Shaped p now msg h =
    step_by request_machine validate_transition (λ q now' msg' perf s. advance msg' s q) Shaped p
      now msg h λ perf s r t. advance-Shaped p msg perf s h r t

-- After any messages the history fits the state: a completed request was requested, agreed to and
-- answered by inform-done or inform-result, and no other message was taken; likewise for the states
-- requested, agreed, refused and failed; a cancelled one ends with the cancel; `executing` is never
-- reached.
pub request_run-Shaped :
    (uuid : String) (start : ℤ) (role : Role) (arrivals : Arrivals)
    → Shaped (run request_machine (new uuid start role) arrivals)
unfolding new
request_run-Shaped uuid start role arrivals =
    run_keeps request_machine Shaped process-Shaped (new uuid start role) arrivals performatives-nil

-- The request is reported complete only from the agreed state, and the result reported is the content
-- of the message that completes it, with no metadata.
pub request_process-complete :
    (p : RequestProtocol) (now : ℤ) (msg : AclMessage) {d : CompletionData}
    → (process p now msg).1 ≡ ok (complete d)
    → (p.state ≡ agreed) × (d ≡ completion (some msg.content))
unfolding process validate_transition advance
request_process-complete p now msg h = ground arith

-- A completed request is not final: a cancel takes it to the cancelled state, where it counts as
-- failed.
pub cancel_undoes_completion :
    (p : RequestProtocol) (now : ℤ) (msg : AclMessage)
    → p.state ≡ completed
    → try_from msg.performative ≡ some cancel
    → (is_complete p ≡ true)
      × (is_failed p ≡ false)
      × (is_failed (process p now msg).0 ≡ true)
      × ((process p now msg).0.state ≡ cancelled)
unfolding process read_performative validate_transition advance is_complete is_failed
cancel_undoes_completion p now msg h c = ground arith
