-- ===== src/Protocol/Propose/Trace.antt =====
-- Which messages a Propose conversation took, for each state that it can be in, and what it answers.
use fipa_wasm.Base.{String, ◌≡◌, List, [], ◌∷◌, Option, some, arith}
use fipa_wasm.Base.Int.{ℤ}
use fipa_wasm.Base.Result.{ok}
use fipa_wasm.Acl.{AclMessage, Performative, propose, accept_proposal, reject_proposal, cancel}
use fipa_wasm.Protocol.{
  add_participant, read_performative, Role, CompletionData, complete, completion,
}
use fipa_wasm.Protocol.Machine.Laws.{step_by}
use fipa_wasm.Protocol.Machine.Conversation.{Arrivals, run, run_keeps}
use fipa_wasm.Protocol.Machine.Log.{
  performatives, performatives-snoc, performatives-nil, last?, last?-snoc,
}
use fipa_wasm.Protocol.Propose.{
  ProposeState, ProposeProtocol, not_started, proposed, accepted, rejected, cancelled,
  validate_transition, advance, process, propose_machine, new,
}

abbrev pub Shape : ProposeState → List (Option Performative) → Type 0
Shape not_started log = log ≡ []
Shape proposed log = log ≡ some propose ∷ []
Shape accepted log = log ≡ some propose ∷ some accept_proposal ∷ []
Shape rejected log = log ≡ some propose ∷ some reject_proposal ∷ []
Shape cancelled log = last? log ≡ some (some cancel)

abbrev pub Shaped : ProposeProtocol → Type 0
Shaped p = Shape p.state (performatives p.base.messages)

advance-Shaped :
    (p : ProposeProtocol) (msg : AclMessage) (perf : Performative) (s : ProposeState)
    → Shaped p
    → read_performative msg ≡ ok perf
    → validate_transition p perf ≡ ok s
    → Shaped (advance msg s p).0
unfolding add_participant validate_transition advance
advance-Shaped p msg perf s h r t = ground (
  arith,
  performatives-snoc p.base.messages msg r,
  last?-snoc (performatives p.base.messages) (some perf),
)

process-Shaped :
    (p : ProposeProtocol) (now : ℤ) (msg : AclMessage) → Shaped p → Shaped (process p now msg).0
unfolding process
process-Shaped p now msg h =
    step_by propose_machine validate_transition (λ q now' msg' perf' s. advance msg' s q) Shaped p
      now msg h λ perf s r t. advance-Shaped p msg perf s h r t

-- After any messages the history fits the state: an accepted or rejected proposal was proposed and
-- then answered so, and no other message was taken; a cancelled one ends with the cancel.
pub propose_run-Shaped :
    (uuid : String) (start : ℤ) (role : Role) (arrivals : Arrivals)
    → Shaped (run propose_machine (new uuid start role) arrivals)
unfolding new
propose_run-Shaped uuid start role arrivals =
    run_keeps propose_machine Shaped process-Shaped (new uuid start role) arrivals performatives-nil

-- The proposal is reported complete only from the proposed state, and the result reported is the
-- content of the message that completes it, with no metadata.
pub propose_process-complete :
    (p : ProposeProtocol) (now : ℤ) (msg : AclMessage) {d : CompletionData}
    → (process p now msg).1 ≡ ok (complete d)
    → (p.state ≡ proposed) × (d ≡ completion (some msg.content))
unfolding process validate_transition advance
propose_process-complete p now msg h = ground arith
