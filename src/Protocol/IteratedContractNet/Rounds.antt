-- ===== src/Protocol/IteratedContractNet/Rounds.antt =====
-- The rounds of an iterated negotiation over any calls.
use fipa_wasm.Base.{ℕ, String, ◌≡◌, ◌≢◌, ◌≤◌, ◌<◌, ◌^◌, List, [], ◌∷◌, some, arith, ◌∙◌, ap}
use fipa_wasm.Base.Int.{ℤ}
use fipa_wasm.Base.Result.{ok}
use fipa_wasm.Base.Dict.{HashOrder}
use fipa_wasm.Acl.{AclMessage, Performative, try_from, cfp}
use fipa_wasm.Protocol.{try_from-read}
use fipa_wasm.Protocol.Machine.Laws.{step_by}
use fipa_wasm.Protocol.ContractNet.{Proposal}
use fipa_wasm.Protocol.IteratedContractNet.{
  IteratedContractNetState, IteratedContractNetProtocol, evaluating, revising, validate_transition,
  advance, process, iterated_contract_net_machine, new_as_initiator,
}
use fipa_wasm.Protocol.IteratedContractNet.Calls.{
  start_round, add_proposal, start_evaluation, request_revision, accept, record_result,
}

-- The calls on a negotiation.
pub data Call : Type 0 where
  start : ℤ → List ℕ → Call
  add : Proposal → Call
  evaluate : Call
  revise : Call
  choose : String → Call
  finish : List ℕ → Call
  receive : ℤ → AclMessage → Call

unfoldable pub call : HashOrder → IteratedContractNetProtocol → Call → IteratedContractNetProtocol
call h p (start now content) = (start_round h now content p).0
call h p (add proposal) = (add_proposal proposal p).0
call h p evaluate = (start_evaluation p).0
call h p revise = (request_revision p).0
call h p (choose proposer) = (accept proposer p).0
call h p (finish result) = (record_result result p).0
call h p (receive now msg) = (process p now msg).0

-- The one call that passes over the limit: a new call for proposals that comes as a message while
-- proposals are being evaluated.
abbrev pub IsRecall : IteratedContractNetState → Call → Type 0
IsRecall evaluating (receive now msg) = try_from msg.performative ≡ some cfp
IsRecall state c = ⊥

pub record IsBounded (p : IteratedContractNetProtocol) : Type 0 where
  pub some_round : 1 ≤ p.max_rounds
  pub word : p.max_rounds < 2 ^ 32
  pub within : p.current_round ≤ p.max_rounds
  pub room : p.state ≡ revising → p.current_round < p.max_rounds

advance-IsBounded :
    (p : IteratedContractNetProtocol) (now : ℤ) (msg : AclMessage) (perf : Performative)
    (s : IteratedContractNetState)
    → ((p.state ≡ evaluating) → perf ≢ cfp)
    → IsBounded p
    → validate_transition p perf ≡ ok s
    → IsBounded (advance now msg perf s p).0
unfolding validate_transition advance
advance-IsBounded p now msg perf s n v t = ground arith

start_round-IsBounded :
    (h : HashOrder) (p : IteratedContractNetProtocol) (now : ℤ) (content : List ℕ)
    → IsBounded p
    → IsBounded (start_round h now content p).0
unfolding start_round
start_round-IsBounded h p now content v = ground arith

call-IsBounded :
    (h : HashOrder) (p : IteratedContractNetProtocol) (c : Call)
    → ¬ IsRecall p.state c
    → IsBounded p
    → IsBounded (call h p c)
unfolding call add_proposal start_evaluation request_revision accept record_result process
call-IsBounded h p (start now content) n v = start_round-IsBounded h p now content v
call-IsBounded h p (add proposal) n v = ground arith
call-IsBounded h p evaluate n v = ground arith
call-IsBounded h p revise n v = ground arith
call-IsBounded h p (choose proposer) n v = ground arith
call-IsBounded h p (finish result) n v = ground arith
call-IsBounded h p (receive now msg) n v =
    step_by iterated_contract_net_machine validate_transition
      (λ q now' msg' perf' s. advance now' msg' perf' s q) IsBounded p now msg v
      λ perf s r t.
        advance-IsBounded p now msg perf s (λ e c. n (rw e (try_from-read msg r ∙ ap some c))) v t

-- No call of the list is a recall, in the state in which it comes.
abbrev pub NoRecall : HashOrder → IteratedContractNetProtocol → List Call → Type 0
NoRecall h p [] = Unit {0}
NoRecall h p (c ∷ cs) = (¬ IsRecall p.state c) × NoRecall h (call h p c) cs

unfoldable pub calls :
    HashOrder → IteratedContractNetProtocol → List Call → IteratedContractNetProtocol
calls h p [] = p
calls h p (c ∷ cs) = calls h (call h p c) cs

calls-IsBounded :
    (h : HashOrder) (p : IteratedContractNetProtocol) (cs : List Call)
    → NoRecall h p cs
    → IsBounded p
    → IsBounded (calls h p cs)
unfolding calls
calls-IsBounded h p [] n v = v
calls-IsBounded h p (c ∷ cs) n v =
    calls-IsBounded h (call h p c) cs n.1 (call-IsBounded h p c n.0 v)

-- For a limit of at least one round that fits 32 bits, and any calls and messages among which no cfp
-- message comes while proposals are being evaluated: the round never passes the limit, nor wraps, and
-- where a revision is asked for there is a round left.
pub negotiation-IsBounded :
    (h : HashOrder) (max_rounds : ℕ) (uuid : String) (now : ℤ) (cs : List Call)
    → 1 ≤ max_rounds
    → max_rounds < 2 ^ 32
    → NoRecall h (new_as_initiator max_rounds uuid now) cs
    → IsBounded (calls h (new_as_initiator max_rounds uuid now) cs)
unfolding new_as_initiator
negotiation-IsBounded h max_rounds uuid now cs one word n = calls-IsBounded h _ cs n (ground arith)
