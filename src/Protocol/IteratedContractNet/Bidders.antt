-- ===== src/Protocol/IteratedContractNet/Bidders.antt =====
-- Whose proposal an iterated negotiation accepts.
use fipa_wasm.Base.{
  ◌⊎◌, inl, inr, String, ℕ, ◌≡◌, ◌≢◌, refl, sym, ◌∙◌, List, [], ◌∷◌, Option, none, some, arith,
  Bool, true, false, ◌=s=◌, eq_iff, if◌then◌else◌,
}
use fipa_wasm.Base.Int.{ℤ}
use fipa_wasm.Base.Result.{Result, ok, err}
use fipa_wasm.Protocol.{ProtocolError}
use fipa_wasm.Base.Dict.{Dict, HashOrder, get, insert, get-insert, contains_key-get}
use fipa_wasm.Acl.{AgentId, AclMessage, Performative, cfp, propose}
use fipa_wasm.Protocol.Machine.Laws.{step_by}
use fipa_wasm.Protocol.ContractNet.{Proposal}
use fipa_wasm.Protocol.IteratedContractNet.{
  IteratedContractNetState, IteratedContractNetProtocol, evaluating, validate_transition, advance,
  store, store_cfp, store_proposal, is_not_started, next_round, process,
  iterated_contract_net_machine, new_as_initiator,
}
use fipa_wasm.Protocol.IteratedContractNet.Calls.{
  start_round, add_proposal, start_evaluation, request_revision, accept, record_result,
}
use fipa_wasm.Protocol.IteratedContractNet.Rounds.{
  Call, start, add, evaluate, revise, choose, finish, receive, call, calls,
}

-- Each proposal is filed under the name of its bidder.
record IsFiled (m : Dict Proposal) : Type 0 where
  filed : (k : String) (q : Proposal) → get k m ≡ some q → q.bidder.name ≡ k

none-IsFiled : IsFiled []
unfolding get
none-IsFiled = record { filed = λ k q f. absurd (cc (f)) }

insert-IsFiled : (q : Proposal) (m : Dict Proposal) → IsFiled m → IsFiled (insert q.bidder.name q m)
insert-IsFiled q m v = record {
  filed = λ k r f. read k r (q.bidder.name =s= k) refl (sym (get-insert q.bidder.name k q m) ∙ f);
}
  where
    read :
        (k : String) (r : Proposal) (hit : Bool)
        → (q.bidder.name =s= k) ≡ hit
        → (if hit then some q else get k m) ≡ some r
        → r.bidder.name ≡ k
    read k r true same e = cc (e, (eq_iff q.bidder.name k).0 same)
    read k r false other e = v.filed k r e

store_cfp-IsFiled :
    (p : IteratedContractNetProtocol) (fresh : Bool)
    → IsFiled p.current_proposals
    → IsFiled
        (if fresh then record p { current_round = 1 } else record p {
          current_round = next_round p.current_round;
          current_proposals = [];
        }).current_proposals
store_cfp-IsFiled p true v = v
store_cfp-IsFiled p false v = none-IsFiled

store_proposal-IsFiled :
    (sender : Option AgentId) (now : ℤ) (msg : AclMessage) (p : IteratedContractNetProtocol)
    → IsFiled p.current_proposals
    → IsFiled (store_proposal sender now msg p).current_proposals
unfolding store_proposal
store_proposal-IsFiled none now msg p v = v
store_proposal-IsFiled (some sender) now msg p v = insert-IsFiled _ p.current_proposals v

store-IsFiled :
    (perf : Performative) (now : ℤ) (msg : AclMessage) (p : IteratedContractNetProtocol)
    → IsFiled p.current_proposals
    → IsFiled (store perf now msg p).current_proposals
unfolding store store_cfp
store-IsFiled cfp now msg p v = store_cfp-IsFiled p (is_not_started p.state) v
store-IsFiled propose now msg p v = store_proposal-IsFiled msg.sender now msg p v
store-IsFiled perf now msg p v = v

call-IsFiled :
    (h : HashOrder) (p : IteratedContractNetProtocol) (c : Call)
    → IsFiled p.current_proposals
    → IsFiled (call h p c).current_proposals
unfolding call start_round add_proposal start_evaluation request_revision accept record_result
    process advance
call-IsFiled h p (start now content) v = ground (arith, none-IsFiled)
call-IsFiled h p (add proposal) v = ground (arith, insert-IsFiled proposal p.current_proposals v)
call-IsFiled h p evaluate v = ground arith
call-IsFiled h p revise v = ground arith
call-IsFiled h p (choose proposer) v = ground arith
call-IsFiled h p (finish result) v = ground arith
call-IsFiled h p (receive now msg) v =
    step_by iterated_contract_net_machine validate_transition
      (λ q now' msg' perf' s. advance now' msg' perf' s q)
      (λ (q : IteratedContractNetProtocol). IsFiled q.current_proposals) p now msg v
      λ perf s r t. store-IsFiled perf now msg _ v

calls-IsFiled :
    (h : HashOrder) (p : IteratedContractNetProtocol) (cs : List Call)
    → IsFiled p.current_proposals
    → IsFiled (calls h p cs).current_proposals
unfolding calls
calls-IsFiled h p [] v = v
calls-IsFiled h p (c ∷ cs) v = calls-IsFiled h (call h p c) cs (call-IsFiled h p c v)

-- The answer of `accept_proposal`: the proposal is one that was being evaluated, and its bidder is the
-- selected contractor; or nothing is changed, and no proposal of the agent was being evaluated.
abbrev pub IsAnswer :
    String
    → IteratedContractNetProtocol
    → IteratedContractNetProtocol
    → Result ProtocolError (Option Proposal)
    → Type 0
IsAnswer proposer p q (ok (some x)) =
    (p.state ≡ evaluating)
    × (get proposer p.current_proposals ≡ some x)
    × (x.bidder.name ≡ proposer)
    × (q.selected_contractor ≡ some proposer)
IsAnswer proposer p q (ok none) = ⊥
IsAnswer proposer p q (err e) =
    (q ≡ p) × ((p.state ≢ evaluating) ⊎ (get proposer p.current_proposals ≡ none))

accept-IsAnswer :
    (proposer : String) (p : IteratedContractNetProtocol)
    → IsFiled p.current_proposals
    → IsAnswer proposer p (accept proposer p).0 (accept proposer p).1
unfolding accept
accept-IsAnswer proposer p v = by p.state refl (get proposer p.current_proposals) refl
  where
    by :
        (s : IteratedContractNetState)
        → p.state ≡ s
        → (o : Option Proposal) → get proposer p.current_proposals ≡ o
        → IsAnswer proposer p (accept proposer p).0 (accept proposer p).1
    by evaluating e (some x) g =
        rw (e, contains_key-get proposer p.current_proposals, g)
          (refl, g, v.filed proposer x g, refl)
    by evaluating e none g = rw (e, contains_key-get proposer p.current_proposals, g) (refl, inr g)
    by s e o g = rw e (refl, inl (λ q. cc (q)))

-- After any calls and messages, accepting a proposal never panics: it returns a proposal that was being
-- evaluated and is that of the agent named, who is then the selected contractor; or it is refused and
-- changes nothing, since nothing is being evaluated or the agent has made no proposal.
pub accept_never_panics :
    (h : HashOrder) (max_rounds : ℕ) (uuid : String) (now : ℤ) (cs : List Call) (proposer : String)
    → let p = calls h (new_as_initiator max_rounds uuid now) cs in
      IsAnswer proposer p (accept proposer p).0 (accept proposer p).1
unfolding new_as_initiator
accept_never_panics h max_rounds uuid now cs proposer =
    accept-IsAnswer proposer (calls h (new_as_initiator max_rounds uuid now) cs)
      (calls-IsFiled h _ cs none-IsFiled)
