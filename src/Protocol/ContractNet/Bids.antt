-- ===== src/Protocol/ContractNet/Bids.antt =====
-- The bids of a Contract Net conversation read off its message log, its results, and its answer.
use mathlib.Core.List.{map-append}
use native.Mathlib.Nat.{ℕ_set}
use fipa_wasm.Base.{
  ℕ, String, ◌≡◌, refl, sym, List, [], ◌∷◌, ◌++◌, append_assoc, append-nil, Option, none, some,
  arith, map, ◌≤◌, length,
}
use fipa_wasm.Base.Int.{ℤ}
use fipa_wasm.Base.Result.{ok}
use fipa_wasm.Base.Dict.{HashOrder, Dict, insert, values-short}
use fipa_wasm.Acl.{AgentId, AclMessage, Performative, try_from, propose}
use fipa_wasm.Protocol.{
  add_participant, read_performative, try_from-read, Role, CompletionData, complete, completion,
}
use fipa_wasm.Protocol.Machine.Laws.{step_by}
use fipa_wasm.Protocol.Machine.Conversation.{Arrivals, run, run_keeps}
use fipa_wasm.Protocol.ContractNet.{
  ContractNetState, ContractNetProtocol, Proposal, completed, in_execution, validate_transition,
  advance, process, contract_net_machine, new,
}

abbrev pub Bid : Type 0
Bid = AgentId × List ℕ

abbrev bid_of : Option Performative → Option AgentId → List ℕ → List Bid
bid_of (some propose) (some sender) content = (sender, content) ∷ []
bid_of perf sender content = []

-- The signed `propose` messages of a log, in order.
pub bids : List AclMessage → List Bid
bids [] = []
bids (m ∷ log) = bid_of (try_from m.performative) m.sender m.content ++ bids log

pub offers : List Proposal → List Bid
offers proposals = map (λ (q : Proposal). (q.bidder, q.content)) proposals

bids-snoc :
    (log : List AclMessage) (msg : AclMessage)
    → bids (log ++ msg ∷ []) ≡ bids log ++ bid_of (try_from msg.performative) msg.sender msg.content
unfolding bids
bids-snoc [] msg = append-nil _
bids-snoc (m ∷ log) msg = rw (bids-snoc log msg) (sym (append_assoc _ (bids log) _))

offers-snoc :
    (qs : List Proposal) (q : Proposal)
    → offers (qs ++ q ∷ []) ≡ offers qs ++ (q.bidder, q.content) ∷ []
unfolding offers
offers-snoc qs q = map-append _ qs _

abbrev Idle : ContractNetState → Dict (List ℕ) → Type 0
Idle completed results = length results ≤ 1
Idle state results = results ≡ []

pub record Ledger (p : ContractNetProtocol) : Type 0 where
  pub logged : offers p.proposals ≡ bids p.base.messages
  pub idle : Idle p.state p.results

advance-Ledger :
    (h : HashOrder) (now : ℤ) (p : ContractNetProtocol) (msg : AclMessage) (perf : Performative)
    (s : ContractNetState) (sender : Option AgentId)
    → msg.sender ≡ sender
    → Ledger p
    → read_performative msg ≡ ok perf
    → validate_transition p perf ≡ ok s
    → Ledger (advance h now msg perf s p).0
unfolding add_participant validate_transition advance insert
advance-Ledger h now p msg perf s none e l r t =
    ground
      (arith, try_from-read msg r, bids-snoc p.base.messages msg, append-nil (bids p.base.messages))
advance-Ledger h now p msg perf s (some a) e l r t = ground (
  arith,
  try_from-read msg r,
  bids-snoc p.base.messages msg,
  append-nil (bids p.base.messages),
  offers-snoc p.proposals (record { bidder = a; content = msg.content; received_at = now }),
)

process-Ledger :
    (h : HashOrder) (p : ContractNetProtocol) (now : ℤ) (msg : AclMessage)
    → Ledger p
    → Ledger (process h p now msg).0
unfolding process
process-Ledger h p now msg l =
    step_by (contract_net_machine h) validate_transition
      (λ q now' msg' perf' s. advance h now' msg' perf' s q) Ledger p now msg l
      λ perf s r t. advance-Ledger h now p msg perf s msg.sender refl l r t

-- After any messages, in whatever order the maps are walked, the proposals are the senders and contents
-- of the signed propose messages in the history, in their order, and no result is held but in the
-- completed state, where there is at most one.
pub run-Ledger :
    (h : HashOrder) (uuid : String) (start : ℤ) (role : Role) (arrivals : Arrivals)
    → Ledger (run (contract_net_machine h) (new uuid start role) arrivals)
unfolding new bids offers
run-Ledger h uuid start role arrivals =
    run_keeps (contract_net_machine h) Ledger (process-Ledger h) (new uuid start role) arrivals
      (ground arith)

abbrev pub answer : Option AgentId → List ℕ → Option (List ℕ)
answer none content = none
answer (some sender) content = some content

bytes-set : IsSet (List ℕ)
bytes-set = hlevel ℕ_set

process-complete_from :
    (h : HashOrder) (p : ContractNetProtocol) (now : ℤ) (msg : AclMessage) (sender : Option AgentId)
    {d : CompletionData}
    → msg.sender ≡ sender
    → Ledger p
    → (process h p now msg).1 ≡ ok (complete d)
    → (p.state ≡ in_execution) × (d ≡ completion (answer msg.sender msg.content))
unfolding process validate_transition advance insert
process-complete_from h p now msg none e l c =
    ground (arith, values-short h [] bytes-set (omega arith))
process-complete_from h p now msg (some a) e l c =
    ground (arith, values-short h ((a.name, msg.content) ∷ []) bytes-set (omega arith))

-- Where the ledger holds, the conversation is reported complete only from the execution state, and the
-- result reported is the content of the completing message if it is signed, else none, in whatever
-- order the results are walked.
pub contract_net_process-complete :
    (h : HashOrder) (p : ContractNetProtocol) (now : ℤ) (msg : AclMessage) {d : CompletionData}
    → Ledger p
    → (process h p now msg).1 ≡ ok (complete d)
    → (p.state ≡ in_execution) × (d ≡ completion (answer msg.sender msg.content))
contract_net_process-complete h p now msg l c =
    process-complete_from h p now msg msg.sender refl l c
