-- ===== src/Protocol/Examples/Tasks.antt =====
-- Contract Net, iterated Contract Net, brokering and recruiting.
use fipa_wasm.Base.{List, ◌≡◌, refl, [], ◌∷◌, some, none, arith, codes}
use fipa_wasm.Base.Dict.{insertion_order, insert, contains_key, get}
use fipa_wasm.Acl.{
  cfp, propose, accept_proposal, proxy, request, agree, inform_result, as_i32, try_from,
}
use fipa_wasm.Protocol.{participant, no_transition}
use fipa_wasm.Protocol.Machine.Conversation.{run}
use fipa_wasm.Protocol.Samples.{say, say_all, now, cents, alice}
use fipa_wasm.Protocol.ContractNet
use fipa_wasm.Protocol.ContractNet.{ContractNetProtocol}
use fipa_wasm.Protocol.ContractNet.Bids.{Ledger, run-Ledger}
use fipa_wasm.Protocol.IteratedContractNet
use fipa_wasm.Protocol.IteratedContractNet.{IteratedContractNetProtocol}
use fipa_wasm.Protocol.IteratedContractNet.Calls
use fipa_wasm.Protocol.IteratedContractNet.Rounds
use fipa_wasm.Protocol.IteratedContractNet.Rounds.{negotiation-IsBounded}
use fipa_wasm.Protocol.IteratedContractNet.Bidders.{accept_never_panics}
use fipa_wasm.Protocol.Brokering
use fipa_wasm.Protocol.Brokering.{BrokeringProtocol}
use fipa_wasm.Protocol.Brokering.Consolidation
use fipa_wasm.Protocol.Brokering.Results
use fipa_wasm.Protocol.Brokering.Results.{consolidate-gathers, second_result_refused}
use fipa_wasm.Protocol.Recruiting
use fipa_wasm.Protocol.Recruiting.{RecruitingProtocol}
use fipa_wasm.Protocol.Recruiting.Ranking
use fipa_wasm.Protocol.Recruiting.Ranking.{recruiter-IsShortlist, add_candidate-perm}

abbrev contracted : ContractNetProtocol
contracted =
    run (ContractNet.contract_net_machine insertion_order) (ContractNet.new "c" now participant)
      (say_all (cfp ∷ propose ∷ accept_proposal ∷ []))

run-Ledger_example : Ledger contracted
run-Ledger_example =
    run-Ledger insertion_order "c" now participant (say_all (cfp ∷ propose ∷ accept_proposal ∷ []))

abbrev offer : ContractNet.Proposal
offer = record { bidder = alice; content = codes "10"; received_at = now }

abbrev weighing : IteratedContractNetProtocol
weighing =
    Rounds.calls insertion_order (IteratedContractNet.new_as_initiator 1 "c" now)
      (Rounds.start now (codes "task") ∷ Rounds.add offer ∷ Rounds.evaluate ∷ [])

negotiation-IsBounded_example : Rounds.IsBounded weighing
unfolding IteratedContractNet.new_as_initiator Calls.start_round Rounds.call Calls.add_proposal
negotiation-IsBounded_example =
    negotiation-IsBounded insertion_order 1 "c" now
      (Rounds.start now (codes "task") ∷ Rounds.add offer ∷ Rounds.evaluate ∷ []) (omega arith)
      (omega arith) (λ r. r, (λ r. r, (λ r. r, tt)))

abbrev steps : List Rounds.Call
steps = Rounds.start now (codes "task") ∷ Rounds.add offer ∷ Rounds.evaluate ∷ []

accept_never_panics_example :
    (weighing.state ≡ IteratedContractNet.evaluating)
    × (get "alice" weighing.current_proposals ≡ some offer)
    × (offer.bidder.name ≡ "alice")
    × ((Calls.accept "alice" weighing).0.selected_contractor ≡ some "alice")
unfolding IteratedContractNet.new_as_initiator Calls.start_round Rounds.calls Rounds.call
    Calls.add_proposal Calls.start_evaluation Calls.accept insert contains_key get
accept_never_panics_example = accept_never_panics insertion_order 1 "c" now steps "alice"

abbrev broker : BrokeringProtocol
broker = Brokering.add_provider alice (Brokering.new_as_broker "c" now)

abbrev gathering : BrokeringProtocol
gathering =
    run (Brokering.brokering_machine (λ r. [])) broker (say_all (proxy ∷ request ∷ agree ∷ []))

abbrev gathered : BrokeringProtocol
gathered =
    run (Brokering.brokering_machine (λ r. [])) broker
      (say_all (proxy ∷ request ∷ agree ∷ inform_result ∷ []))

consolidate-gathers_example :
    Results.Gathered ((codes "ok") ∷ []) (Consolidation.consolidate insertion_order gathered)
unfolding run Brokering.new_as_broker Brokering.add_provider Brokering.process Brokering.update
    insert try_from as_i32
consolidate-gathers_example = consolidate-gathers insertion_order gathered

second_result_refused_example :
    let q = (Brokering.process (λ r. []) gathering now (say inform_result)).0 in
    Brokering.process (λ r. []) q now (say inform_result)
    ≡ (q, no_transition "consolidating" inform_result)
unfolding run Brokering.new_as_broker Brokering.add_provider Brokering.process Brokering.update
    insert try_from as_i32
second_result_refused_example =
    second_result_refused (λ r. []) gathering now now (say inform_result) (say inform_result) refl
      refl refl

abbrev recruiter : RecruitingProtocol cents
recruiter =
    Recruiting.with_min_score cents (some 50)
      (Recruiting.with_max_candidates cents 5 (Recruiting.new_as_recruiter cents "c" now))

abbrev good : Ranking.Offer cents
good = record { agent = alice; service = none; score = some 90 }

abbrev poor : Ranking.Offer cents
poor = record { agent = alice; service = none; score = some 30 }

abbrev better : Ranking.Offer cents
better = record { agent = alice; service = none; score = some 95 }

recruiter-IsShortlist_example :
    Ranking.IsShortlist cents (Ranking.add_all cents recruiter (good ∷ poor ∷ better ∷ []))
recruiter-IsShortlist_example =
    recruiter-IsShortlist cents "c" now 5 (some 50) (good ∷ poor ∷ better ∷ [])
