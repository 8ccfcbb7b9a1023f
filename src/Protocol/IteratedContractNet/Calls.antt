-- ===== src/Protocol/IteratedContractNet/Calls.antt =====
-- The methods by which an initiator drives a negotiation, in
-- crates/fipa-wasm-agents/src/protocol/iterated_contract_net.rs.
use fipa_wasm.Base.{
  ℕ, String, List, [], ◌∷◌, ◌++◌, Option, some, Bool, true, false, ◌<>◌, is_empty, if◌then◌else◌,
  leb, not,
}
use fipa_wasm.Base.Int.{ℤ}
use fipa_wasm.Base.Result.{Result, ok, err}
use fipa_wasm.Base.Dict.{HashOrder, values, get, insert, contains_key}
use fipa_wasm.Protocol.{ProtocolError, invalid_transition, validation_failed}
use fipa_wasm.Protocol.ContractNet.{Proposal}
use fipa_wasm.Protocol.IteratedContractNet.{
  IteratedContractNetState, not_started, cfp_sent, evaluating, revising, accepted, waiting_result,
  completed, no_agreement, as_str, NegotiationRound, IteratedContractNetProtocol, next_round,
  can_continue,
}

may_start : IteratedContractNetState → Bool
may_start not_started = true
may_start evaluating = true
may_start revising = true
may_start state = false

-- `Save current round if any proposals exist`
save_round : HashOrder → ℤ → List ℕ → IteratedContractNetProtocol → List NegotiationRound
save_round h now cfp_content p =
    if is_empty p.current_proposals
    then p.rounds
    else p.rounds
      ++ record {
        round = p.current_round;
        cfp_content = cfp_content;
        proposals = values h p.current_proposals;
        timestamp = now;
      }
        ∷ []

unfoldable pub start_round :
    HashOrder
    → ℤ
    → List ℕ
    → IteratedContractNetProtocol
    → IteratedContractNetProtocol × Result ProtocolError ℕ
unfolding can_continue may_start save_round as_str
start_round h now cfp_content p =
    if not (can_continue p)
    then (p, err (validation_failed "Maximum rounds reached"))
    else if not (may_start p.state)
    then (p, err (invalid_transition (as_str p.state) "start_round"))
    else (
      record p {
        rounds = save_round h now cfp_content p;
        current_round = next_round p.current_round;
        current_proposals = [];
        state = cfp_sent;
      },
      ok (next_round p.current_round),
    )

is_cfp_sent : IteratedContractNetState → Bool
is_cfp_sent cfp_sent = true
is_cfp_sent state = false

is_evaluating : IteratedContractNetState → Bool
is_evaluating evaluating = true
is_evaluating state = false

unfoldable pub add_proposal :
    Proposal
    → IteratedContractNetProtocol
    → IteratedContractNetProtocol × Result ProtocolError (Unit {0})
unfolding is_cfp_sent as_str
add_proposal proposal p =
    if is_cfp_sent p.state
    then (
      record p { current_proposals = insert proposal.bidder.name proposal p.current_proposals },
      ok tt,
    )
    else (p, err (invalid_transition (as_str p.state) "add_proposal"))

evaluation_state : IteratedContractNetProtocol → IteratedContractNetState
evaluation_state p =
    if is_empty p.current_proposals
    then if leb p.max_rounds p.current_round then no_agreement else revising
    else evaluating

unfoldable pub start_evaluation :
    IteratedContractNetProtocol → IteratedContractNetProtocol × Result ProtocolError (Unit {0})
unfolding is_cfp_sent evaluation_state as_str
start_evaluation p =
    if is_cfp_sent p.state
    then (record p { state = evaluation_state p }, ok tt)
    else (p, err (invalid_transition (as_str p.state) "start_evaluation"))

unfoldable pub request_revision :
    IteratedContractNetProtocol → IteratedContractNetProtocol × Result ProtocolError (Unit {0})
unfolding is_evaluating can_continue as_str
request_revision p =
    if not (is_evaluating p.state)
    then (p, err (invalid_transition (as_str p.state) "request_revision"))
    else if not (can_continue p)
    then (record p { state = no_agreement }, err (validation_failed "Maximum rounds reached"))
    else (record p { state = revising }, ok tt)

-- `accept_proposal`. The result is that of the last `get`, which the source unwraps.
unfoldable pub accept :
    String
    → IteratedContractNetProtocol
    → IteratedContractNetProtocol × Result ProtocolError (Option Proposal)
unfolding is_evaluating as_str
accept proposer p =
    if not (is_evaluating p.state)
    then (p, err (invalid_transition (as_str p.state) "accept_proposal"))
    else if not (contains_key proposer p.current_proposals)
    then (p, err (validation_failed ("No proposal from " <> proposer)))
    else (
      record p { selected_contractor = some proposer; state = accepted },
      ok (get proposer p.current_proposals),
    )

may_record : IteratedContractNetState → Bool
may_record accepted = true
may_record waiting_result = true
may_record state = false

unfoldable pub record_result :
    List ℕ
    → IteratedContractNetProtocol
    → IteratedContractNetProtocol × Result ProtocolError (Unit {0})
unfolding may_record as_str
record_result result p =
    if may_record p.state
    then (record p { result = some result; state = completed }, ok tt)
    else (p, err (invalid_transition (as_str p.state) "record_result"))
