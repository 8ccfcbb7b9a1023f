-- ===== src/Protocol/EnglishAuction.antt =====
-- crates/fipa-wasm-agents/src/protocol/english_auction.rs. The type of amounts is the parameter `f`;
-- the JSON of a bid is made by serde_json, here the argument `bid_json`.
pub mod Laws
pub mod Bids
pub mod Messages
use fipa_wasm.Base.{
  ℕ, String, List, [], ◌∷◌, ◌++◌, Option, none, some, Bool, true, false, codes, map, if◌then◌else◌,
  not,
}
use fipa_wasm.Base.Int.{ℤ}
use fipa_wasm.Base.Result.{Result, ok, err, ◌>>=◌}
use fipa_wasm.Base.Dict.{Dict, insert}
use fipa_wasm.Acl.{
  AgentId, AclMessage, Performative, accept_proposal, cancel, failure, inform, propose,
  reject_proposal, protocol_english_auction,
}
use fipa_wasm.Protocol.{
  ProtocolError, invalid_transition, ProcessResult, continue, complete, completion,
  ConversationBase, initiator, participant, new_base, record_message, read_performative,
  no_transition,
}
use fipa_wasm.Protocol.Machine.{StateMachine, try}
use mathlib.Core.Option
use fipa_wasm.Float.{Float}

pub data EnglishAuctionState : Type 0 where
  not_started announced bidding closing completed failed cancelled : EnglishAuctionState

unfoldable pub as_str : EnglishAuctionState → String
as_str not_started = "not_started"
as_str announced = "announced"
as_str bidding = "bidding"
as_str closing = "closing"
as_str completed = "completed"
as_str failed = "failed"
as_str cancelled = "cancelled"

module _ (f : Float) where
  open f use {F64, zero, add, lt}

  pub record Bid : Type 0 where
    pub bidder : String
    pub amount : F64
    pub timestamp : ℤ

  pub record EnglishAuctionProtocol : Type 0 where
    pub state : EnglishAuctionState
    pub base : ConversationBase
    pub item_description : Option (List ℕ)
    pub starting_price : F64
    pub reserve_price : Option F64
    pub bid_increment : F64
    pub current_bid : Option Bid
    pub bid_history : List Bid
    pub bidders : Dict AgentId
    pub winner : Option String

  unfoldable pub new_as_auctioneer : F64 → F64 → String → ℤ → EnglishAuctionProtocol
  new_as_auctioneer starting_price bid_increment uuid now = record {
    state = not_started;
    base = new_base uuid initiator now;
    item_description = none;
    starting_price = starting_price;
    reserve_price = none;
    bid_increment = bid_increment;
    current_bid = none;
    bid_history = [];
    bidders = [];
    winner = none;
  }

  abbrev pub new_as_bidder : String → ℤ → EnglishAuctionProtocol
  new_as_bidder uuid now = record {
    state = not_started;
    base = new_base uuid participant now;
    item_description = none;
    starting_price = zero;
    reserve_price = none;
    bid_increment = zero;
    current_bid = none;
    bid_history = [];
    bidders = [];
    winner = none;
  }

  unfoldable pub with_reserve_price : F64 → EnglishAuctionProtocol → EnglishAuctionProtocol
  with_reserve_price price p = record p { reserve_price = some price }

  abbrev with_item_description : List ℕ → EnglishAuctionProtocol → EnglishAuctionProtocol
  with_item_description desc p = record p { item_description = some desc }

  abbrev with_conversation_id : String → EnglishAuctionProtocol → EnglishAuctionProtocol
  with_conversation_id id p = record p { base = record p.base { conversation_id = id } }

  -- `minimum_bid`, from the three fields that it reads.
  minimum : Option Bid → F64 → F64 → F64
  minimum none starting_price bid_increment = starting_price
  minimum (some b) starting_price bid_increment = add b.amount bid_increment

  pub minimum_bid : EnglishAuctionProtocol → F64
  unfolding minimum
  minimum_bid p = minimum p.current_bid p.starting_price p.bid_increment

  pub register_bidder : AgentId → EnglishAuctionProtocol → EnglishAuctionProtocol
  register_bidder agent p = record p { bidders = insert agent.name agent p.bidders }

  abbrev pub takes_bids : EnglishAuctionState → Bool
  takes_bids announced = true
  takes_bids bidding = true
  takes_bids state = false

  place : Bid → EnglishAuctionProtocol → EnglishAuctionProtocol
  place bid p = record p {
    bid_history = p.bid_history ++ bid ∷ [];
    current_bid = some bid;
    state = bidding;
  }

  unfoldable pub submit_bid :
      String → F64 → ℤ → EnglishAuctionProtocol → EnglishAuctionProtocol × Result ProtocolError Bool
  unfolding minimum_bid place as_str
  submit_bid bidder amount now p =
      if not (takes_bids p.state)
      then (p, err (invalid_transition (as_str p.state) "bid"))
      else if lt amount (minimum_bid p)
      then (p, ok false)
      else (place (record { bidder = bidder; amount = amount; timestamp = now }) p, ok true)

  may_close : EnglishAuctionState → Bool
  may_close bidding = true
  may_close closing = true
  may_close state = false

  below_reserve : Option F64 → Option Bid → Bool
  below_reserve (some reserve) (some bid) = lt bid.amount reserve
  below_reserve reserve bid = false

  award : Option Bid → EnglishAuctionProtocol → EnglishAuctionProtocol
  award none p = record p { state = failed }
  award (some bid) p = record p { winner = some bid.bidder; state = completed }

  unfoldable pub close_auction :
      EnglishAuctionProtocol → EnglishAuctionProtocol × Result ProtocolError (Option Bid)
  unfolding may_close below_reserve award as_str
  close_auction p =
      if not (may_close p.state)
      then (p, err (invalid_transition (as_str p.state) "close"))
      else if below_reserve p.reserve_price p.current_bid
      then (record p { state = failed }, ok none)
      else (award p.current_bid p, ok p.current_bid)

  -- The table of `validate_transition`.
  transition : EnglishAuctionState → Performative → Result ProtocolError EnglishAuctionState
  transition not_started inform = ok announced
  transition announced propose = ok bidding
  transition bidding propose = ok bidding
  transition bidding accept_proposal = ok bidding
  transition bidding reject_proposal = ok bidding
  transition bidding inform = ok completed
  transition announced inform = ok completed
  transition _ failure = ok failed
  transition _ cancel = ok cancelled
  transition state perf = no_transition (as_str state) perf

  -- `self.validate_transition(performative)`
  validate_transition :
      EnglishAuctionProtocol → Performative → Result ProtocolError EnglishAuctionState
  unfolding transition
  validate_transition p perf = transition p.state perf

  unfoldable pub validate : EnglishAuctionProtocol → AclMessage → Result ProtocolError (Unit {0})
  unfolding validate_transition read_performative
  validate p msg = do perf ← read_performative msg; new_state ← validate_transition p perf; ok tt

  describe : EnglishAuctionState → AclMessage → EnglishAuctionProtocol → EnglishAuctionProtocol
  describe not_started msg p = record p { item_description = some msg.content }
  describe state msg p = p

  register_sender : Option AgentId → EnglishAuctionProtocol → EnglishAuctionProtocol
  unfolding register_bidder
  register_sender none p = p
  register_sender (some sender) p = register_bidder sender p

  -- `match performative`: what the message leaves in the conversation.
  store : Performative → AclMessage → EnglishAuctionProtocol → EnglishAuctionProtocol
  unfolding describe register_sender
  store inform msg p = describe p.state msg p
  store propose msg p = register_sender msg.sender p
  store perf msg p = p

  -- The final `match &self.state`.
  outcome : (Bid → List ℕ) → EnglishAuctionProtocol → EnglishAuctionState → ProcessResult
  outcome bid_json p completed = complete (completion (Option.map bid_json p.current_bid))
  outcome bid_json p failed = ProcessResult.failed "Auction failed"
  outcome bid_json p cancelled = ProcessResult.failed "Auction cancelled"
  outcome bid_json p state = continue

  -- `process` after the transition was found.
  advance :
      (Bid → List ℕ)
      → AclMessage
      → Performative
      → EnglishAuctionState
      → EnglishAuctionProtocol
      → EnglishAuctionProtocol × Result ProtocolError ProcessResult
  unfolding store outcome
  advance bid_json msg perf new_state p =
      let q = store perf msg (record p { base = record_message msg p.base }) in
      let r = record q { state = new_state } in (r, ok (outcome bid_json r r.state))

  unfoldable pub process :
      (Bid → List ℕ)
      → EnglishAuctionProtocol
      → ℤ
      → AclMessage
      → EnglishAuctionProtocol × Result ProtocolError ProcessResult
  unfolding read_performative validate_transition advance
  process bid_json p now msg =
      try p (read_performative msg) λ perf.
        try p (validate_transition p perf) λ new_state. advance bid_json msg perf new_state p

  terminal : EnglishAuctionState → Bool
  terminal completed = true
  terminal failed = true
  terminal cancelled = true
  terminal state = false

  unfoldable pub is_complete : EnglishAuctionProtocol → Bool
  unfolding terminal
  is_complete p = terminal p.state

  unsuccessful : EnglishAuctionState → Bool
  unsuccessful failed = true
  unsuccessful cancelled = true
  unsuccessful state = false

  unfoldable pub is_failed : EnglishAuctionProtocol → Bool
  unfolding unsuccessful
  is_failed p = unsuccessful p.state

  expected : EnglishAuctionState → List Performative
  expected not_started = inform ∷ []
  expected announced = propose ∷ inform ∷ cancel ∷ []
  expected bidding = propose ∷ accept_proposal ∷ reject_proposal ∷ inform ∷ cancel ∷ []
  expected closing = inform ∷ cancel ∷ []
  expected state = []

  unfoldable pub expected_performatives : EnglishAuctionProtocol → List Performative
  unfolding expected
  expected_performatives p = expected p.state

  abbrev pub serialize_state : EnglishAuctionProtocol → Result ProtocolError (List ℕ)
  unfolding as_str
  serialize_state p = ok (codes (as_str p.state))

  -- The `impl ProtocolStateMachine`.
  abbrev pub english_auction_machine : (Bid → List ℕ) → StateMachine
  english_auction_machine bid_json = record {
    Self = EnglishAuctionProtocol;
    protocol_type = λ p. protocol_english_auction;
    state_name = λ p. as_str p.state;
    validate = validate;
    process = process bid_json;
    is_complete = is_complete;
    is_failed = is_failed;
    expected_performatives = expected_performatives;
    serialize_state = serialize_state;
    message_history = λ p. p.base.messages;
  }
