-- ===== src/Protocol/DutchAuction.antt =====
-- crates/fipa-wasm-agents/src/protocol/dutch_auction.rs. The type of prices is the parameter `f`.
-- Rounds are `u32` numbers, whose `+= 1` wraps in a release build.
pub mod Laws
pub mod Prices
pub mod Messages
use fipa_wasm.Base.{
  ℕ, String, List, [], ◌∷◌, ◌++◌, Option, none, some, Bool, true, false, codes, ◌+◌, ◌%◌, ◌^◌, map,
  if◌then◌else◌, not,
}
use fipa_wasm.Base.Int.{ℤ}
use fipa_wasm.Base.Result.{Result, ok, err, ◌>>=◌}
use fipa_wasm.Acl.{
  AgentId, AclMessage, Performative, accept_proposal, cancel, cfp, failure, inform, propose,
  protocol_dutch_auction,
}
use fipa_wasm.Protocol.{
  ProtocolError, invalid_transition, validation_failed, ProcessResult, continue, complete,
  completion, ConversationBase, initiator, participant, new_base, record_message, read_performative,
  no_transition,
}
use fipa_wasm.Protocol.Machine.{StateMachine, try}
use mathlib.Core.Option
use fipa_wasm.Float.{Float}

pub data DutchAuctionState : Type 0 where
  not_started descending bid_received sold unsold cancelled : DutchAuctionState

unfoldable pub as_str : DutchAuctionState → String
as_str not_started = "not_started"
as_str descending = "descending"
as_str bid_received = "bid_received"
as_str sold = "sold"
as_str unsold = "unsold"
as_str cancelled = "cancelled"

module _ (f : Float) where
  open f use {F64, zero, sub, lt, display}

  pub record PriceUpdate : Type 0 where
    pub price : F64
    pub round : ℕ
    pub timestamp : ℤ

  pub record DutchAuctionProtocol : Type 0 where
    pub state : DutchAuctionState
    pub base : ConversationBase
    pub item_description : Option (List ℕ)
    pub starting_price : F64
    pub reserve_price : F64
    pub current_price : F64
    pub price_decrement : F64
    pub current_round : ℕ
    pub price_history : List PriceUpdate
    pub winner : Option String
    pub sale_price : Option F64

  unfoldable pub new_as_auctioneer : F64 → F64 → F64 → String → ℤ → DutchAuctionProtocol
  new_as_auctioneer starting_price reserve_price price_decrement uuid now = record {
    state = not_started;
    base = new_base uuid initiator now;
    item_description = none;
    starting_price = starting_price;
    reserve_price = reserve_price;
    current_price = starting_price;
    price_decrement = price_decrement;
    current_round = 0;
    price_history = [];
    winner = none;
    sale_price = none;
  }

  abbrev pub new_as_bidder : String → ℤ → DutchAuctionProtocol
  new_as_bidder uuid now = record {
    state = not_started;
    base = new_base uuid participant now;
    item_description = none;
    starting_price = zero;
    reserve_price = zero;
    current_price = zero;
    price_decrement = zero;
    current_round = 0;
    price_history = [];
    winner = none;
    sale_price = none;
  }

  abbrev with_item_description : List ℕ → DutchAuctionProtocol → DutchAuctionProtocol
  with_item_description desc p = record p { item_description = some desc }

  abbrev with_conversation_id : String → DutchAuctionProtocol → DutchAuctionProtocol
  with_conversation_id id p = record p { base = record p.base { conversation_id = id } }

  abbrev pub is_not_started : DutchAuctionState → Bool
  is_not_started not_started = true
  is_not_started state = false

  is_descending : DutchAuctionState → Bool
  is_descending descending = true
  is_descending state = false

  -- Sets the price and the round, and notes both in the history.
  announce : F64 → ℕ → ℤ → DutchAuctionProtocol → DutchAuctionProtocol
  announce price round now p = record p {
    current_price = price;
    current_round = round;
    price_history =
        p.price_history ++ record { price = price; round = round; timestamp = now } ∷ [];
  }

  unfoldable pub start :
      ℤ → DutchAuctionProtocol → DutchAuctionProtocol × Result ProtocolError (Unit {0})
  unfolding announce as_str
  start now p =
      if is_not_started p.state
      then (record (announce p.starting_price 1 now p) { state = descending }, ok tt)
      else (p, err (invalid_transition (as_str p.state) "start"))

  unfoldable pub decrease_price :
      ℤ → DutchAuctionProtocol → DutchAuctionProtocol × Result ProtocolError F64
  unfolding is_descending announce as_str
  decrease_price now p =
      let new_price = sub p.current_price p.price_decrement in
      if not (is_descending p.state)
      then (p, err (invalid_transition (as_str p.state) "decrease"))
      else if lt new_price p.reserve_price
      then (
        record p { state = unsold },
        err (validation_failed "Reached reserve price without bids"),
      )
      else (announce new_price ((p.current_round + 1) % 2 ^ 32) now p, ok new_price)

  unfoldable pub accept_bid :
      String → DutchAuctionProtocol → DutchAuctionProtocol × Result ProtocolError F64
  unfolding is_descending as_str
  accept_bid bidder p =
      if is_descending p.state
      then (
        record p { winner = some bidder; sale_price = some p.current_price; state = sold },
        ok p.current_price,
      )
      else (p, err (invalid_transition (as_str p.state) "accept_bid"))

  -- The table of `validate_transition`.
  transition : DutchAuctionState → Performative → Result ProtocolError DutchAuctionState
  transition not_started cfp = ok descending
  transition descending cfp = ok descending
  transition descending propose = ok bid_received
  transition bid_received accept_proposal = ok sold
  transition descending inform = ok unsold
  transition sold inform = ok sold
  transition _ failure = ok unsold
  transition _ cancel = ok cancelled
  transition state perf = no_transition (as_str state) perf

  -- `self.validate_transition(performative)`
  validate_transition : DutchAuctionProtocol → Performative → Result ProtocolError DutchAuctionState
  unfolding transition
  validate_transition p perf = transition p.state perf

  unfoldable pub validate : DutchAuctionProtocol → AclMessage → Result ProtocolError (Unit {0})
  unfolding validate_transition read_performative
  validate p msg = do perf ← read_performative msg; new_state ← validate_transition p perf; ok tt

  describe : DutchAuctionState → AclMessage → DutchAuctionProtocol → DutchAuctionProtocol
  describe not_started msg p = record p { item_description = some msg.content }
  describe state msg p = p

  note_bidder : Option AgentId → DutchAuctionProtocol → DutchAuctionProtocol
  note_bidder none p = p
  note_bidder (some sender) p = record p { winner = some sender.name }

  -- `match performative`: what the message leaves in the conversation.
  store : Performative → AclMessage → DutchAuctionProtocol → DutchAuctionProtocol
  unfolding describe note_bidder
  store cfp msg p = describe p.state msg p
  store propose msg p = note_bidder msg.sender p
  store perf msg p = p

  -- The final `match &self.state`.
  outcome : DutchAuctionProtocol → DutchAuctionState → ProcessResult
  outcome p sold = complete (completion (Option.map display p.sale_price))
  outcome p unsold = ProcessResult.failed "No buyer found"
  outcome p cancelled = ProcessResult.failed "Auction cancelled"
  outcome p state = continue

  -- `process` after the transition was found.
  advance :
      AclMessage
      → Performative
      → DutchAuctionState
      → DutchAuctionProtocol
      → DutchAuctionProtocol × Result ProtocolError ProcessResult
  unfolding store outcome
  advance msg perf new_state p =
      let q = store perf msg (record p { base = record_message msg p.base }) in
      let r = record q { state = new_state } in (r, ok (outcome r r.state))

  unfoldable pub process :
      DutchAuctionProtocol
      → ℤ
      → AclMessage
      → DutchAuctionProtocol × Result ProtocolError ProcessResult
  unfolding read_performative validate_transition advance
  process p now msg =
      try p (read_performative msg)
        λ perf. try p (validate_transition p perf) λ new_state. advance msg perf new_state p

  terminal : DutchAuctionState → Bool
  terminal sold = true
  terminal unsold = true
  terminal cancelled = true
  terminal state = false

  unfoldable pub is_complete : DutchAuctionProtocol → Bool
  unfolding terminal
  is_complete p = terminal p.state

  unsuccessful : DutchAuctionState → Bool
  unsuccessful unsold = true
  unsuccessful cancelled = true
  unsuccessful state = false

  unfoldable pub is_failed : DutchAuctionProtocol → Bool
  unfolding unsuccessful
  is_failed p = unsuccessful p.state

  expected : DutchAuctionState → List Performative
  expected not_started = cfp ∷ []
  expected descending = cfp ∷ propose ∷ inform ∷ cancel ∷ []
  expected bid_received = accept_proposal ∷ cancel ∷ []
  expected state = []

  unfoldable pub expected_performatives : DutchAuctionProtocol → List Performative
  unfolding expected
  expected_performatives p = expected p.state

  abbrev pub serialize_state : DutchAuctionProtocol → Result ProtocolError (List ℕ)
  unfolding as_str
  serialize_state p = ok (codes (as_str p.state))

  -- The `impl ProtocolStateMachine`.
  abbrev pub dutch_auction_machine : StateMachine
  dutch_auction_machine = record {
    Self = DutchAuctionProtocol;
    protocol_type = λ p. protocol_dutch_auction;
    state_name = λ p. as_str p.state;
    validate = validate;
    process = process;
    is_complete = is_complete;
    is_failed = is_failed;
    expected_performatives = expected_performatives;
    serialize_state = serialize_state;
    message_history = λ p. p.base.messages;
  }
