-- ===== src/Protocol/DutchAuction/Messages.antt =====
-- A Dutch auction that is driven by messages alone.
use fipa_wasm.Base.{String, ◌≡◌, refl, none, arith}
use fipa_wasm.Base.Int.{ℤ}
use fipa_wasm.Base.Result.{ok}
use fipa_wasm.Float.{Float}
use fipa_wasm.Acl.{AclMessage}
use fipa_wasm.Protocol.{CompletionData, complete, completion}
use fipa_wasm.Protocol.Machine.Conversation.{Arrivals, run, run_keeps}
use fipa_wasm.Protocol.DutchAuction.{
  DutchAuctionProtocol, sold, validate_transition, advance, process, dutch_auction_machine,
  new_as_auctioneer,
}

module _ (f : Float) where
  abbrev NoSale : DutchAuctionProtocol f → Type 0
  NoSale p = p.sale_price ≡ none

  process-NoSale :
      (p : DutchAuctionProtocol f) (now : ℤ) (msg : AclMessage)
      → NoSale p
      → NoSale (process f p now msg).0
  unfolding process validate_transition advance
  process-NoSale p now msg v = ground arith

  complete-NoSale :
      (p : DutchAuctionProtocol f) (now : ℤ) (msg : AclMessage) {d : CompletionData}
      → NoSale p
      → (process f p now msg).1 ≡ ok (complete d)
      → (d ≡ completion none) × ((process f p now msg).0.state ≡ sold)
  unfolding process validate_transition advance
  complete-NoSale p now msg v h = ground arith

  -- An auction that took the given messages, and no call of the auctioneer's own methods.
  abbrev pub messaged : f.F64 → f.F64 → f.F64 → String → ℤ → Arrivals → DutchAuctionProtocol f
  messaged starting_price reserve_price decrement uuid start arrivals =
      run (dutch_auction_machine f)
        (new_as_auctioneer f starting_price reserve_price decrement uuid start) arrivals

  messaged-NoSale :
      (starting_price reserve_price decrement : f.F64) (uuid : String) (start : ℤ)
      (arrivals : Arrivals)
      → NoSale (messaged starting_price reserve_price decrement uuid start arrivals)
  unfolding new_as_auctioneer
  messaged-NoSale starting_price reserve_price decrement uuid start arrivals =
      run_keeps (dutch_auction_machine f) NoSale process-NoSale
        (new_as_auctioneer f starting_price reserve_price decrement uuid start) arrivals refl

  -- An auctioneer that only processes messages sells at no price: whenever `process` reports the auction
  -- complete, it is sold and the result is none.
  pub messages_name_no_price :
      (starting_price reserve_price decrement : f.F64) (uuid : String) (start now : ℤ)
      (arrivals : Arrivals) (msg : AclMessage) {d : CompletionData}
      → (process f (messaged starting_price reserve_price decrement uuid start arrivals) now msg).1
        ≡ ok (complete d)
      → (d ≡ completion none)
        × ((process f
              (messaged starting_price reserve_price decrement uuid start arrivals)
              now
              msg).0.state
            ≡ sold)
  messages_name_no_price starting_price reserve_price decrement uuid start now arrivals msg h =
      complete-NoSale _ now msg
        (messaged-NoSale starting_price reserve_price decrement uuid start arrivals) h
