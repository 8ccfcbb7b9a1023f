-- ===== src/Protocol/EnglishAuction/Messages.antt =====
-- An English auction that is driven by messages alone.
use fipa_wasm.Base.{ℕ, String, ◌≡◌, refl, List, none, arith}
use fipa_wasm.Base.Int.{ℤ}
use fipa_wasm.Base.Result.{ok}
use fipa_wasm.Float.{Float}
use fipa_wasm.Acl.{AclMessage}
use fipa_wasm.Protocol.{CompletionData, complete, completion}
use fipa_wasm.Protocol.Machine.Conversation.{Arrivals, run, run_keeps}
use fipa_wasm.Protocol.EnglishAuction.{
  EnglishAuctionProtocol, Bid, validate_transition, advance, process, english_auction_machine,
  new_as_auctioneer,
}

module _ (f : Float) (bid_json : Bid f → List ℕ) where
  pub record NoBid (p : EnglishAuctionProtocol f) : Type 0 where
    pub no_current : p.current_bid ≡ none
    pub no_winner : p.winner ≡ none

  process-NoBid :
      (p : EnglishAuctionProtocol f) (now : ℤ) (msg : AclMessage)
      → NoBid p
      → NoBid (process f bid_json p now msg).0
  unfolding process validate_transition advance
  process-NoBid p now msg v = ground arith

  complete-NoBid :
      (p : EnglishAuctionProtocol f) (now : ℤ) (msg : AclMessage) {d : CompletionData}
      → NoBid p
      → (process f bid_json p now msg).1 ≡ ok (complete d)
      → d ≡ completion none
  unfolding process validate_transition advance
  complete-NoBid p now msg v h = ground arith

  -- An auction that took the given messages, and no call of the auctioneer's own methods.
  abbrev pub messaged : f.F64 → f.F64 → String → ℤ → Arrivals → EnglishAuctionProtocol f
  messaged starting_price increment uuid start arrivals =
      run (english_auction_machine f bid_json)
        (new_as_auctioneer f starting_price increment uuid start) arrivals

  messaged-NoBid :
      (starting_price increment : f.F64) (uuid : String) (start : ℤ) (arrivals : Arrivals)
      → NoBid (messaged starting_price increment uuid start arrivals)
  unfolding new_as_auctioneer
  messaged-NoBid starting_price increment uuid start arrivals =
      run_keeps (english_auction_machine f bid_json) NoBid process-NoBid
        (new_as_auctioneer f starting_price increment uuid start) arrivals
        (record { no_current = refl; no_winner = refl })

  -- An auctioneer that only processes messages never awards the item: whenever `process` reports the
  -- auction complete, the result is none and there is no winner.
  pub messages_award_nothing :
      (starting_price increment : f.F64) (uuid : String) (start now : ℤ) (arrivals : Arrivals)
      (msg : AclMessage) {d : CompletionData}
      → (process f bid_json (messaged starting_price increment uuid start arrivals) now msg).1
        ≡ ok (complete d)
      → (d ≡ completion none)
        × ((process f bid_json
              (messaged starting_price increment uuid start arrivals)
              now
              msg).0.winner
            ≡ none)
  messages_award_nothing starting_price increment uuid start now arrivals msg h =
      let v = messaged-NoBid starting_price increment uuid start arrivals in
      (complete-NoBid _ now msg v h, (process-NoBid _ now msg v).no_winner)
