-- ===== src/Protocol/Examples/Auctions.antt =====
-- English and Dutch auctions.
use fipa_wasm.Base.{◌≡◌, refl, [], ◌∷◌, some}
use fipa_wasm.Acl.{inform, as_i32, try_from}
use fipa_wasm.Protocol.Machine.Conversation.{run}
use fipa_wasm.Protocol.Samples.{say, say_all, now, cents}
use fipa_wasm.Protocol.EnglishAuction
use fipa_wasm.Protocol.EnglishAuction.{EnglishAuctionProtocol}
use fipa_wasm.Protocol.EnglishAuction.Bids
use fipa_wasm.Protocol.EnglishAuction.Bids.{english_auction-IsFair, unordered_bid_disarms}
use fipa_wasm.Protocol.DutchAuction
use fipa_wasm.Protocol.DutchAuction.{DutchAuctionProtocol}
use fipa_wasm.Protocol.DutchAuction.Prices
use fipa_wasm.Protocol.DutchAuction.Prices.{dutch_auction-IsSound}

abbrev bidding : EnglishAuctionProtocol cents
bidding =
    Bids.calls cents (λ b. [])
      (EnglishAuction.with_reserve_price cents (some 120)
        (EnglishAuction.new_as_auctioneer cents (some 100) (some 10) "a" now))
      (Bids.receive now (say inform)
        ∷ Bids.submit "bob" (some 100) now
        ∷ Bids.submit "eve" (some 105) now
        ∷ Bids.submit "ann" (some 125) now
        ∷ Bids.close
        ∷ [])

bidding_won_by_ann : bidding.winner ≡ some "ann"
unfolding Bids.calls Bids.call EnglishAuction.with_reserve_price EnglishAuction.new_as_auctioneer
    EnglishAuction.process EnglishAuction.submit_bid EnglishAuction.close_auction try_from as_i32
bidding_won_by_ann = refl

english_auction-IsFair_example : Bids.IsFair cents (λ b. []) bidding
english_auction-IsFair_example =
    english_auction-IsFair cents (λ b. []) (some 100) (some 10) (some 120) "a" now
      (Bids.receive now (say inform)
        ∷ Bids.submit "bob" (some 100) now
        ∷ Bids.submit "eve" (some 105) now
        ∷ Bids.submit "ann" (some 125) now
        ∷ Bids.close
        ∷ [])

abbrev announced : EnglishAuctionProtocol cents
announced =
    run (EnglishAuction.english_auction_machine cents (λ b. []))
      (EnglishAuction.new_as_auctioneer cents (some 100) (some 10) "a" now) (say_all (inform ∷ []))

abbrev lowered : DutchAuctionProtocol cents
lowered =
    Prices.calls cents
      (DutchAuction.new_as_auctioneer cents (some 1000) (some 100) (some 50) "a" now)
      (Prices.open_auction now ∷ Prices.lower now ∷ Prices.lower now ∷ Prices.sell "bob" ∷ [])

lowered_sold_at_900 : lowered.sale_price ≡ some (some 900)
unfolding Prices.calls Prices.call DutchAuction.new_as_auctioneer DutchAuction.start
    DutchAuction.decrease_price DutchAuction.accept_bid
lowered_sold_at_900 = refl

dutch_auction-IsSound_example :
    Prices.IsSound cents lowered × Prices.Records cents lowered (some ("bob", some 900))
unfolding Prices.calls Prices.call DutchAuction.new_as_auctioneer DutchAuction.start
    DutchAuction.decrease_price DutchAuction.accept_bid
dutch_auction-IsSound_example =
    dutch_auction-IsSound cents (some 1000) (some 100) (some 50) "a" now
      (Prices.open_auction now ∷ Prices.lower now ∷ Prices.lower now ∷ Prices.sell "bob" ∷ [])
