-- ===== src/Protocol/EnglishAuction/Laws.antt =====
-- The English Auction protocol as a lawful state machine.
use fipa_wasm.Base.{List, ℕ, refl, arith}
use fipa_wasm.Float.{Float}
use fipa_wasm.Protocol.Machine.Laws.{IsLawful, Recorded, Reported, lawful_by}
use fipa_wasm.Protocol.EnglishAuction.{
  Bid, english_auction_machine, validate_transition, advance, process, validate, is_failed,
  is_complete,
}

module _ (f : Float) (bid_json : Bid f → List ℕ) where
  english_auction-Recorded :
      Recorded
        (english_auction_machine f bid_json)
        (validate_transition f)
        (λ p now msg perf s. advance f bid_json msg perf s p)
  unfolding validate_transition advance
  english_auction-Recorded p now msg perf s t = ground arith

  english_auction-Reported :
      Reported
        (english_auction_machine f bid_json)
        (validate_transition f)
        (λ p now msg perf s. advance f bid_json msg perf s p)
  unfolding validate_transition advance is_failed is_complete
  english_auction-Reported p now msg perf s t = ground arith

  pub english_auction_machine-IsLawful : IsLawful (english_auction_machine f bid_json)
  unfolding validate process is_failed is_complete
  english_auction_machine-IsLawful =
      lawful_by (english_auction_machine f bid_json) (validate_transition f)
        (λ p now msg perf s. advance f bid_json msg perf s p) (λ p msg. refl) (λ p now msg. refl)
        english_auction-Recorded english_auction-Reported λ p h. ground arith
