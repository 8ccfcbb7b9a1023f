-- ===== src/Protocol/DutchAuction/Laws.antt =====
-- The Dutch Auction protocol as a lawful state machine.
use fipa_wasm.Base.{refl, arith}
use fipa_wasm.Float.{Float}
use fipa_wasm.Protocol.Machine.Laws.{IsLawful, Recorded, Reported, lawful_by}
use fipa_wasm.Protocol.DutchAuction.{
  dutch_auction_machine, validate_transition, advance, process, validate, is_failed, is_complete,
}

module _ (f : Float) where
  dutch_auction-Recorded :
      Recorded
        (dutch_auction_machine f)
        (validate_transition f)
        (λ p now msg perf s. advance f msg perf s p)
  unfolding validate_transition advance
  dutch_auction-Recorded p now msg perf s t = ground arith

  dutch_auction-Reported :
      Reported
        (dutch_auction_machine f)
        (validate_transition f)
        (λ p now msg perf s. advance f msg perf s p)
  unfolding validate_transition advance is_failed is_complete
  dutch_auction-Reported p now msg perf s t = ground arith

  pub dutch_auction_machine-IsLawful : IsLawful (dutch_auction_machine f)
  unfolding validate process is_failed is_complete
  dutch_auction_machine-IsLawful =
      lawful_by (dutch_auction_machine f) (validate_transition f)
        (λ p now msg perf s. advance f msg perf s p) (λ p msg. refl) (λ p now msg. refl)
        dutch_auction-Recorded dutch_auction-Reported λ p h. ground arith
