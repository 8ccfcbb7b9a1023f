-- ===== src/Protocol/EnglishAuction/Bids.antt =====
-- The bids of an English auction over any calls: they climb, and only the last can win.
use fipa_wasm.Base.{
  ℕ, String, ◌≡◌, refl, List, [], ◌∷◌, ◌++◌, Option, none, some, arith, Bool, true, false,
}
use fipa_wasm.Base.Int.{ℤ}
use fipa_wasm.Base.Result.{ok}
use fipa_wasm.Float.{Float, IsUnordered, IsIeee}
use fipa_wasm.Acl.{AgentId, AclMessage}
use fipa_wasm.Protocol.Machine.Log.{last?, last?-snoc, last?-cons}
use fipa_wasm.Protocol.EnglishAuction.{
  EnglishAuctionProtocol, Bid, minimum, minimum_bid, takes_bids, submit_bid, close_auction,
  register_bidder, validate_transition, advance, process, is_complete, new_as_auctioneer,
  with_reserve_price,
}

-- The calls that an auctioneer makes.
pub data Call (f : Float) : Type 0 where
  submit : String → f.F64 → ℤ → Call f
  close : Call f
  register : AgentId → Call f
  receive : ℤ → AclMessage → Call f

module _ (f : Float) (bid_json : Bid f → List ℕ) where
  open f use {F64, add, lt}

  unfoldable pub call : EnglishAuctionProtocol f → Call f → EnglishAuctionProtocol f
  call p (submit bidder amount now) = (submit_bid f bidder amount now p).0
  call p close = (close_auction f p).0
  call p (register agent) = register_bidder f agent p
  call p (receive now msg) = (process f bid_json p now msg).0

  unfoldable pub calls : EnglishAuctionProtocol f → List (Call f) → EnglishAuctionProtocol f
  calls p [] = p
  calls p (c ∷ cs) = calls (call p c) cs

  -- Each bid is not below what was asked for when it came.
  abbrev pub Ladder : F64 → F64 → List (Bid f) → Type 0
  Ladder asked increment [] = Unit {0}
  Ladder asked increment (b ∷ bs) =
      (lt b.amount asked ≡ false) × Ladder (add b.amount increment) increment bs

  abbrev pub Met : Option F64 → F64 → Type 0
  Met none amount = Unit {0}
  Met (some reserve) amount = lt amount reserve ≡ false

  abbrev pub Won : Option String → Option (Bid f) → Option F64 → Bool → Type 0
  Won none bid reserve closed = Unit {0}
  Won (some w) none reserve closed = ⊥
  Won (some w) (some bid) reserve closed =
      (bid.bidder ≡ w) × Met reserve bid.amount × (closed ≡ true)

  pub record IsFair (p : EnglishAuctionProtocol f) : Type 0 where
    pub climbing : Ladder p.starting_price p.bid_increment p.bid_history
    pub current : p.current_bid ≡ last? p.bid_history
    pub won : Won p.winner p.current_bid p.reserve_price (is_complete f p)

  Ladder-snoc :
      (asked increment : F64) (bs : List (Bid f)) (b : Bid f)
      → Ladder asked increment bs
      → lt b.amount (minimum f (last? bs) asked increment) ≡ false
      → Ladder asked increment (bs ++ b ∷ [])
  unfolding minimum last?
  Ladder-snoc asked increment [] b l h = (h, tt)
  Ladder-snoc asked increment (c ∷ []) b l h = (l.0, (h, tt))
  Ladder-snoc asked increment (c ∷ (d ∷ ds)) b l h =
      let (y, e) = last?-cons d ds in
      (l.0, Ladder-snoc (add c.amount increment) increment (d ∷ ds) b l.1 (rw e (rw e at h)))

  submit-IsFair :
      (p : EnglishAuctionProtocol f) (bidder : String) (amount : F64) (now : ℤ)
      → IsFair p
      → IsFair (submit_bid f bidder amount now p).0
  unfolding submit_bid is_complete
  submit-IsFair p bidder amount now v = ground (
    arith,
    Ladder-snoc p.starting_price p.bid_increment p.bid_history
        (record { bidder = bidder; amount = amount; timestamp = now }) v.climbing,
    last?-snoc p.bid_history (record { bidder = bidder; amount = amount; timestamp = now }),
  )

  close-IsFair : (p : EnglishAuctionProtocol f) → IsFair p → IsFair (close_auction f p).0
  unfolding close_auction is_complete
  close-IsFair p v = ground arith

  process-IsFair :
      (p : EnglishAuctionProtocol f) (now : ℤ) (msg : AclMessage)
      → IsFair p
      → IsFair (process f bid_json p now msg).0
  unfolding process validate_transition advance is_complete
  process-IsFair p now msg v = ground arith

  call-IsFair : (p : EnglishAuctionProtocol f) (c : Call f) → IsFair p → IsFair (call p c)
  unfolding call register_bidder is_complete
  call-IsFair p (submit bidder amount now) v = submit-IsFair p bidder amount now v
  call-IsFair p close v = close-IsFair p v
  call-IsFair p (register agent) v = ground arith
  call-IsFair p (receive now msg) v = process-IsFair p now msg v

  calls-IsFair :
      (p : EnglishAuctionProtocol f) (cs : List (Call f)) → IsFair p → IsFair (calls p cs)
  unfolding calls
  calls-IsFair p [] v = v
  calls-IsFair p (c ∷ cs) v = calls-IsFair (call p c) cs (call-IsFair p c v)

  -- Over any calls and messages, in an auction with a reserve price: no bid was below the minimum asked
  -- for when it came, the current bid is the last one, and a winner is the current bidder, whose bid is
  -- not below the reserve, in an auction that is over.
  pub english_auction-IsFair :
      (starting_price increment reserve : F64) (uuid : String) (start : ℤ) (cs : List (Call f))
      → IsFair (
          calls
            (with_reserve_price f reserve (new_as_auctioneer f starting_price increment uuid start))
            cs)
  unfolding with_reserve_price new_as_auctioneer last?
  english_auction-IsFair starting_price increment reserve uuid start cs =
      calls-IsFair _ cs (record { climbing = tt; current = refl; won = tt })

  -- Where bids are taken, an amount that is unordered, as NaN is, is accepted, and after it so is a bid of
  -- any amount at all.
  pub unordered_bid_disarms :
      IsIeee f
      → (p : EnglishAuctionProtocol f) (bidder bidder' : String) (amount amount' : F64)
        (now now' : ℤ)
      → takes_bids f p.state ≡ true
      → IsUnordered f amount
      → let q = (submit_bid f bidder amount now p).0 in
        ((submit_bid f bidder amount now p).1 ≡ ok true)
        × ((submit_bid f bidder' amount' now' q).1 ≡ ok true)
  unfolding submit_bid minimum_bid
  unordered_bid_disarms ieee p bidder bidder' amount amount' now now' h u =
      ground (arith, u (minimum_bid f p), ieee.add-unordered amount p.bid_increment u amount')
