-- ===== src/Protocol/DutchAuction/Prices.antt =====
-- The prices of a Dutch auction over any calls.
use fipa_wasm.Base.{
  String, ◌≡◌, refl, List, [], ◌∷◌, ◌++◌, Option, none, some, arith, Bool, true, false, ◌+◌, ◌%◌,
  ◌^◌, length, length-append, inr, ◌⊎◌,
}
use fipa_wasm.Base.Int.{ℤ}
use fipa_wasm.Float.{Float}
use fipa_wasm.Acl.{AclMessage}
use fipa_wasm.Protocol.Machine.Log.{last?, last?-snoc, last?-cons}
use fipa_wasm.Protocol.DutchAuction.{
  DutchAuctionProtocol, DutchAuctionState, descending, PriceUpdate, is_not_started, start,
  decrease_price, accept_bid, validate_transition, advance, process, is_complete, new_as_auctioneer,
}

-- The calls that an auctioneer makes.
pub data Call : Type 0 where
  open_auction : ℤ → Call
  lower : ℤ → Call
  sell : String → Call
  receive : ℤ → AclMessage → Call

module _ (f : Float) where
  open f use {F64, sub, lt}

  unfoldable pub call : DutchAuctionProtocol f → Call → DutchAuctionProtocol f
  call p (open_auction now) = (start f now p).0
  call p (lower now) = (decrease_price f now p).0
  call p (sell bidder) = (accept_bid f bidder p).0
  call p (receive now msg) = (process f p now msg).0

  unfoldable pub calls : DutchAuctionProtocol f → List Call → DutchAuctionProtocol f
  calls p [] = p
  calls p (c ∷ cs) = calls (call p c) cs

  abbrev price_of : Option (PriceUpdate f) → F64 → F64
  price_of none price = price
  price_of (some u) price = u.price

  -- Each announced price is one decrement below the one before it, and not below the reserve.
  abbrev pub Descends : F64 → F64 → F64 → List (PriceUpdate f) → Type 0
  Descends above decrement reserve [] = Unit {0}
  Descends above decrement reserve (u ∷ us) =
      (u.price ≡ sub above decrement)
      × (lt u.price reserve ≡ false)
      × Descends u.price decrement reserve us

  -- The first may be the starting price itself.
  abbrev pub Announced : F64 → F64 → F64 → List (PriceUpdate f) → Type 0
  Announced starting decrement reserve [] = Unit {0}
  Announced starting decrement reserve (u ∷ us) =
      ((u.price ≡ starting) ⊎ ((u.price ≡ sub starting decrement) × (lt u.price reserve ≡ false)))
      × Descends u.price decrement reserve us

  abbrev pub Sold : Option F64 → Option String → F64 → Bool → Type 0
  Sold none winner price closed = Unit {0}
  Sold (some x) none price closed = ⊥
  Sold (some x) (some w) price closed = (x ≡ price) × (closed ≡ true)

  pub record IsSound (p : DutchAuctionProtocol f) : Type 0 where
    pub fresh : is_not_started f p.state ≡ true → p.price_history ≡ []
    pub announced : Announced p.starting_price p.price_decrement p.reserve_price p.price_history
    pub current : p.current_price ≡ price_of (last? p.price_history) p.starting_price
    pub counted : p.current_round ≡ length p.price_history % 2 ^ 32
    pub sale : Sold p.sale_price p.winner p.current_price (is_complete f p)

  -- A sale by `accept_bid`: to whom, and at which price.
  abbrev pub Sale : Type 0
  Sale = Option (String × F64)

  -- A bid is accepted while the prices descend, at the current one.
  abbrev sale_in : DutchAuctionState → String → F64 → Sale → Sale
  sale_in descending bidder price before = some (bidder, price)
  sale_in state bidder price before = before

  abbrev pub sale_by : DutchAuctionProtocol f → Sale → Call → Sale
  sale_by p before (sell bidder) = sale_in p.state bidder p.current_price before
  sale_by p before c = before

  abbrev pub sale_of : DutchAuctionProtocol f → Sale → List Call → Sale
  sale_of p before [] = before
  sale_of p before (c ∷ cs) = sale_of (call p c) (sale_by p before c) cs

  -- The auction has recorded the sale and is over, and has no price where there was none.
  abbrev pub Records : DutchAuctionProtocol f → Sale → Type 0
  Records p none = p.sale_price ≡ none
  Records p (some (bidder, price)) =
      (p.winner ≡ some bidder) × (p.sale_price ≡ some price) × (is_complete f p ≡ true)

  Descends-snoc :
      (above decrement reserve : F64) (us : List (PriceUpdate f)) (u : PriceUpdate f)
      → Descends above decrement reserve us
      → u.price ≡ sub (price_of (last? us) above) decrement
      → lt u.price reserve ≡ false
      → Descends above decrement reserve (us ++ u ∷ [])
  unfolding last?
  Descends-snoc above decrement reserve [] u d e h = (e, h, tt)
  Descends-snoc above decrement reserve (c ∷ []) u d e h = (d.0, d.1, (e, h, tt))
  Descends-snoc above decrement reserve (c ∷ (c' ∷ cs)) u d e h =
      let (y, l) = last?-cons c' cs in
      (d.0, d.1, Descends-snoc c.price decrement reserve (c' ∷ cs) u d.2 (rw l (rw l at e)) h)

  Announced-snoc :
      (starting decrement reserve : F64) (us : List (PriceUpdate f)) (u : PriceUpdate f)
      → Announced starting decrement reserve us
      → u.price ≡ sub (price_of (last? us) starting) decrement
      → lt u.price reserve ≡ false
      → Announced starting decrement reserve (us ++ u ∷ [])
  unfolding last?
  Announced-snoc starting decrement reserve [] u a e h = (inr (e, h), tt)
  Announced-snoc starting decrement reserve (c ∷ []) u a e h = (a.0, (e, h, tt))
  Announced-snoc starting decrement reserve (c ∷ (c' ∷ cs)) u a e h =
      let (y, l) = last?-cons c' cs in
      (a.0, Descends-snoc c.price decrement reserve (c' ∷ cs) u a.1 (rw l (rw l at e)) h)

  start-IsSound : (p : DutchAuctionProtocol f) (now : ℤ) → IsSound p → IsSound (start f now p).0
  unfolding start is_complete last?
  start-IsSound p now v = ground arith

  decrease_price-IsSound :
      (p : DutchAuctionProtocol f) (now : ℤ) → IsSound p → IsSound (decrease_price f now p).0
  unfolding decrease_price is_complete
  decrease_price-IsSound p now v =
      let next : PriceUpdate f = record {
        price = sub p.current_price p.price_decrement;
        round = (p.current_round + 1) % 2 ^ 32;
        timestamp = now;
      } in
      ground (
        arith,
        Announced-snoc p.starting_price p.price_decrement p.reserve_price p.price_history next
            v.announced,
        last?-snoc p.price_history next,
        length-append p.price_history (next ∷ []),
      )

  accept_bid-IsSound :
      (p : DutchAuctionProtocol f) (bidder : String) → IsSound p → IsSound (accept_bid f bidder p).0
  unfolding accept_bid is_complete
  accept_bid-IsSound p bidder v = ground arith

  process-IsSound :
      (p : DutchAuctionProtocol f) (now : ℤ) (msg : AclMessage)
      → IsSound p
      → IsSound (process f p now msg).0
  unfolding process validate_transition advance is_complete
  process-IsSound p now msg v = ground arith

  call-IsSound : (p : DutchAuctionProtocol f) (c : Call) → IsSound p → IsSound (call p c)
  unfolding call
  call-IsSound p (open_auction now) v = start-IsSound p now v
  call-IsSound p (lower now) v = decrease_price-IsSound p now v
  call-IsSound p (sell bidder) v = accept_bid-IsSound p bidder v
  call-IsSound p (receive now msg) v = process-IsSound p now msg v

  calls-IsSound : (p : DutchAuctionProtocol f) (cs : List Call) → IsSound p → IsSound (calls p cs)
  unfolding calls
  calls-IsSound p [] v = v
  calls-IsSound p (c ∷ cs) v = calls-IsSound (call p c) cs (call-IsSound p c v)

  accept_bid-Records :
      (p : DutchAuctionProtocol f) (bidder : String) (before : Sale)
      → Records p before
      → Records (accept_bid f bidder p).0 (sale_in p.state bidder p.current_price before)
  unfolding accept_bid is_complete
  accept_bid-Records p bidder none v = ground arith
  accept_bid-Records p bidder (some (b, x)) v = ground arith

  call-Records :
      (p : DutchAuctionProtocol f) (c : Call) (before : Sale)
      → Records p before
      → Records (call p c) (sale_by p before c)
  unfolding call start decrease_price process validate_transition advance is_complete
  call-Records p (open_auction now) none v = ground arith
  call-Records p (lower now) none v = ground arith
  call-Records p (receive now msg) none v = ground arith
  call-Records p (open_auction now) (some (b, x)) v = ground arith
  call-Records p (lower now) (some (b, x)) v = ground arith
  call-Records p (receive now msg) (some (b, x)) v = ground arith
  call-Records p (sell bidder) before v = accept_bid-Records p bidder before v

  calls-Records :
      (p : DutchAuctionProtocol f) (cs : List Call) (before : Sale)
      → Records p before
      → Records (calls p cs) (sale_of p before cs)
  unfolding calls
  calls-Records p [] before v = v
  calls-Records p (c ∷ cs) before v = calls-Records (call p c) cs _ (call-Records p c before v)

  -- Over any calls and messages: a machine that has not started has no prices; the first price is the
  -- starting price, or one decrement below it and not below the reserve; each later price is one
  -- decrement below the one before and not below the reserve; the current price is the last announced,
  -- or the starting price; the round is the number of prices, modulo 2^32; a sale
  -- that is recorded has a winner, is at the current price, and is over; and and a bid
  -- that is accepted while the prices descend is recorded with its bidder and the current price and
  -- stays so, the auction being over, while without one no price is recorded.
  pub dutch_auction-IsSound :
      (starting_price reserve_price decrement : F64) (uuid : String) (now : ℤ) (cs : List Call)
      → let p = new_as_auctioneer f starting_price reserve_price decrement uuid now in
        IsSound (calls p cs) × Records (calls p cs) (sale_of p none cs)
  unfolding new_as_auctioneer last?
  dutch_auction-IsSound starting_price reserve_price decrement uuid now cs =
      (calls-IsSound _ cs (ground arith), calls-Records _ cs none refl)
