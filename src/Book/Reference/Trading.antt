-- ===== src/Book/Reference/Trading.antt =====
-- `OrderBook::match` of src/book/order_book.cpp: at which prices and in which order it trades.
use nasdaq_matching_engine.Common.{◌+◌, ◌<◌, ◌≡◌, refl, List, ◌++◌, arith}
use nasdaq_matching_engine.Common.Words.{word32}
use nasdaq_matching_engine.Types.{Price, Qty, OrderId, Side, buy, sell}
use nasdaq_matching_engine.Book.{Event, opposite}
use nasdaq_matching_engine.Book.Priority.Filling.{take_front-Conserves}
use nasdaq_matching_engine.Book.Priority.Trading.{Trades, take_front-LogsTrades}
use nasdaq_matching_engine.Book.Reference.{OrderBook, side_of, match_side}
use nasdaq_matching_engine.Book.Reference.Matching.{match_levels-take_front}
use nasdaq_matching_engine.Book.Reference.Entering.{start_fill}
use nasdaq_matching_engine.Book.Reference.Valid.{flatten, IsValid}

-- The match loops on a valid book log executions, and nothing else, and these are the trades of
-- price-time priority with the orders of the other side: from the front on, each order used up before
-- the next, at its price, which the limit allows, with the shares that both have and one match number
-- after another, until nothing is left of the order or the next price is beyond the limit. What the
-- order keeps and what it was filled add up to its quantity, and its own side stays.
pub match_side-Trades :
    (id : OrderId) (s : Side) (limit : Price) (qty : Qty) (b : OrderBook)
    → IsValid b
    → qty < word32
    → let (f, b') = match_side id s limit qty b in
      (es : List Event) × (b'.log ≡ b.log ++ es)
      × Trades id s limit (flatten (side_of (opposite s) b)) qty b.next_match_id (record {
        events = es;
        orders = flatten (side_of (opposite s) b');
        qty = f.qty;
        next_match_id = b'.next_match_id;
      })
      × (f.qty + f.filled ≡ qty)
      × (side_of s b' ≡ side_of s b)
unfolding match_side
match_side-Trades id buy limit qty b v l =
    let e =
      match_levels-take_front id buy sell limit b.asks b.index (start_fill qty b) v.ask_levels in
    let (es, logged, t) = take_front-LogsTrades id buy limit (flatten b.asks) (start_fill qty b) in
    let sum =
      take_front-Conserves id buy limit (flatten b.asks) (start_fill qty b) (omega (arith, l)) in
    (es, rw e at logged, rw e at t, omega (arith, rw e at sum), refl)
match_side-Trades id sell limit qty b v l =
    let e =
      match_levels-take_front id sell buy limit b.bids b.index (start_fill qty b) v.bid_levels in
    let (es, logged, t) = take_front-LogsTrades id sell limit (flatten b.bids) (start_fill qty b) in
    let sum =
      take_front-Conserves id sell limit (flatten b.bids) (start_fill qty b) (omega (arith, l)) in
    (es, rw e at logged, rw e at t, omega (arith, rw e at sum), refl)
