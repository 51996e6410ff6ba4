-- ===== src/ItchBook/Outcomes.antt =====
-- The outcomes of one call of src/book/order_book.cpp that the mirroring tells apart.
use nasdaq_matching_engine.Common.{◌-◌, ◌≡◌, refl, true, false, List, Option, none, some, ltb}
use nasdaq_matching_engine.Common.Maps.{find}
use nasdaq_matching_engine.Types.{Price, Qty, OrderId, Side, buy, sell}
use nasdaq_matching_engine.Book.{Event, added, Order}
use nasdaq_matching_engine.Book.Priority.{or_else}
use nasdaq_matching_engine.Book.Reference.{
  Level, OrderBook, with_side, match_side, rest, emit, enter, cancel, replace,
}
use nasdaq_matching_engine.Book.Reference.Valid.{IsValid}

pub enter-rests :
    (id : OrderId) (s : Side) (price : Price) (qty : Qty) (r : OrderBook)
    → ltb 0 (qty - (match_side id s price qty r).0.filled) ≡ true
    → (enter id s price qty r).1
      ≡ emit (added id s price (qty - (match_side id s price qty r).0.filled)) (
          rest id s price
            (qty - (match_side id s price qty r).0.filled)
            (match_side id s price qty r).1)
unfolding enter
enter-rests id s price qty r e = rw e refl

pub enter-done :
    (id : OrderId) (s : Side) (price : Price) (qty : Qty) (r : OrderBook)
    → ltb 0 (qty - (match_side id s price qty r).0.filled) ≡ false
    → (enter id s price qty r).1 ≡ (match_side id s price qty r).1
unfolding enter
enter-done id s price qty r e = rw e refl

pub log-with_side : (s : Side) (ls : List Level) (r : OrderBook) → (with_side s ls r).log ≡ r.log
log-with_side buy ls r = refl
log-with_side sell ls r = refl

pub cancel-missing :
    (id : OrderId) (keep : Qty) (r : OrderBook) → find id r.index ≡ none → (cancel id keep r).1 ≡ r
unfolding cancel
cancel-missing id keep r i = rw (cancel, i) refl

pub replace-missing :
    (old new : OrderId) (price : Price) (qty : Qty) (r : OrderBook)
    → find old r.index ≡ none
    → (replace old new price qty r).1 ≡ r
unfolding replace
replace-missing old new price qty r i = rw (replace, i) refl

pub none_both : (x y : Option Order) → or_else x y ≡ none → or_else y x ≡ none
none_both none none h = refl
none_both none (some y) h = cc
none_both (some x) y h = cc

-- The invariant does not speak of the log.
pub unemit-IsValid : (e : Event) (r : OrderBook) → IsValid (emit e r) → IsValid r
unfolding emit
unemit-IsValid e r v = record {
  bid_levels = v.bid_levels;
  ask_levels = v.ask_levels;
  bids_sorted = v.bids_sorted;
  asks_sorted = v.asks_sorted;
  distinct = v.distinct;
  tracked = v.tracked;
  not_crossed = v.not_crossed;
}
