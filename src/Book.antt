-- ===== src/Book.antt =====
-- The declarations of src/book/order_book.hpp that both books share: the events that a
-- BookListener receives, results and snapshots. The calls of the listener are a log, oldest first.
-- `Fill` is what a matching loop carries from one execution to the next.
pub mod Priority
pub mod Reference
use nasdaq_matching_engine.Common.{
  ℕ, ◌-◌, Bool, true, false, List, [], ◌∷◌, ◌++◌, ltb, if◌then◌else◌,
}
use nasdaq_matching_engine.Common.Int.{le?, lt?}
use nasdaq_matching_engine.Common.Words.{add32, add64}
use nasdaq_matching_engine.Types.{Price, Qty, OrderId, Side, buy, sell}

pub data Event : Type 0 where
  added : OrderId → Side → Price → Qty → Event
  -- resting order, aggressor, its side, price, quantity, match number
  executed : OrderId → OrderId → Side → Price → Qty → ℕ → Event
  canceled : OrderId → Qty → Bool → Event
  replaced : OrderId → OrderId → Side → Price → Qty → Event

pub data AddStatus : Type 0 where
  ok duplicate_id bad_price bad_qty : AddStatus

pub record AddResult : Type 0 where
  pub status : AddStatus
  pub filled : Qty
  pub resting : Qty

pub record SnapshotOrder : Type 0 where
  pub id : OrderId
  pub qty : Qty

pub record SnapshotLevel : Type 0 where
  pub price : Price
  pub orders : List SnapshotOrder

pub record BookSnapshot : Type 0 where
  pub bids : List SnapshotLevel
  pub asks : List SnapshotLevel

pub record Order : Type 0 where
  pub id : OrderId
  pub side : Side
  pub price : Price
  pub open_qty : Qty

abbrev pub crosses : Side → Price → Price → Bool
crosses buy limit resting = le? resting limit
crosses sell limit resting = le? limit resting

-- The order of the maps' keys: std::greater for the bids, std::less for the asks.
abbrev pub better : Side → Price → Price → Bool
better buy p q = lt? q p
better sell p q = lt? p q

abbrev pub opposite : Side → Side
opposite buy = sell
opposite sell = buy

pub record Fill : Type 0 where
  pub qty : Qty
  pub filled : Qty
  pub next_match_id : ℕ
  pub log : List Event

abbrev pub exec_qty : Qty → Qty → Qty
exec_qty qty open_qty = if ltb qty open_qty then qty else open_qty

-- One execution against the resting order. `exec_qty` is at most both quantities, so neither
-- subtraction wraps.
unfoldable pub execute : OrderId → Side → Order → Fill → Fill
execute id side resting f =
    let exec = exec_qty f.qty resting.open_qty in
    record {
      qty = f.qty - exec;
      filled = add32 f.filled exec;
      next_match_id = add64 f.next_match_id 1;
      log = f.log ++ executed resting.id id side resting.price exec f.next_match_id ∷ [];
    }

abbrev pub left_open : Fill → Order → Order
left_open f resting = record resting {
  open_qty = resting.open_qty - exec_qty f.qty resting.open_qty;
}
