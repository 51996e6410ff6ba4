-- ===== src/FastBook/Matching.antt =====
-- The matching loops of src/book/fast_book.cpp. Each round of either loop that goes on frees an
-- order, so the fuel is the size of the pool and one more.
use nasdaq_matching_engine.Common.{
  ℕ, zero, suc, ◌-◌, List, [], ◌∷◌, Option, none, some, ltb, ◌==◌, not, ◌&&◌, if◌then◌else◌, length,
  set,
}
use nasdaq_matching_engine.Common.Words.{add32, sub32}
use nasdaq_matching_engine.Types.{Price, Qty, OrderId, Side}
use nasdaq_matching_engine.Book.{Order, crosses, better, opposite, Fill, execute, exec_qty}
use nasdaq_matching_engine.FlatMap.{FlatMap, erase}
use nasdaq_matching_engine.FastBook.{nil, FOrder, Level, FastBook}
use nasdaq_matching_engine.FastBook.Pool.{cell, unlink}
use nasdaq_matching_engine.FastBook.Levels.{
  Spot, at_tick, in_map, fb_side, with_fb_side, read_level, write_level, price_at, erase_entry,
}
use nasdaq_matching_engine.FastBook.Sides.{ladder_best}

-- A level and the parts of the book that its orders are in.
pub record Consumed : Type 0 where
  pub level : Level
  pub pool : List FOrder
  pub free : List ℕ
  pub index : FlatMap
  pub fill : Fill

abbrev pub order_of : Price → FOrder → Order
order_of price o = record { id = o.id; side = o.side; price = price; open_qty = o.open_qty }

-- An order that is used up leaves the index and its level.
unfoldable pub drop_head : ℕ → OrderId → Consumed → Consumed
drop_head idx id c =
    let (lvl, pool) = unlink idx c.level c.pool in
    record c { level = lvl; pool = pool; free = idx ∷ c.free; index = (erase id c.index).1 }

-- One execution against the first order of the level.
unfoldable pub consume_head : OrderId → Side → Price → Consumed → Consumed
consume_head aggressor side price c =
    let idx = c.level.head in
    let o = cell c.pool idx in
    let exec = exec_qty c.fill.qty o.open_qty in
    let c' : Consumed = record c {
      level = record c.level { total = sub32 c.level.total exec };
      pool = set c.pool idx (record o { open_qty = o.open_qty - exec });
      fill = execute aggressor side (order_of price o) c.fill;
    } in
    if o.open_qty - exec == 0 then drop_head idx o.id c' else c'

unfoldable pub consume_level : ℕ → OrderId → Side → Price → Consumed → Consumed
consume_level zero aggressor side price c = c
consume_level (suc n) aggressor side price c =
    let rest = consume_level n aggressor side price (consume_head aggressor side price c) in
    if ltb 0 c.fill.qty && not (c.level.head == nil) then rest else c

-- The best level of a side: the ladder's or the map's.
unfoldable pub spot_of : Side → Option ℕ → List (Price × Level) → FastBook → Option (Price × Spot)
spot_of side none [] b = none
spot_of side none ((q, l) ∷ ls) b = some (q, in_map side q)
spot_of side (some t) [] b = some (price_at t b, at_tick t)
spot_of side (some t) ((q, l) ∷ ls) b =
    if better side q (price_at t b) then some (q, in_map side q) else some (price_at t b, at_tick t)

unfoldable pub best_spot : Side → FastBook → Option (Price × Spot) × FastBook
best_spot side b = let (t, b') = ladder_best side b in (spot_of side t (fb_side side b') b', b')

-- A fallback level that is used up goes.
unfoldable pub erase_used_up : Spot → Level → FastBook → FastBook
erase_used_up (at_tick t) lvl b = b
erase_used_up (in_map s price) lvl b =
    if lvl.head == nil then with_fb_side s (erase_entry price (fb_side s b)) b else b

-- One round of `match` at the level that it found; `got` is the quantity filled there.
unfoldable pub match_at : OrderId → Side → Price → Spot → Qty → FastBook → Qty × FastBook
match_at id side price spot qty b =
    let start : Fill = record {
      qty = qty;
      filled = 0;
      next_match_id = b.next_match_id;
      log = b.log;
    } in
    let c = consume_level (suc (length b.pool)) id side price (record {
      level = read_level spot b;
      pool = b.pool;
      free = b.free;
      index = b.index;
      fill = start;
    }) in
    (
      c.fill.filled,
      erase_used_up spot c.level (
          write_level spot c.level (record b {
            pool = c.pool;
            free = c.free;
            index = c.index;
            next_match_id = c.fill.next_match_id;
            log = c.fill.log;
          })),
    )

-- The loop of `match`, with the quantity left and the quantity filled.
unfoldable pub match_from : ℕ → OrderId → Side → Price → Qty → Qty → FastBook → Qty × FastBook
match_from zero id side limit qty filled b = (filled, b)
match_from (suc n) id side limit qty filled b =
    let (best, b₁) = best_spot (opposite side) b in
    let next : Price × Spot → Qty × FastBook = λ (price, spot).
      let (got, b₂) = match_at id side price spot qty b₁ in
      match_from n id side limit (qty - got) (add32 filled got) b₂ in
    if not (ltb 0 qty) then (filled, b) else elim best [
      | none ↦ (filled, b₁)
      | some (price, spot) ↦ if crosses side limit price then next (price, spot) else (filled, b₁)
    ]

-- `match` and `execute_ioc`
unfoldable pub match_orders : OrderId → Side → Price → Qty → FastBook → Qty × FastBook
match_orders id side limit qty b = match_from (suc (length b.pool)) id side limit qty 0 b
