-- ===== src/Book/Reference.antt =====
-- src/book/order_book.cpp, the reference book. A std::map from prices to levels is the list of its
-- entries in the order of its keys, and the index an association list. A list iterator is known by
-- the id of the order that it points at: the index and the levels give the rest.
pub mod Trading
pub mod Valid
pub mod Cases
pub mod Matching
pub mod Levels
pub mod Insertion
pub mod Removal
pub mod Erasing
pub mod Reducing
pub mod Pair
pub mod PairCancel
pub mod Sides
pub mod Entering
pub mod Adding
pub mod Cancelling
pub mod Replacing
pub mod History
pub mod Tracking
use nasdaq_matching_engine.Common.{
  ℕ, zero, suc, ◌-◌, ◌+◌, Bool, true, false, not, ◌||◌, ◌&&◌, List, [], ◌∷◌, ◌++◌, map, Option,
  none, some, ltb, leb, ◌==◌, if◌then◌else◌,
}
use nasdaq_matching_engine.Common.Int.{le?, lt?, eq?, pos}
use nasdaq_matching_engine.Common.Words.{add32, sub32}
use nasdaq_matching_engine.Common.Maps.{find, contains, erase, emplace}
use nasdaq_matching_engine.Types.{Price, Qty, OrderId, Side, buy, sell}
use nasdaq_matching_engine.Book.{
  Event, added, executed, canceled, replaced, AddStatus, ok, duplicate_id, bad_price, bad_qty,
  AddResult, SnapshotOrder, SnapshotLevel, BookSnapshot, Order, crosses, better, opposite, Fill,
  execute, exec_qty, left_open,
}

pub record Level : Type 0 where
  pub price : Price
  pub total : Qty
  pub orders : List Order

pub record Handle : Type 0 where
  pub side : Side
  pub price : Price

abbrev pub Index : Type 0
Index = List (OrderId × Handle)

pub record OrderBook : Type 0 where
  pub bids : List Level
  pub asks : List Level
  pub index : Index
  pub next_match_id : ℕ
  pub log : List Event

abbrev pub side_of : Side → OrderBook → List Level
side_of buy b = b.bids
side_of sell b = b.asks

abbrev pub with_side : Side → List Level → OrderBook → OrderBook
with_side buy ls b = record b { bids = ls }
with_side sell ls b = record b { asks = ls }

-- `level.orders.empty()`
abbrev pub is_empty : Level → Bool
is_empty l = elim l.orders [ [] ↦ true | o ∷ os ↦ false ]

pub record Swept (A : Type 0) : Type 0 where
  pub book : A
  pub index : Index
  pub fill : Fill

-- The inner loop of `match`. An order that is not used up leaves no quantity, and the loop ends.
unfoldable pub consume_level :
    OrderId → Side → Price → Qty → List Order → Index → Fill → Swept Level
consume_level id side price total [] index f = record {
  book = record { price = price; total = total; orders = [] };
  index = index;
  fill = f;
}
consume_level id side price total (o ∷ os) index f =
    let f' = execute id side o f in
    let o' = left_open f o in
    let total' = sub32 total (exec_qty f.qty o.open_qty) in
    let next = consume_level id side price total' os (erase o.id index) f' in
    if f.qty == 0
    then record {
      book = record { price = price; total = total; orders = o ∷ os };
      index = index;
      fill = f;
    }
    else if o'.open_qty == 0
    then next
    else record {
      book = record { price = price; total = total'; orders = o' ∷ os };
      index = index;
      fill = f';
    }

-- The outer loop. A level that is not used up leaves no quantity, and the loop ends.
unfoldable pub match_levels :
    OrderId → Side → Price → List Level → Index → Fill → Swept (List Level)
match_levels id side limit [] index f = record { book = []; index = index; fill = f }
match_levels id side limit (l ∷ ls) index f =
    let s = consume_level id side l.price l.total l.orders index f in
    let next = match_levels id side limit ls s.index s.fill in
    if f.qty == 0 || not (crosses side limit l.price)
    then record { book = l ∷ ls; index = index; fill = f }
    else if is_empty s.book
    then next
    else record { book = s.book ∷ ls; index = s.index; fill = s.fill }

-- `match(asks_, …)` or `match(bids_, …)`, by the side.
unfoldable pub match_side : OrderId → Side → Price → Qty → OrderBook → Fill × OrderBook
match_side id side limit qty b =
    let start : Fill = record {
      qty = qty;
      filled = 0;
      next_match_id = b.next_match_id;
      log = b.log;
    } in
    let s = match_levels id side limit (side_of (opposite side) b) b.index start in
    (
      s.fill,
      record (with_side (opposite side) s.book b) {
        index = s.index;
        next_match_id = s.fill.next_match_id;
        log = s.fill.log;
      },
    )

unfoldable pub push_back : Order → Level → Level
push_back o l = record l { total = add32 l.total o.open_qty; orders = l.orders ++ o ∷ [] }

-- `map[price]`, which adds an empty level where there is none, and `push_back`.
unfoldable pub push_order : Side → Order → List Level → List Level
unfolding push_back
push_order s o [] = push_back o (record { price = o.price; total = 0; orders = [] }) ∷ []
push_order s o (l ∷ ls) =
    if better s o.price l.price
    then push_back o (record { price = o.price; total = 0; orders = [] }) ∷ l ∷ ls
    else if eq? l.price o.price
    then push_back o l ∷ ls
    else l ∷ push_order s o ls

unfoldable pub rest : OrderId → Side → Price → Qty → OrderBook → OrderBook
rest id side price qty b =
    let o : Order = record { id = id; side = side; price = price; open_qty = qty } in
    record (with_side side (push_order side o (side_of side b)) b) {
      index = emplace id (record { side = side; price = price }) b.index;
    }

unfoldable pub emit : Event → OrderBook → OrderBook
emit e b = record b { log = b.log ++ e ∷ [] }

-- From `match` on, as `add` and a `replace` that crosses have it.
unfoldable pub enter : OrderId → Side → Price → Qty → OrderBook → AddResult × OrderBook
unfolding emit
enter id side price qty b =
    let (f, b') = match_side id side price qty b in
    let resting = qty - f.filled in
    (
      record { status = ok; filled = f.filled; resting = resting },
      if ltb 0 resting
          then emit (added id side price resting) (rest id side price resting b')
          else b',
    )

unfoldable pub add : OrderId → Side → Price → Qty → OrderBook → AddResult × OrderBook
add id side price qty b =
    if le? price (pos 0)
    then (record { status = bad_price; filled = 0; resting = 0 }, b)
    else if qty == 0
    then (record { status = bad_qty; filled = 0; resting = 0 }, b)
    else if contains id b.index
    then (record { status = duplicate_id; filled = 0; resting = 0 }, b)
    else enter id side price qty b

-- The order that an iterator points at, in its level's list.
unfoldable pub order_at : OrderId → List Order → Option Order
order_at id [] = none
order_at id (o ∷ os) = if o.id == id then some o else order_at id os

unfoldable pub level_at : Price → List Level → Option Level
level_at price [] = none
level_at price (l ∷ ls) = if eq? l.price price then some l else level_at price ls

-- `*idx_it->second.it`; `none` stands for an iterator that dangles.
unfoldable pub deref : OrderId → Handle → OrderBook → Option Order
unfolding order_at level_at
deref id h b = elim (level_at h.price (side_of h.side b)) [
  | none ↦ none
  | some l ↦ order_at id l.orders
]

unfoldable pub erase_order : OrderId → List Order → List Order
erase_order id [] = []
erase_order id (o ∷ os) = if o.id == id then os else o ∷ erase_order id os

-- `erase_from`: the level with this key loses the order, and goes when it was the last one.
unfoldable pub erase_from : OrderId → Qty → Price → List Level → List Level
unfolding erase_order
erase_from id open_qty price [] = []
erase_from id open_qty price (l ∷ ls) =
    let l' : Level = record l {
      total = sub32 l.total open_qty;
      orders = erase_order id l.orders;
    } in
    if eq? l.price price
    then if is_empty l' then ls else l' ∷ ls
    else l ∷ erase_from id open_qty price ls

unfoldable pub remove : OrderId → Handle → Order → OrderBook → OrderBook
remove id h o b =
    record (with_side h.side (erase_from id o.open_qty h.price (side_of h.side b)) b) {
      index = erase id b.index;
    }

unfoldable pub set_open : OrderId → Qty → List Order → List Order
set_open id keep [] = []
set_open id keep (o ∷ os) =
    if o.id == id then record o { open_qty = keep } ∷ os else o ∷ set_open id keep os

unfoldable pub reduce_at : OrderId → Qty → Qty → Price → List Level → List Level
unfolding set_open
reduce_at id keep canceled_qty price [] = []
reduce_at id keep canceled_qty price (l ∷ ls) =
    if eq? l.price price
    then record l { total = sub32 l.total canceled_qty; orders = set_open id keep l.orders } ∷ ls
    else l ∷ reduce_at id keep canceled_qty price ls

-- `cancel` once the order is found.
unfoldable pub cancel_order : OrderId → Qty → Handle → Order → OrderBook → Bool × OrderBook
unfolding emit
cancel_order id keep h o b =
    if leb o.open_qty keep
    then (false, b)
    else if keep == 0
    then (true, emit (canceled id o.open_qty true) (remove id h o b))
    else let gone = o.open_qty - keep in
      (
        true,
        emit (canceled id gone false)
            (with_side h.side (reduce_at id keep gone h.price (side_of h.side b)) b),
      )

unfoldable pub cancel : OrderId → Qty → OrderBook → Bool × OrderBook
cancel id keep b = elim (find id b.index) [
  | none ↦ (false, b)
  | some h ↦ elim (deref id h b) [ none ↦ (false, b) | some o ↦ cancel_order id keep h o b ]
]

unfoldable pub would_cross : Side → Price → OrderBook → Bool
would_cross side price b = elim (side_of (opposite side) b) [
  | [] ↦ false
  | l ∷ ls ↦ crosses side price l.price
]

-- `replace` once the old order is removed.
unfoldable pub replace_order : OrderId → OrderId → Side → Qty → Price → Qty → OrderBook → OrderBook
unfolding emit
replace_order old_id new_id side old_open price qty b =
    if would_cross side price b
    then (enter new_id side price qty (emit (canceled old_id old_open true) b)).1
    else emit (replaced old_id new_id side price qty) (rest new_id side price qty b)

-- `replace` once the old order is found.
unfoldable pub replace_found :
    OrderId → OrderId → Price → Qty → Handle → Order → OrderBook → Bool × OrderBook
replace_found old_id new_id price qty h o b =
    if new_id == old_id || contains new_id b.index || le? price (pos 0) || qty == 0
    then (false, b)
    else (true, replace_order old_id new_id h.side o.open_qty price qty (remove old_id h o b))

unfoldable pub replace : OrderId → OrderId → Price → Qty → OrderBook → Bool × OrderBook
replace old_id new_id price qty b = elim (find old_id b.index) [
  | none ↦ (false, b)
  | some h ↦ elim (deref old_id h b) [
    | none ↦ (false, b)
    | some o ↦ replace_found old_id new_id price qty h o b
  ]
]

-- The key of `begin()`.
unfoldable pub best_price : List Level → Option Price
best_price [] = none
best_price (l ∷ ls) = some l.price

unfoldable pub best_bid : OrderBook → Option Price
unfolding best_price
best_bid b = best_price b.bids

unfoldable pub best_ask : OrderBook → Option Price
unfolding best_price
best_ask b = best_price b.asks

unfoldable pub snapshot_level : Level → SnapshotLevel
snapshot_level l = record {
  price = l.price;
  orders = map (λ o. record { id = o.id; qty = o.open_qty }) l.orders;
}

unfoldable pub snapshot : OrderBook → BookSnapshot
unfolding snapshot_level
snapshot b = record { bids = map snapshot_level b.bids; asks = map snapshot_level b.asks }

abbrev pub empty_book : OrderBook
empty_book = record { bids = []; asks = []; index = []; next_match_id = 1; log = [] }
