-- ===== src/Book/Priority.antt =====
-- The contract of the books of src/book/: price-time priority. A side of the book is one list of
-- orders, best price first and oldest first within a price. There are no levels, no index and no
-- links; an operation is a scan of the list.
pub mod Orders
pub mod Filling
pub mod Trading
use nasdaq_matching_engine.Common.{
  ℕ, zero, suc, ◌-◌, ◌+◌, Bool, true, false, not, ◌||◌, List, [], ◌∷◌, ◌++◌, Option, none, some,
  ltb, leb, ◌==◌, if◌then◌else◌,
}
use nasdaq_matching_engine.Common.Int.{le?, pos}
use nasdaq_matching_engine.Types.{Price, Qty, OrderId, Side, buy, sell}
use nasdaq_matching_engine.Book.{
  Event, added, executed, canceled, replaced, AddStatus, ok, duplicate_id, bad_price, bad_qty,
  AddResult, Order, crosses, better, opposite, Fill, execute, left_open,
}

pub record Book : Type 0 where
  pub bids : List Order
  pub asks : List Order
  pub next_match_id : ℕ
  pub log : List Event

abbrev pub side_of : Side → Book → List Order
side_of buy b = b.bids
side_of sell b = b.asks

abbrev pub with_side : Side → List Order → Book → Book
with_side buy os b = record b { bids = os }
with_side sell os b = record b { asks = os }

-- Takes from the front of the list while quantity is left and the price crosses.
unfoldable pub take_front : OrderId → Side → Price → List Order → Fill → List Order × Fill
take_front id side limit [] f = ([], f)
take_front id side limit (o ∷ os) f =
    let f' = execute id side o f in
    let o' = left_open f o in
    let rest = take_front id side limit os f' in
    if f.qty == 0 || not (crosses side limit o.price)
    then (o ∷ os, f)
    else if o'.open_qty == 0
    then rest
    else (o' ∷ os, f')

-- Behind every order of an equal or better price.
unfoldable pub insert : Side → Order → List Order → List Order
insert s o [] = o ∷ []
insert s o (x ∷ xs) = if better s o.price x.price then o ∷ x ∷ xs else x ∷ insert s o xs

unfoldable pub locate : OrderId → List Order → Option Order
locate id [] = none
locate id (o ∷ os) = if o.id == id then some o else locate id os

unfoldable pub remove : OrderId → List Order → List Order
remove id [] = []
remove id (o ∷ os) = if o.id == id then os else o ∷ remove id os

unfoldable pub reduce : OrderId → Qty → List Order → List Order
reduce id keep [] = []
reduce id keep (o ∷ os) =
    if o.id == id then record o { open_qty = keep } ∷ os else o ∷ reduce id keep os

abbrev pub or_else {ℓ} : {A : Type ℓ} → Option A → Option A → Option A
or_else (some a) y = some a
or_else none y = y

abbrev pub find_order : OrderId → Book → Option Order
find_order id b = or_else (locate id b.bids) (locate id b.asks)

unfoldable pub has_order : OrderId → Book → Bool
has_order id b = elim (find_order id b) [ none ↦ false | some o ↦ true ]

-- Runs an incoming order against the other side.
unfoldable pub cross : OrderId → Side → Price → Qty → Book → Fill × Book
cross id side limit qty b =
    let start : Fill = record {
      qty = qty;
      filled = 0;
      next_match_id = b.next_match_id;
      log = b.log;
    } in
    let (os, f) = take_front id side limit (side_of (opposite side) b) start in
    (f, record (with_side (opposite side) os b) { next_match_id = f.next_match_id; log = f.log })

unfoldable pub emit : Event → Book → Book
emit e b = record b { log = b.log ++ e ∷ [] }

-- Puts what is left of an order on its own side.
unfoldable pub rest : OrderId → Side → Price → Qty → Book → Book
rest id side price qty b =
    with_side side
      (insert side (record { id = id; side = side; price = price; open_qty = qty })
        (side_of side b))
      b

-- What an order that was let in does: run against the other side, and rest what is left.
unfoldable pub enter : OrderId → Side → Price → Qty → Book → AddResult × Book
enter id side price qty b =
    let (f, b') = cross id side price qty b in
    let resting = qty - f.filled in
    (
      record { status = ok; filled = f.filled; resting = resting },
      if ltb 0 resting
          then emit (added id side price resting) (rest id side price resting b')
          else b',
    )

unfoldable pub add : OrderId → Side → Price → Qty → Book → AddResult × Book
add id side price qty b =
    if le? price (pos 0)
    then (record { status = bad_price; filled = 0; resting = 0 }, b)
    else if qty == 0
    then (record { status = bad_qty; filled = 0; resting = 0 }, b)
    else if has_order id b
    then (record { status = duplicate_id; filled = 0; resting = 0 }, b)
    else enter id side price qty b

-- Removes an order from its side.
unfoldable pub take_out : OrderId → Side → Book → Book
take_out id side b = with_side side (remove id (side_of side b)) b

unfoldable pub cancel_order : OrderId → Qty → Order → Book → Bool × Book
cancel_order id keep o b =
    if leb o.open_qty keep
    then (false, b)
    else if keep == 0
    then (true, emit (canceled id o.open_qty true) (take_out id o.side b))
    else (
      true,
      emit (canceled id (o.open_qty - keep) false)
          (with_side o.side (reduce id keep (side_of o.side b)) b),
    )

-- Lowers the open quantity to `keep`, in place; 0 removes the order.
unfoldable pub cancel : OrderId → Qty → Book → Bool × Book
cancel id keep b = elim (find_order id b) [ none ↦ (false, b) | some o ↦ cancel_order id keep o b ]

-- Does the best order of the other side cross?
unfoldable pub would_cross : Side → Price → Book → Bool
would_cross side price b = elim (side_of (opposite side) b) [
  | [] ↦ false
  | o ∷ os ↦ crosses side price o.price
]

unfoldable pub replace_order : OrderId → OrderId → Side → Qty → Price → Qty → Book → Book
replace_order old_id new_id side old_open price qty b =
    if would_cross side price b
    then (enter new_id side price qty (emit (canceled old_id old_open true) b)).1
    else emit (replaced old_id new_id side price qty) (rest new_id side price qty b)

unfoldable pub replace_found : OrderId → OrderId → Price → Qty → Order → Book → Bool × Book
replace_found old_id new_id price qty o b =
    if new_id == old_id || has_order new_id b || le? price (pos 0) || qty == 0
    then (false, b)
    else (true, replace_order old_id new_id o.side o.open_qty price qty (take_out old_id o.side b))

unfoldable pub replace : OrderId → OrderId → Price → Qty → Book → Bool × Book
replace old_id new_id price qty b = elim (find_order old_id b) [
  | none ↦ (false, b)
  | some o ↦ replace_found old_id new_id price qty o b
]

-- The quantity that would execute at once, exactly: the sum is not cut to 32 bits.
unfoldable pub available : Side → Price → List Order → ℕ
available side limit [] = 0
available side limit (o ∷ os) =
    let more = available side limit os in
    if crosses side limit o.price then o.open_qty + more else 0
