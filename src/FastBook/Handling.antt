-- ===== src/FastBook/Handling.antt =====
-- The operations of src/book/fast_book.cpp.
use nasdaq_matching_engine.Common.{
  ℕ, ◌-◌, Bool, true, false, [], ◌∷◌, ◌++◌, none, some, ltb, leb, ◌==◌, ◌||◌, if◌then◌else◌, set,
}
use nasdaq_matching_engine.Common.Int.{le?, pos}
use nasdaq_matching_engine.Common.Words.{sub32}
use nasdaq_matching_engine.Types.{Price, Qty, OrderId, Side}
use nasdaq_matching_engine.Book.{
  Event, added, canceled, replaced, ok, duplicate_id, bad_price, bad_qty, AddResult,
}
use nasdaq_matching_engine.FlatMap.{find, contains}
use nasdaq_matching_engine.FastBook.{FastBook}
use nasdaq_matching_engine.FastBook.Pool.{cell}
use nasdaq_matching_engine.FastBook.Levels.{
  level_for, read_level, write_level, rest, remove_resting,
}
use nasdaq_matching_engine.FastBook.Sides.{would_cross}
use nasdaq_matching_engine.FastBook.Matching.{match_orders}

unfoldable pub emit : Event → FastBook → FastBook
emit e b = record b { log = b.log ++ e ∷ [] }

-- From `match` on, as `add` and a `replace` that crosses have it.
unfoldable pub enter : OrderId → Side → Price → Qty → FastBook → AddResult × FastBook
enter id side price qty b =
    let (filled, b') = match_orders id side price qty b in
    let resting = qty - filled in
    (
      record { status = ok; filled = filled; resting = resting },
      if ltb 0 resting
          then emit (added id side price resting) (rest id side price resting b')
          else b',
    )

unfoldable pub add : OrderId → Side → Price → Qty → FastBook → AddResult × FastBook
add id side price qty b =
    if le? price (pos 0)
    then (record { status = bad_price; filled = 0; resting = 0 }, b)
    else if qty == 0
    then (record { status = bad_qty; filled = 0; resting = 0 }, b)
    else if contains id b.index
    then (record { status = duplicate_id; filled = 0; resting = 0 }, b)
    else enter id side price qty b

-- The partial cancel: the order and its level lose shares.
unfoldable pub reduce_resting : ℕ → Qty → Qty → FastBook → FastBook
reduce_resting idx keep gone b =
    let o = cell b.pool idx in
    let (spot, b₁) =
      level_for o.side o.price
        (record b { pool = set b.pool idx (record o { open_qty = keep }) }) in
    let lvl = read_level spot b₁ in
    write_level spot (record lvl { total = sub32 lvl.total gone }) b₁

-- `cancel` once the order is found.
unfoldable pub cancel_at : OrderId → Qty → ℕ → FastBook → Bool × FastBook
cancel_at id keep idx b =
    let o = cell b.pool idx in
    if leb o.open_qty keep
    then (false, b)
    else if keep == 0
    then (true, emit (canceled id o.open_qty true) (remove_resting idx b))
    else (
      true,
      emit (canceled id (o.open_qty - keep) false) (reduce_resting idx keep (o.open_qty - keep) b),
    )

unfoldable pub cancel : OrderId → Qty → FastBook → Bool × FastBook
cancel id keep b = elim (find id b.index) [ none ↦ (false, b) | some idx ↦ cancel_at id keep idx b ]

-- `replace` once the old order is removed.
unfoldable pub replace_order : OrderId → OrderId → Side → Qty → Price → Qty → FastBook → FastBook
replace_order old_id new_id side old_open price qty b =
    let (crosses, b₁) = would_cross side price b in
    if crosses
    then (enter new_id side price qty (emit (canceled old_id old_open true) b₁)).1
    else emit (replaced old_id new_id side price qty) (rest new_id side price qty b₁)

-- `replace` once the old order is found.
unfoldable pub replace_found : OrderId → OrderId → Price → Qty → ℕ → FastBook → Bool × FastBook
replace_found old_id new_id price qty idx b =
    let o = cell b.pool idx in
    if new_id == old_id || contains new_id b.index || le? price (pos 0) || qty == 0
    then (false, b)
    else (true, replace_order old_id new_id o.side o.open_qty price qty (remove_resting idx b))

unfoldable pub replace : OrderId → OrderId → Price → Qty → FastBook → Bool × FastBook
replace old_id new_id price qty b = elim (find old_id b.index) [
  | none ↦ (false, b)
  | some idx ↦ replace_found old_id new_id price qty idx b
]
