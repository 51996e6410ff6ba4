-- ===== src/FastBook/Reading.antt =====
-- The reads of src/book/fast_book.cpp: the quantity that an order could execute, and the snapshot.
use nasdaq_matching_engine.Common.{
  ℕ, zero, suc, ◌+◌, ◌-◌, List, [], ◌∷◌, ◌++◌, map, Option, none, some, ◌==◌, not, if◌then◌else◌,
  length, get_or,
}
use nasdaq_matching_engine.Common.Words.{add32}
use nasdaq_matching_engine.Types.{Price, Qty, Side, buy, sell}
use nasdaq_matching_engine.Book.{
  SnapshotOrder, SnapshotLevel, BookSnapshot, crosses, better, opposite,
}
use nasdaq_matching_engine.FastBook.{nil, FOrder, Level, no_level, FastBook}
use nasdaq_matching_engine.FastBook.Pool.{cell}
use nasdaq_matching_engine.FastBook.Levels.{price_at, fb_side}
use nasdaq_matching_engine.FastBook.Sides.{holds_side, ladder_best}

-- The ladder's part of `matchable`, up from `t` for the asks.
unfoldable pub add_asks : ℕ → ℕ → Price → Qty → FastBook → Qty
add_asks zero t limit total b = total
add_asks (suc n) t limit total b =
    let lvl = get_or b.ladder t no_level in
    let skip = add_asks n (t + 1) limit total b in
    let more = add_asks n (t + 1) limit (add32 total lvl.total) b in
    if not (holds_side sell b.pool lvl)
    then skip
    else if crosses buy limit (price_at t b)
    then more
    else total

-- Down from `t` for the bids.
unfoldable pub add_bids : ℕ → Price → Qty → FastBook → Qty
add_bids zero limit total b =
    let lvl = get_or b.ladder 0 no_level in
    if not (holds_side buy b.pool lvl)
    then total
    else if crosses sell limit (price_at 0 b)
    then add32 total lvl.total
    else total
add_bids (suc t) limit total b =
    let lvl = get_or b.ladder (suc t) no_level in
    let skip = add_bids t limit total b in
    let more = add_bids t limit (add32 total lvl.total) b in
    if not (holds_side buy b.pool lvl)
    then skip
    else if crosses sell limit (price_at (suc t) b)
    then more
    else total

unfoldable pub add_entries : Side → Price → Qty → List (Price × Level) → Qty
add_entries side limit total [] = total
add_entries side limit total ((p, l) ∷ ls) =
    let more = add_entries side limit (add32 total l.total) ls in
    if crosses side limit p then more else total

unfoldable pub add_ladder : Side → Option ℕ → Price → FastBook → Qty
add_ladder side none limit b = 0
add_ladder buy (some t) limit b = add_asks (length b.ladder - t) t limit 0 b
add_ladder sell (some t) limit b = add_bids t limit 0 b

unfoldable pub matchable_qty : Side → Price → FastBook → Qty × FastBook
matchable_qty side limit b =
    let (t, b') = ladder_best (opposite side) b in
    (add_entries side limit (add_ladder side t limit b') (fb_side (opposite side) b'), b')

-- The orders of a level from `i` on; the fuel is the size of the pool.
unfoldable pub level_orders : ℕ → ℕ → List FOrder → List SnapshotOrder
level_orders zero i pool = []
level_orders (suc n) i pool =
    let rest = level_orders n (cell pool i).next pool in
    if i == nil then [] else record { id = (cell pool i).id; qty = (cell pool i).open_qty } ∷ rest

-- The levels of the ladder that hold orders of a side, from tick `t` on.
unfoldable pub side_levels : Side → ℕ → List Level → FastBook → List (Price × Level)
side_levels side t [] b = []
side_levels side t (l ∷ ls) b =
    let rest = side_levels side (t + 1) ls b in
    if holds_side side b.pool l then (price_at t b, l) ∷ rest else rest

unfoldable pub sort_in : Side → Price × Level → List (Price × Level) → List (Price × Level)
sort_in side (p, l) [] = (p, l) ∷ []
sort_in side (p, l) ((q, m) ∷ ls) =
    if better side p q then (p, l) ∷ (q, m) ∷ ls else (q, m) ∷ sort_in side (p, l) ls

-- `std::sort` by price, best first.
unfoldable pub sort_levels : Side → List (Price × Level) → List (Price × Level)
sort_levels side [] = []
sort_levels side (x ∷ xs) = sort_in side x (sort_levels side xs)

unfoldable pub fill_side : Side → FastBook → List SnapshotLevel
fill_side side b =
    map (λ (p, l). record { price = p; orders = level_orders (length b.pool) l.head b.pool })
      (sort_levels side (side_levels side 0 b.ladder b ++ fb_side side b))

unfoldable pub snapshot : FastBook → BookSnapshot
snapshot b = record { bids = fill_side buy b; asks = fill_side sell b }
