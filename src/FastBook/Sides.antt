-- ===== src/FastBook/Sides.antt =====
-- The best prices of src/book/fast_book.cpp: the cursors that run over the ladder, and the maps.
use nasdaq_matching_engine.Common.{
  ℕ, zero, suc, ◌+◌, ◌-◌, Bool, true, false, List, [], ◌∷◌, Option, none, some, ltb, ◌==◌, not,
  ◌&&◌, if◌then◌else◌, length, get_or,
}
use nasdaq_matching_engine.Types.{Price, Side, buy, sell}
use nasdaq_matching_engine.Book.{better, crosses, opposite}
use nasdaq_matching_engine.FastBook.{nil, FOrder, Level, no_level, FastBook}
use nasdaq_matching_engine.FastBook.Pool.{cell}
use nasdaq_matching_engine.FastBook.Levels.{price_at, fb_side}

abbrev pub is_buy : Side → Bool
is_buy buy = true
is_buy sell = false

abbrev pub same_side : Side → Side → Bool
same_side buy s = is_buy s
same_side sell s = not (is_buy s)

-- Does a level hold orders of a side?
unfoldable pub holds_side : Side → List FOrder → Level → Bool
holds_side side pool lvl = not (lvl.head == nil) && same_side side (cell pool lvl.head).side

-- Down from `t`, inclusive; `none` is -1.
unfoldable pub scan_down : ℕ → List FOrder → List Level → Option ℕ
scan_down zero pool ladder = if holds_side buy pool (get_or ladder 0 no_level) then some 0 else none
scan_down (suc t) pool ladder =
    let rest = scan_down t pool ladder in
    if holds_side buy pool (get_or ladder (suc t) no_level) then some (suc t) else rest

-- Up from `t`, for a number of ladder slots.
unfoldable pub scan_up : ℕ → ℕ → List FOrder → List Level → ℕ
scan_up zero t pool ladder = t
scan_up (suc n) t pool ladder =
    let rest = scan_up n (t + 1) pool ladder in
    if holds_side sell pool (get_or ladder t no_level) then t else rest

-- `min(bid_cursor_, size - 1)`
unfoldable pub clamp_cursor : Option ℕ → ℕ → Option ℕ
clamp_cursor none n = none
clamp_cursor (some c) zero = none
clamp_cursor (some c) (suc n) = if ltb n c then some n else some c

unfoldable pub ladder_best_bid : FastBook → Option ℕ × FastBook
ladder_best_bid b =
    let t : Option ℕ = elim (clamp_cursor b.bid_cursor (length b.ladder)) [
      | none ↦ none
      | some c ↦ scan_down c b.pool b.ladder
    ] in
    (t, record b { bid_cursor = t })

unfoldable pub ladder_best_ask : FastBook → Option ℕ × FastBook
ladder_best_ask b =
    let n = length b.ladder in
    let t = scan_up (n - b.ask_cursor) b.ask_cursor b.pool b.ladder in
    (if ltb t n then some t else none, record b { ask_cursor = t })

-- The best tick of a side, where there is a band.
unfoldable pub ladder_best : Side → FastBook → Option ℕ × FastBook
ladder_best side b =
    if not b.band_set
    then (none, b)
    else elim side [ buy ↦ ladder_best_bid b | sell ↦ ladder_best_ask b ]

-- The better of the price of a tick and the first key of the map.
unfoldable pub best_of : Side → Option Price → List (Price × Level) → Option Price
best_of side p [] = p
best_of side none ((q, l) ∷ ls) = some q
best_of side (some p) ((q, l) ∷ ls) = if better side q p then some q else some p

unfoldable pub tick_price : Option ℕ → FastBook → Option Price
tick_price none b = none
tick_price (some t) b = some (price_at t b)

-- `best_bid` and `best_ask`
unfoldable pub best_price : Side → FastBook → Option Price × FastBook
best_price side b =
    let (t, b') = ladder_best side b in (best_of side (tick_price t b') (fb_side side b'), b')

unfoldable pub would_cross : Side → Price → FastBook → Bool × FastBook
would_cross side price b =
    let (best, b') = best_price (opposite side) b in
    (elim best [ none ↦ false | some p ↦ crosses side price p ], b')
