-- ===== src/FastBook/Levels.antt =====
-- Where src/book/fast_book.cpp keeps its levels: the ladder and the fallback maps, which are lists of
-- entries in the order of their keys. `Spot` is a reference to a level.
use nasdaq_matching_engine.Common.{
  ℕ, ◌+◌, ◌*◌, ◌/◌, ◌%◌, true, List, [], ◌∷◌, Option, none, some, ltb, leb, ◌==◌, not,
  if◌then◌else◌, length, get_or, set, replicate,
}
use nasdaq_matching_engine.Common.Int.{ℤ, pos, negsuc, ◌+ℤ◌, ◌-ℤ◌, eq?}
use nasdaq_matching_engine.Common.Words.{sub32}
use nasdaq_matching_engine.Types.{Price, Qty, OrderId, Side, buy, sell}
use nasdaq_matching_engine.Book.{better}
use nasdaq_matching_engine.FlatMap.{insert, erase}
use nasdaq_matching_engine.FastBook.{nil, Level, no_level, FastBook}
use nasdaq_matching_engine.FastBook.Pool.{cell, alloc_order, append, unlink}

unfoldable pub tick_of : ℕ → ℕ → ℤ → Option ℕ
tick_of tick size (negsuc n) = none
tick_of tick size (pos off) =
    if not (off % tick == 0)
    then none
    else if leb size (off / tick)
    then none
    else some (off / tick)

unfoldable pub tick_index : Price → FastBook → Option ℕ
tick_index price b =
    if not b.band_set then none else tick_of b.cfg.tick_size (length b.ladder) (price -ℤ b.base)

unfoldable pub price_at : ℕ → FastBook → Price
price_at idx b = b.base +ℤ pos (idx * b.cfg.tick_size)

pub data Spot : Type 0 where
  at_tick : ℕ → Spot
  in_map : Side → Price → Spot

abbrev pub fb_side : Side → FastBook → List (Price × Level)
fb_side buy b = b.fb_bids
fb_side sell b = b.fb_asks

abbrev pub with_fb_side : Side → List (Price × Level) → FastBook → FastBook
with_fb_side buy ls b = record b { fb_bids = ls }
with_fb_side sell ls b = record b { fb_asks = ls }

-- `map[price]`: an empty level where there is none.
unfoldable pub add_entry : Side → Price → List (Price × Level) → List (Price × Level)
add_entry s price [] = (price, no_level) ∷ []
add_entry s price ((p, l) ∷ ls) =
    if better s price p
    then (price, no_level) ∷ (p, l) ∷ ls
    else if eq? p price
    then (p, l) ∷ ls
    else (p, l) ∷ add_entry s price ls

unfoldable pub entry_at : Price → List (Price × Level) → Level
entry_at price [] = no_level
entry_at price ((p, l) ∷ ls) = if eq? p price then l else entry_at price ls

unfoldable pub set_entry : Price → Level → List (Price × Level) → List (Price × Level)
set_entry price lvl [] = []
set_entry price lvl ((p, l) ∷ ls) =
    if eq? p price then (p, lvl) ∷ ls else (p, l) ∷ set_entry price lvl ls

unfoldable pub erase_entry : Price → List (Price × Level) → List (Price × Level)
erase_entry price [] = []
erase_entry price ((p, l) ∷ ls) = if eq? p price then ls else (p, l) ∷ erase_entry price ls

unfoldable pub read_level : Spot → FastBook → Level
read_level (at_tick t) b = get_or b.ladder t no_level
read_level (in_map s price) b = entry_at price (fb_side s b)

unfoldable pub write_level : Spot → Level → FastBook → FastBook
write_level (at_tick t) lvl b = record b { ladder = set b.ladder t lvl }
write_level (in_map s price) lvl b = with_fb_side s (set_entry price lvl (fb_side s b)) b

unfoldable pub level_for : Side → Price → FastBook → Spot × FastBook
level_for side price b = elim (tick_index price b) [
  | some t ↦ (at_tick t, b)
  | none ↦ (in_map side price, with_fb_side side (add_entry side price (fb_side side b)) b)
]

unfoldable pub erase_level_if_fallback : Side → Price → Level → FastBook → FastBook
erase_level_if_fallback side price lvl b =
    if not (lvl.head == nil) then b else elim (tick_index price b) [
      | some t ↦ b
      | none ↦ with_fb_side side (erase_entry price (fb_side side b)) b
    ]

-- The first order sets the band.
unfoldable pub set_band : Price → FastBook → FastBook
set_band price b = if b.band_set then b else record b {
  base = price -ℤ pos (b.cfg.band_half_ticks * b.cfg.tick_size);
  ladder = replicate (2 * b.cfg.band_half_ticks + 1) no_level;
  bid_cursor = none;
  ask_cursor = 2 * b.cfg.band_half_ticks + 1;
  band_set = true;
}

-- `t > bid_cursor_`
unfoldable pub raise_cursor : ℕ → Option ℕ → Option ℕ
raise_cursor t none = some t
raise_cursor t (some c) = if ltb c t then some t else some c

unfoldable pub move_cursor : Side → Option ℕ → FastBook → FastBook
move_cursor side none b = b
move_cursor buy (some t) b = record b { bid_cursor = raise_cursor t b.bid_cursor }
move_cursor sell (some t) b = record b {
  ask_cursor = if ltb t b.ask_cursor then t else b.ask_cursor;
}

unfoldable pub rest : OrderId → Side → Price → Qty → FastBook → FastBook
rest id side price qty b =
    let b₁ = set_band price b in
    let (spot, b₂) = level_for side price b₁ in
    let (idx, free, pool) = alloc_order id side price qty b₂.free b₂.pool in
    let (lvl, pool') = append idx qty (read_level spot b₂) pool in
    let b₃ =
      write_level spot lvl
        (record b₂ { pool = pool'; free = free; index = insert id idx b₂.index }) in
    move_cursor side (tick_index price b₃) b₃

unfoldable pub remove_resting : ℕ → FastBook → FastBook
remove_resting idx b =
    let o = cell b.pool idx in
    let (spot, b₁) = level_for o.side o.price b in
    let old = read_level spot b₁ in
    let (lvl, pool) = unlink idx (record old { total = sub32 old.total o.open_qty }) b₁.pool in
    let b₂ =
      write_level spot lvl
        (record b₁ { pool = pool; index = (erase o.id b₁.index).1; free = idx ∷ b₁.free }) in
    erase_level_if_fallback o.side o.price lvl b₂
