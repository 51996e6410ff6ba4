-- ===== src/Tests/Pooled.antt =====
-- The pooled book at concrete orders.
use nasdaq_matching_engine.Common.{◌≡◌, refl, true, List, [], ◌∷◌, some, arith}
use nasdaq_matching_engine.Common.Int.{pos}
use nasdaq_matching_engine.Types.{buy, sell}
use nasdaq_matching_engine.FastBook.{FOrder, Level, FastBook, book_with_index, nil, no_level}
use nasdaq_matching_engine.FastBook.Unlinking.{Unlinks, unlink-Unlinks, Appends, append-Appends}
use nasdaq_matching_engine.FastBook.Executing.{Consumes}
use nasdaq_matching_engine.FastBook.Consuming.{consume_level-Consumes}
use nasdaq_matching_engine.FastBook.Matching.{Consumed, consume_level}
use nasdaq_matching_engine.FastBook.Cursors.{
  tick_or_end, IsBestBid, IsBestAsk, ladder_best_bid-IsBestBid, ladder_best_ask-IsBestAsk,
}
use nasdaq_matching_engine.FastBook.Sides.{ladder_best_bid, ladder_best_ask}
use nasdaq_matching_engine.FlatMap.{map_of_size}

-- Three orders at 100, in the order 2, 0, 1.
abbrev pool : List FOrder
pool =
    record { id = 7; price = pos 100; open_qty = 5; prev = 2; next = 1; side = buy }
    ∷ record { id = 8; price = pos 100; open_qty = 6; prev = 0; next = nil; side = buy }
    ∷ record { id = 9; price = pos 100; open_qty = 4; prev = nil; next = 0; side = buy }
    ∷ record { id = 10; price = pos 90; open_qty = 1; prev = nil; next = nil; side = buy }
    ∷ []

abbrev level : Level
level = record { total = 15; head = 2; tail = 1 }

unlink-Unlinks_example : Unlinks pool level (2 ∷ []) 0 (1 ∷ [])
unlink-Unlinks_example =
    unlink-Unlinks pool level (2 ∷ []) 0 (1 ∷ [])
      ((omega arith, (omega arith, tt)), ((omega arith, tt), (tt, tt)))
      (
        (refl, (omega arith, (omega arith, refl))),
        (
          (refl, (omega arith, (omega arith, refl))),
          ((refl, (omega arith, (omega arith, refl))), (refl, refl)),
        ),
      )

append-Appends_example : Appends pool level (2 ∷ 0 ∷ 1 ∷ []) 3 1
append-Appends_example =
    append-Appends pool level (2 ∷ 0 ∷ 1 ∷ []) 3 1
      ((omega arith, (omega arith, tt)), ((omega arith, tt), (tt, tt)))
      (omega arith, (omega arith, (omega arith, tt))) (omega arith) (omega arith) refl
      (
        (refl, (omega arith, (omega arith, refl))),
        (
          (refl, (omega arith, (omega arith, refl))),
          ((refl, (omega arith, (omega arith, refl))), (refl, refl)),
        ),
      )

-- Seven shares run against the level: order 9 is used up, order 7 keeps 2.
abbrev consumed : Consumed
consumed = record {
  level = level;
  pool = pool;
  free = [];
  index = map_of_size 16;
  fill = record { qty = 7; filled = 0; next_match_id = 1; log = [] };
}

consume_level-Consumes_example :
    Consumes 20 sell (pos 95) (2 ∷ 0 ∷ 1 ∷ []) consumed (consume_level 3 20 sell (pos 100) consumed)
consume_level-Consumes_example =
    consume_level-Consumes 20 sell (pos 95) (pos 100) refl 3 consumed (2 ∷ 0 ∷ 1 ∷ []) (omega arith)
      ((omega arith, (omega arith, tt)), ((omega arith, tt), (tt, tt))) (refl, (refl, (refl, tt)))
      (
        (refl, (omega arith, (omega arith, refl))),
        (
          (refl, (omega arith, (omega arith, refl))),
          ((refl, (omega arith, (omega arith, refl))), (refl, refl)),
        ),
      )

-- A band of three ticks with bids at the first.
abbrev banded : FastBook
banded =
    record (book_with_index (record { tick_size = 10; band_half_ticks = 1; expected_orders = 4 })
      (map_of_size 16)) {
        band_set = true;
        base = pos 100;
        ladder = level ∷ no_level ∷ no_level ∷ [];
        bid_cursor = some 2;
        ask_cursor = 0;
        pool = pool;
      }

ladder_best_bid-IsBestBid_example :
    IsBestBid (ladder_best_bid banded).0 banded
    × ((ladder_best_bid banded).1 ≡ record banded { bid_cursor = (ladder_best_bid banded).0 })
ladder_best_bid-IsBestBid_example =
    ladder_best_bid-IsBestBid banded (λ t l m. absurd (omega (arith, l, m)))

ladder_best_ask-IsBestAsk_example :
    IsBestAsk (ladder_best_ask banded).0 banded
    × ((ladder_best_ask banded).1
        ≡ record banded { ask_cursor = tick_or_end (ladder_best_ask banded).0 banded })
ladder_best_ask-IsBestAsk_example =
    ladder_best_ask-IsBestAsk banded (omega arith) (λ t l m. absurd (omega (arith, l)))
