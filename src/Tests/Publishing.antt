-- ===== src/Tests/Publishing.antt =====
-- The publisher at concrete events.
use nasdaq_matching_engine.Common.{ℕ, ◌≡◌, refl, List, [], ◌∷◌, arith, map, some}
use nasdaq_matching_engine.Common.Int.{pos}
use nasdaq_matching_engine.Types.{buy, sell}
use nasdaq_matching_engine.Book
use nasdaq_matching_engine.Itch.Codec.{decode}
use nasdaq_matching_engine.Mold.{make_session, parse}
use nasdaq_matching_engine.Mold.Packing.{join}
use nasdaq_matching_engine.Mold.Delivery.{datagrams}
use nasdaq_matching_engine.Engine.{MarketEvent}
use nasdaq_matching_engine.Feed.{new_feed, publish}
use nasdaq_matching_engine.Feed.Delivery.{messages_for, feed_delivers}

abbrev market_event : Book.Event → MarketEvent
market_event e = record {
  ts = 34200000000000;
  symbol = 65 ∷ 65 ∷ 80 ∷ 76 ∷ 32 ∷ 32 ∷ 32 ∷ 32 ∷ [];
  ev = e;
}

abbrev two_events : List MarketEvent
two_events =
    market_event (Book.added 1 buy (pos 1000000) 100)
    ∷ market_event (Book.executed 1 2 sell (pos 1000000) 100 1)
    ∷ []

feed_delivers_example :
    (chunks : List (List (List ℕ))) × ((map parse (publish two_events (new_feed (83 ∷ []) 60)).sent
        ≡ map some (datagrams (make_session (83 ∷ [])) 1 chunks))
      × (map (decode []) (join chunks) ≡ map some (messages_for two_events [])))
feed_delivers_example =
    feed_delivers (83 ∷ []) [] 60 (omega arith) two_events
      (
        record {
          ts_fits = omega arith;
          symbol_fits = refl;
          ev_fits = (omega arith, (omega arith, omega arith));
        },
        (
          record {
            ts_fits = omega arith;
            symbol_fits = refl;
            ev_fits = (omega arith, (omega arith, omega arith));
          },
          tt,
        ),
      )
      (omega arith)
