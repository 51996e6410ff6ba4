-- ===== src/Feed.antt =====
-- src/feed/feed.cpp: the engine's market events as ITCH messages in MoldUDP64 packets. The datagrams
-- that `send_datagram` sends are a list; sockets, the capture file and the thread are not modelled.
pub mod Delivery
use nasdaq_matching_engine.Common.{
  ℕ, ◌+◌, ◌%◌, ◌^◌, List, [], ◌∷◌, ◌++◌, Option, none, some, true, false, if◌then◌else◌, length,
}
use nasdaq_matching_engine.Common.Words.{add64}
use nasdaq_matching_engine.Types.{Side}
use nasdaq_matching_engine.Book
use nasdaq_matching_engine.Itch.{Header}
use nasdaq_matching_engine.Itch.Codec
use nasdaq_matching_engine.Mold.{Packetizer, start, make_session, add_message, flush, take_packets}
use nasdaq_matching_engine.Engine.{MarketEvent, same_chars}
use nasdaq_matching_engine.Engine.Events.{side_char}

abbrev pub header_for : MarketEvent → ℕ → Header
header_for ev locate = record { stock_locate = locate; tracking = 0; timestamp = ev.ts }

-- The message that `to_itch` encodes: the visitor over the event.
unfoldable pub message_for : Book.Event → MarketEvent → ℕ → Codec.Message
message_for (Book.added id side price q) ev locate = Codec.add_order (record {
  header = header_for ev locate;
  order_ref = id;
  side = side_char side;
  shares = q;
  stock = ev.symbol;
  price = price;
})
message_for (Book.executed resting aggressor side price q match_id) ev locate =
    Codec.order_executed (record {
      header = header_for ev locate;
      order_ref = resting;
      executed_shares = q;
      match_number = match_id;
    })
message_for (Book.canceled id q true) ev locate =
    Codec.order_delete (record { header = header_for ev locate; order_ref = id })
message_for (Book.canceled id q false) ev locate =
    Codec.order_cancel
      (record { header = header_for ev locate; order_ref = id; canceled_shares = q })
message_for (Book.replaced old_id new_id side price q) ev locate = Codec.order_replace (record {
  header = header_for ev locate;
  original_ref = old_id;
  new_ref = new_id;
  shares = q;
  price = price;
})

unfoldable pub to_itch : MarketEvent → ℕ → List ℕ
to_itch ev locate = Codec.encode (message_for ev.ev ev locate)

abbrev pub Locates : Type 0
Locates = List (List ℕ × ℕ)

unfoldable pub find_locate : List ℕ → Locates → Option ℕ
find_locate symbol [] = none
find_locate symbol ((s, n) ∷ ls) =
    let rest = find_locate symbol ls in if same_chars symbol s then some n else rest

-- A new symbol gets the number of symbols and one more, in 16 bits.
unfoldable pub locate_in : List ℕ → Locates → Option ℕ → ℕ × Locates
locate_in symbol ls (some n) = (n, ls)
locate_in symbol ls none = let n = (length ls + 1) % 2 ^ 16 in (n, ls ++ ((symbol, n) ∷ []))

unfoldable pub locate_for : List ℕ → Locates → ℕ × Locates
locate_for symbol ls = locate_in symbol ls (find_locate symbol ls)

pub record FeedPublisher : Type 0 where
  pub packetizer : Packetizer
  pub locates : Locates
  pub sent : List (List ℕ)

unfoldable pub new_feed : List ℕ → ℕ → FeedPublisher
new_feed session mtu = record {
  packetizer = start (make_session session) mtu;
  locates = [];
  sent = [];
}

-- The loop of `publish`.
unfoldable pub add_events : List MarketEvent → FeedPublisher → FeedPublisher
add_events [] f = f
add_events (ev ∷ evs) f =
    let (locate, ls) = locate_for ev.symbol f.locates in
    add_events evs
      (record f { packetizer = add_message (to_itch ev locate) f.packetizer; locates = ls })

unfoldable pub send_ready : FeedPublisher → FeedPublisher
send_ready f =
    let (packets, p) = take_packets f.packetizer in
    record f { packetizer = p; sent = f.sent ++ packets }

unfoldable pub publish : List MarketEvent → FeedPublisher → FeedPublisher
publish evs f =
    let g = add_events evs f in send_ready (record g { packetizer = flush g.packetizer })
