-- ===== src/Feed/Delivery.antt =====
-- From the engine's events to what a receiver of src/feed/feed.cpp's datagrams decodes.
use nasdaq_matching_engine.Common.{
  ℕ, suc, ◌+◌, ◌%◌, ◌^◌, ◌≤◌, ◌<◌, ◌≡◌, refl, sym, ap, List, [], ◌∷◌, map, some, true, false, All,
  All-append, arith, length, Bool-cases, Option-cases, inl, inr,
}
use nasdaq_matching_engine.Types.{Side, buy, sell}
use nasdaq_matching_engine.Book
use nasdaq_matching_engine.Endian.Layout.{IsWirePrice}
use nasdaq_matching_engine.Itch.HeaderTrip.{IsHeader}
use nasdaq_matching_engine.Itch.Codec
use nasdaq_matching_engine.Itch.Codec.{encode, decode}
use nasdaq_matching_engine.Itch.Codec.RoundTrip
use nasdaq_matching_engine.Itch.Codec.RoundTrip.{decode-encode, encode_small}
use nasdaq_matching_engine.Mold.{make_session, add_message, take_packets, parse}
use nasdaq_matching_engine.Mold.Format
use nasdaq_matching_engine.Mold.Packing.{join}
use nasdaq_matching_engine.Mold.Delivery.{add_all, datagrams, packetizer_delivers}
use nasdaq_matching_engine.Engine.{MarketEvent, same_chars}
use nasdaq_matching_engine.Engine.Events.{side_char}
use nasdaq_matching_engine.Types.Padding.{length-fill_field}
use nasdaq_matching_engine.Feed.{
  header_for, message_for, to_itch, Locates, find_locate, locate_in, locate_for, FeedPublisher,
  new_feed, add_events, send_ready, publish,
}

-- The fields of an event that go on the wire fit there.
abbrev pub IsWireEvent : Book.Event → Type 0
IsWireEvent (Book.added id side price q) = (id < 2 ^ 64) × ((q < 2 ^ 32) × IsWirePrice price)
IsWireEvent (Book.executed resting aggressor side price q match_id) =
    (resting < 2 ^ 64) × ((q < 2 ^ 32) × (match_id < 2 ^ 64))
IsWireEvent (Book.canceled id q removed) = (id < 2 ^ 64) × (q < 2 ^ 32)
IsWireEvent (Book.replaced old_id new_id side price q) =
    (old_id < 2 ^ 64) × ((new_id < 2 ^ 64) × ((q < 2 ^ 32) × IsWirePrice price))

pub record IsMarketEvent (ev : MarketEvent) : Type 0 where
  pub ts_fits : ev.ts < 2 ^ 48
  pub symbol_fits : length ev.symbol ≡ 8
  pub ev_fits : IsWireEvent ev.ev

header_for-IsHeader :
    (ev : MarketEvent) (locate : ℕ)
    → IsMarketEvent ev
    → locate < 2 ^ 16
    → IsHeader (header_for ev locate)
header_for-IsHeader ev locate w h = record {
  stock_locate_fits = h;
  tracking_fits = omega arith;
  timestamp_fits = w.ts_fits;
}

side_fits : (s : Side) → side_char s < 2 ^ 8
side_fits buy = omega arith
side_fits sell = omega arith

message_for-IsMessage :
    (e : Book.Event) (ev : MarketEvent) (locate : ℕ)
    → IsWireEvent e
    → IsMarketEvent ev
    → locate < 2 ^ 16
    → RoundTrip.IsMessage (message_for e ev locate)
unfolding message_for
message_for-IsMessage (Book.added id side price q) ev locate v w h = record {
  header_fits = header_for-IsHeader ev locate w h;
  order_ref_fits = v.0;
  side_fits = side_fits side;
  shares_fits = v.1.0;
  stock_fits = w.symbol_fits;
  price_fits = v.1.1;
}
message_for-IsMessage (Book.executed resting aggressor side price q match_id) ev locate v w h =
    record {
      header_fits = header_for-IsHeader ev locate w h;
      order_ref_fits = v.0;
      executed_shares_fits = v.1.0;
      match_number_fits = v.1.1;
    }
message_for-IsMessage (Book.canceled id q true) ev locate v w h = record {
  header_fits = header_for-IsHeader ev locate w h;
  order_ref_fits = v.0;
}
message_for-IsMessage (Book.canceled id q false) ev locate v w h = record {
  header_fits = header_for-IsHeader ev locate w h;
  order_ref_fits = v.0;
  canceled_shares_fits = v.1;
}
message_for-IsMessage (Book.replaced old_id new_id side price q) ev locate v w h = record {
  header_fits = header_for-IsHeader ev locate w h;
  original_ref_fits = v.0;
  new_ref_fits = v.1.0;
  shares_fits = v.1.1.0;
  price_fits = v.1.1.1;
}

-- The locates that were given out fit in 16 bits.
abbrev FitLocates : Locates → Type 0
FitLocates ls = All (λ (e : List ℕ × ℕ). e.1 < 2 ^ 16) ls

find_locate-FitLocates :
    (symbol : List ℕ) (ls : Locates) (n : ℕ)
    → FitLocates ls
    → find_locate symbol ls ≡ some n
    → n < 2 ^ 16
unfolding find_locate
find_locate-FitLocates symbol [] n v h = ground arith
find_locate-FitLocates symbol ((s, m) ∷ ls) n v h = elim (Bool-cases (same_chars symbol s)) [
  | inl e ↦
      let k : some m ≡ some n = rw e at h in let same : m ≡ n = ground arith in rw (sym same) v.0
  | inr e ↦
      let k : find_locate symbol ls ≡ some n = rw e at h in find_locate-FitLocates symbol ls n v.1 k
]

locate_for-FitLocates :
    (symbol : List ℕ) (ls : Locates)
    → FitLocates ls
    → ((locate_for symbol ls).0 < 2 ^ 16) × FitLocates (locate_for symbol ls).1
unfolding locate_for locate_in
locate_for-FitLocates symbol ls v = elim (Option-cases (find_locate symbol ls)) [
  | inl e ↦ rw e (
    omega arith,
    All-append (λ (p : List ℕ × ℕ). p.1 < 2 ^ 16) ls ((symbol, (length ls + 1) % 2 ^ 16) ∷ []) v
        (omega arith, tt),
  )
  | inr (n, e) ↦ rw e (find_locate-FitLocates symbol ls n v e, v)
]

length-make_session : (s : List ℕ) → length (make_session s) ≡ 10
unfolding make_session
length-make_session s = length-fill_field 10 s

-- The messages of a list of events, in order, each with the locate of its symbol.
unfoldable pub messages_for : List MarketEvent → Locates → List Codec.Message
messages_for [] ls = []
messages_for (ev ∷ evs) ls =
    let (locate, next) = locate_for ev.symbol ls in
    message_for ev.ev ev locate ∷ messages_for evs next

messages_for-IsMessage :
    (evs : List MarketEvent) (ls : Locates)
    → All IsMarketEvent evs
    → FitLocates ls
    → All RoundTrip.IsMessage (messages_for evs ls)
unfolding messages_for
messages_for-IsMessage [] ls v w = tt
messages_for-IsMessage (ev ∷ evs) ls v w =
    let (small, fit) = locate_for-FitLocates ev.symbol ls w in
    (
      message_for-IsMessage ev.ev ev (locate_for ev.symbol ls).0 v.0.ev_fits v.0 small,
      messages_for-IsMessage evs (locate_for ev.symbol ls).1 v.1 fit,
    )

add_events-add_all :
    (evs : List MarketEvent) (f : FeedPublisher)
    → (add_events evs f).packetizer ≡ add_all (map encode (messages_for evs f.locates)) f.packetizer
unfolding add_events messages_for to_itch add_all
add_events-add_all [] f = refl
add_events-add_all (ev ∷ evs) f =
    let (locate, ls) = locate_for ev.symbol f.locates in
    add_events-add_all evs
      (record f { packetizer = add_message (to_itch ev locate) f.packetizer; locates = ls })

add_events-sent : (evs : List MarketEvent) (f : FeedPublisher) → (add_events evs f).sent ≡ f.sent
unfolding add_events
add_events-sent [] f = refl
add_events-sent (ev ∷ evs) f =
    let (locate, ls) = locate_for ev.symbol f.locates in
    add_events-sent evs
      (record f { packetizer = add_message (to_itch ev locate) f.packetizer; locates = ls })

map-decode-encode :
    (behind : List ℕ) (ms : List Codec.Message)
    → All RoundTrip.IsMessage ms
    → map (decode behind) (map encode ms) ≡ map some ms
map-decode-encode behind [] v = refl
map-decode-encode behind (m ∷ ms) v =
    rw (decode-encode behind m v.0, map-decode-encode behind ms v.1) refl

map-encode_small :
    (ms : List Codec.Message) → All RoundTrip.IsMessage ms → All Format.IsMessage (map encode ms)
map-encode_small [] v = tt
map-encode_small (m ∷ ms) v = (encode_small m v.0, map-encode_small ms v.1)

length-messages_for :
    (evs : List MarketEvent) (ls : Locates) → length (map encode (messages_for evs ls)) ≡ length evs
unfolding messages_for
length-messages_for [] ls = refl
length-messages_for (ev ∷ evs) ls = ap suc (length-messages_for evs (locate_for ev.symbol ls).1)

-- The datagrams of the first events that a new publisher with a packet size of at most 2 ^ 17 is
-- given parse to packets numbered from 1, whose messages decode, all and in order, to the ITCH
-- messages of the events. The fields of an event fit on the wire, and there are fewer than
-- 2 ^ 64 - 2 events. What stands in memory behind a message does not matter.
pub feed_delivers :
    (session behind : List ℕ) (mtu : ℕ)
    → mtu ≤ 2 ^ 17
    → (evs : List MarketEvent) → All IsMarketEvent evs
    → length evs + 2 < 2 ^ 64
    → (chunks : List (List (List ℕ))) × ((map parse (publish evs (new_feed session mtu)).sent
          ≡ map some (datagrams (make_session session) 1 chunks))
        × (map (decode behind) (join chunks) ≡ map some (messages_for evs [])))
unfolding publish send_ready new_feed take_packets
feed_delivers session behind mtu b evs v n =
    let ms = messages_for evs [] in
    let fine : All RoundTrip.IsMessage ms = messages_for-IsMessage evs [] v tt in
    let wide = length-make_session session in
    let (chunks, parsed, joined, rest) =
      packetizer_delivers (make_session session) mtu wide b (map encode ms)
        (map-encode_small ms fine) (omega (arith, length-messages_for evs [], n)) in
    (
      chunks,
      (
        rw
            (
              add_events-sent evs (new_feed session mtu),
              add_events-add_all evs (new_feed session mtu),
            )
            parsed,
        rw joined (map-decode-encode behind ms fine),
      ),
    )
