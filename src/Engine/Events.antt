-- ===== src/Engine/Events.antt =====
-- The engine of src/engine/engine.cpp as the books' listener, and its bookkeeping of open orders.
use nasdaq_matching_engine.Common.{ℕ, List, [], ◌∷◌, ◌==◌, Option, none, some, if◌then◌else◌}
use nasdaq_matching_engine.Common.Int.{pos}
use nasdaq_matching_engine.Common.Maps.{find, erase}
use nasdaq_matching_engine.Common.Words.{sub32}
use nasdaq_matching_engine.Types.{Price, Qty, OrderId, Side, buy, sell}
use nasdaq_matching_engine.Book.{Event}
use nasdaq_matching_engine.Book
use nasdaq_matching_engine.Gateway.{Inbound, enter, cancel, replace, Command}
use nasdaq_matching_engine.Gateway
use nasdaq_matching_engine.Engine.{OrderInfo, Engine, key, same_chars, erase_key, respond, publish}

-- An enum over char as its char, and back where it is one of the two.
abbrev pub side_char : Side → ℕ
side_char buy = b'B'
side_char sell = b'S'

abbrev pub side_of_char : ℕ → Side
side_of_char c = if c == b'B' then buy else sell

-- `numeric_limits<Price>::max()`, above every price of the wire.
abbrev pub max_price : Price
max_price = pos 9223372036854775807

module _ {B : Type 0} where
  -- `operator[]` and an assignment.
  abbrev pub put_order : OrderId → OrderInfo → Engine B → Engine B
  put_order ref info e = record e { orders = (ref, info) ∷ erase ref e.orders }

  -- Erases the key of an order's token and the order.
  unfoldable pub drop_order : OrderId → ℕ → List ℕ → Engine B → Engine B
  drop_order ref client t e = record e {
    live_tokens = erase_key (key client t) e.live_tokens;
    orders = erase ref e.orders;
  }

  unfoldable pub lower_open : OrderId → Qty → Option OrderInfo → Engine B → Engine B
  lower_open id by_ none e = e
  lower_open id by_ (some info) e =
      put_order id (record info { open_qty = sub32 info.open_qty by_ }) e

  unfoldable pub reduce_found : OrderId → Qty → Option OrderInfo → Engine B → Engine B
  reduce_found id by_ none e = e
  reduce_found id by_ (some info) e =
      if sub32 info.open_qty by_ == 0
      then drop_order id info.client_id info.token e
      else lower_open id by_ (some info) e

  unfoldable pub reduce_open : OrderId → Qty → Engine B → Engine B
  reduce_open id by_ e = reduce_found id by_ (find id e.orders) e

  -- The lambda of `on_executed`.
  unfoldable pub notify : Option OrderInfo → Qty → Price → ℕ → ℕ → Engine B → Engine B
  notify none q price match_id liquidity e = e
  notify (some info) q price match_id liquidity e =
      respond info.client_id
        (Gateway.executed (record {
          timestamp = e.now;
          token = info.token;
          executed_shares = q;
          execution_price = price;
          liquidity_flag = liquidity;
          match_number = match_id;
        }))
        e

  unfoldable pub notify_canceled : Option OrderInfo → Qty → Engine B → Engine B
  notify_canceled none q e = e
  notify_canceled (some info) q e =
      respond info.client_id
        (Gateway.canceled
          (record { timestamp = e.now; token = info.token; decrement_shares = q; reason = b'U' }))
        e

  -- The engine as the books' listener.
  unfoldable pub on_event : Event → Engine B → Engine B
  on_event (Book.added id side price q) e = publish (Book.added id side price q) e
  on_event (Book.executed resting aggressor side price q match_id) e =
      let e1 = publish (Book.executed resting aggressor side price q match_id) e in
      let e2 = notify (find resting e1.orders) q price match_id b'A' e1 in
      let e3 = notify (find aggressor e2.orders) q price match_id b'R' e2 in
      reduce_open aggressor q (reduce_open resting q e3)
  on_event (Book.canceled id q removed) e =
      let e1 = publish (Book.canceled id q removed) e in
      let e2 = if e1.suppress_ouch_cancel then e1 else notify_canceled (find id e1.orders) q e1 in
      if removed then reduce_open id q e2 else lower_open id q (find id e2.orders) e2
  on_event (Book.replaced old_id new_id side price q) e =
      publish (Book.replaced old_id new_id side price q) e

  unfoldable pub on_events : List Event → Engine B → Engine B
  on_events [] e = e
  on_events (ev ∷ evs) e = on_events evs (on_event ev e)

  unfoldable pub find_book : List ℕ → List (List ℕ × B) → B → B
  find_book symbol [] fresh = fresh
  find_book symbol ((s, b) ∷ bs) fresh =
      let rest = find_book symbol bs fresh in if same_chars symbol s then b else rest

  unfoldable pub put_book : List ℕ → B → List (List ℕ × B) → List (List ℕ × B)
  put_book symbol b [] = (symbol, b) ∷ []
  put_book symbol b ((s, c) ∷ bs) =
      let rest = put_book symbol b bs in if same_chars symbol s then (s, b) ∷ bs else (s, c) ∷ rest

  -- Stores the book after an operation on it and passes its events on.
  unfoldable pub settle : List ℕ → List Event × B → Engine B → Engine B
  settle symbol (evs, b) e = on_events evs (record e { books = put_book symbol b e.books })

  unfoldable pub cancel_unrested : ℕ → OrderId → List ℕ → Qty → ℕ → Engine B → Engine B
  cancel_unrested client ref t q reason e = drop_order ref client t (
      respond client
        (Gateway.canceled
          (record { timestamp = e.now; token = t; decrement_shares = q; reason = reason }))
        e)
