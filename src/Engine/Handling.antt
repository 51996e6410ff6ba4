-- ===== src/Engine/Handling.antt =====
-- The three command handlers and `process` of src/engine/engine.cpp.
use nasdaq_matching_engine.Common.{
  ℕ, List, [], ◌∷◌, true, false, not, ◌==◌, ltb, ◌&&◌, ◌||◌, Option, none, some, if◌then◌else◌,
}
use nasdaq_matching_engine.Common.Int.{pos, le?, eq?}
use nasdaq_matching_engine.Common.Maps.{find, erase}
use nasdaq_matching_engine.Common.Words.{sub32, add64}
use nasdaq_matching_engine.Types.{Qty, OrderId, Side}
use nasdaq_matching_engine.Ouch.{market_price, tif_ioc}
use nasdaq_matching_engine.Ouch.Inbound.{EnterOrder, CancelOrder, ReplaceOrder}
use nasdaq_matching_engine.Gateway.{Inbound, enter, cancel, replace, Command}
use nasdaq_matching_engine.Gateway
use nasdaq_matching_engine.Engine.{
  BookOps, OrderInfo, Engine, key, find_key, erase_key, respond, token_used, reject,
}
use nasdaq_matching_engine.Engine.Events.{
  side_char, side_of_char, max_price, find_book, settle, cancel_unrested,
}

module _ {B : Type 0} (ops : BookOps B) where
  unfoldable pub book_for : List ℕ → Engine B → B
  book_for symbol e = find_book symbol e.books ops.empty

  -- The bookkeeping of an order that passed the checks, under the reference `next_ref_`.
  unfoldable pub register : ℕ → List ℕ → List ℕ → Side → Qty → Engine B → Engine B
  register client t symbol side q e =
      let ref = e.next_ref in
      record e {
        next_ref = add64 ref 1;
        used_tokens = key client t ∷ e.used_tokens;
        live_tokens = (key client t, ref) ∷ erase_key (key client t) e.live_tokens;
        orders =
            (
              ref,
              record { client_id = client; token = t; symbol = symbol; side = side; open_qty = q },
            )
            ∷ erase ref e.orders;
        current_symbol = symbol;
      }

  unfoldable pub accepted_for : OrderId → EnterOrder → ℕ → Gateway.Outbound
  accepted_for ref m now = Gateway.accepted (record {
    timestamp = now;
    token = m.token;
    side = m.side;
    shares = m.shares;
    stock = m.stock;
    price = m.price;
    tif = m.tif;
    firm = m.firm;
    display = m.display;
    order_ref = ref;
    capacity = m.capacity;
    intermarket_sweep = m.intermarket_sweep;
    min_qty = m.min_qty;
    cross_type = m.cross_type;
    order_state = b'L';
    bbo_weight_indicator = 0;
  })

  -- What follows `execute_ioc`.
  unfoldable pub cancel_remainder : ℕ → OrderId → List ℕ → Qty → Qty → Engine B → Engine B
  cancel_remainder client ref t shares filled e =
      let remainder = sub32 shares filled in
      if ltb 0 remainder then cancel_unrested client ref t remainder b'I' e else e

  -- What `handle` does with an accepted order: the minimum quantity, then an immediate order, then
  -- one that may rest.
  unfoldable pub trade_order : ℕ → OrderId → EnterOrder → Engine B → Engine B
  trade_order client ref m e =
      let market = eq? m.price market_price in
      let side = side_of_char m.side in
      let limit = if market then (if m.side == b'B' then max_price else pos 1) else m.price in
      let book = book_for m.stock e in
      let (filled, swept) = ops.execute_ioc ref side limit m.shares book in
      if ltb 0 m.min_qty && ltb (ops.matchable side limit book) m.min_qty
      then cancel_unrested client ref m.token m.shares b'D' e
      else if market || (m.tif == tif_ioc)
      then cancel_remainder client ref m.token m.shares filled (settle m.stock swept e)
      else settle m.stock (ops.add ref side m.price m.shares book) e

  unfoldable pub handle_enter : ℕ → EnterOrder → Engine B → Engine B
  handle_enter client m e =
      let market = eq? m.price market_price in
      let ref = e.next_ref in
      let e1 = register client m.token m.stock (side_of_char m.side) m.shares e in
      let e2 = respond client (accepted_for ref m e1.now) e1 in
      if token_used client m.token e
      then reject client m.token b'T' e
      else if not market && le? m.price (pos 0)
      then reject client m.token b'X' e
      else if m.shares == 0
      then reject client m.token b'Z' e
      else if not (m.side == b'B') && not (m.side == b'S')
      then reject client m.token b'S' e
      else trade_order client ref m e2

  unfoldable pub cancel_found : OrderId → Qty → Option OrderInfo → Engine B → Engine B
  cancel_found ref q none e = e
  cancel_found ref q (some info) e =
      settle info.symbol (ops.cancel ref q (book_for info.symbol e))
        (record e { current_symbol = info.symbol })

  unfoldable pub cancel_live : Qty → Option OrderId → Engine B → Engine B
  cancel_live q none e = e
  cancel_live q (some ref) e = cancel_found ref q (find ref e.orders) e

  unfoldable pub handle_cancel : ℕ → CancelOrder → Engine B → Engine B
  handle_cancel client m e = cancel_live m.shares (find_key (key client m.token) e.live_tokens) e

  unfoldable pub replaced_for : OrderId → OrderInfo → ReplaceOrder → ℕ → Gateway.Outbound
  replaced_for new_ref info m now = Gateway.replaced (record {
    timestamp = now;
    replacement_token = m.replacement_token;
    side = side_char info.side;
    shares = m.shares;
    stock = info.symbol;
    price = m.price;
    tif = m.tif;
    firm = 0 ∷ 0 ∷ 0 ∷ 0 ∷ [];
    display = m.display;
    order_ref = new_ref;
    capacity = 0;
    intermarket_sweep = m.intermarket_sweep;
    min_qty = m.min_qty;
    cross_type = 0;
    order_state = b'L';
    bbo_weight_indicator = 0;
    previous_token = info.token;
  })

  -- The replacement of an order that was found: the answer, the new order's bookkeeping in place of
  -- the old one's, and the book's `replace` with the Canceled of the old order held back.
  unfoldable pub replace_found : ℕ → ReplaceOrder → OrderId → Option OrderInfo → Engine B → Engine B
  replace_found client m old_ref none e = e
  replace_found client m old_ref (some info) e =
      let new_ref = e.next_ref in
      let e1 = respond client (replaced_for new_ref info m e.now) e in
      let e2 = record e1 {
        live_tokens = erase_key (key client m.existing_token) e1.live_tokens;
        orders = erase old_ref e1.orders;
      } in
      let e3 = register client m.replacement_token info.symbol info.side m.shares e2 in
      let e4 = record e3 { suppress_ouch_cancel = true } in
      let e5 =
        settle info.symbol (ops.replace old_ref new_ref m.price m.shares (book_for info.symbol e4))
          e4 in
      record e5 { suppress_ouch_cancel = false }

  unfoldable pub replace_live : ℕ → ReplaceOrder → Option OrderId → Engine B → Engine B
  replace_live client m none e = e
  replace_live client m (some old_ref) e =
      let done = replace_found client m old_ref (find old_ref e.orders) e in
      if token_used client m.replacement_token e
      then e
      else if le? m.price (pos 0) || (m.shares == 0)
      then e
      else done

  unfoldable pub handle_replace : ℕ → ReplaceOrder → Engine B → Engine B
  handle_replace client m e =
      replace_live client m (find_key (key client m.existing_token) e.live_tokens) e

  -- `now` is what `ns_since_midnight` returns.
  unfoldable pub handle : ℕ → Inbound → Engine B → Engine B
  handle client (enter m) e = handle_enter client m e
  handle client (cancel m) e = handle_cancel client m e
  handle client (replace m) e = handle_replace client m e

  unfoldable pub process : ℕ → Command → Engine B → Engine B
  process now cmd e = handle cmd.client_id cmd.msg (record e { now = now })
