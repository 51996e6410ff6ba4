-- ===== src/ItchBook/Replay.antt =====
-- One event of a book, told to the client's book of src/client/itch_book.cpp as the feed tells it.
use nasdaq_matching_engine.Common.{
  ℕ, ◌-◌, ◌≤◌, ◌<◌, ◌≡◌, refl, List, [], ◌∷◌, Option, none, some, arith,
}
use nasdaq_matching_engine.Common.Words.{add64}
use nasdaq_matching_engine.Types.{Price, Qty, OrderId, Side}
use nasdaq_matching_engine.Book.{Event, executed, Order}
use nasdaq_matching_engine.Book.Priority.{locate}
use nasdaq_matching_engine.Book.Priority.Orders.{count-remove, count-reduce}
use nasdaq_matching_engine.Book.Reference.{Level, erase_from, reduce_at}
use nasdaq_matching_engine.Book.Reference.Valid.{flatten}
use nasdaq_matching_engine.Book.Reference.Erasing.{
  erase_from-remove, erase_from-AreLevels, erase_from-IsSorted,
}
use nasdaq_matching_engine.Book.Reference.Reducing.{
  reduce_at-reduce, reduce_at-AreLevels, reduce_at-IsSorted,
}
use nasdaq_matching_engine.Feed.{message_for}
use nasdaq_matching_engine.ItchBook.{ItchBookBuilder, on_message, visit, note_trade, price_of}
use nasdaq_matching_engine.ItchBook.Steps.{
  Shows, AreSides, remove_order-Shows, reduce_order-Shows, reduce_order-all,
}

-- When the engine stamps an event, and the locate code of its message.
abbrev pub Stamp : Type 0
Stamp = Event → ℕ × ℕ

-- The client handles the message of an event.
unfoldable pub tell : Stamp → List ℕ → Event → ItchBookBuilder → ItchBookBuilder
tell stamp symbol e b =
    on_message (message_for e (record { ts = (stamp e).0; symbol = symbol; ev = e }) (stamp e).1) b

unfoldable pub tell_all : Stamp → List ℕ → List Event → ItchBookBuilder → ItchBookBuilder
tell_all stamp symbol [] b = b
tell_all stamp symbol (e ∷ es) b = tell_all stamp symbol es (tell stamp symbol e b)

pub Shows-same :
    (symbol : List ℕ) (s : Side) (own opp : List Level) (b b' : ItchBookBuilder)
    → b'.orders ≡ b.orders
    → b'.books ≡ b.books
    → Shows symbol s own opp b
    → Shows symbol s own opp b'
Shows-same symbol s own opp b b' e f sh = record {
  own_rows = rw f sh.own_rows;
  opp_rows = rw f sh.opp_rows;
  entries = rw e sh.entries;
}

note_trade-orders :
    (p : Option Price) (n : ℕ) (b : ItchBookBuilder) → (note_trade p n b).orders ≡ b.orders
unfolding note_trade
note_trade-orders none n b = refl
note_trade-orders (some p) n b = refl

note_trade-books :
    (p : Option Price) (n : ℕ) (b : ItchBookBuilder) → (note_trade p n b).books ≡ b.books
unfolding note_trade
note_trade-books none n b = refl
note_trade-books (some p) n b = refl

pub erase_from-AreSides :
    (s : Side) (own opp : List Level) (id : OrderId) (o : Order)
    → AreSides s own opp
    → locate id (flatten own) ≡ some o
    → AreSides s (erase_from id o.open_qty o.price own) opp
erase_from-AreSides s own opp id o w e = record {
  levels = erase_from-AreLevels s id own o w.levels w.sorted e;
  sorted = erase_from-IsSorted s id o.open_qty o.price own w.sorted;
  distinct = λ k.
      rw (erase_from-remove s id own o w.levels w.sorted e)
        (omega (arith, w.distinct k, count-remove k id (flatten own)));
}

pub reduce_at-AreSides :
    (s : Side) (own opp : List Level) (id : OrderId) (keep : Qty) (o : Order)
    → 0 < keep
    → keep < o.open_qty
    → AreSides s own opp
    → locate id (flatten own) ≡ some o
    → AreSides s (reduce_at id keep (o.open_qty - keep) o.price own) opp
reduce_at-AreSides s own opp id keep o h l w e = record {
  levels = reduce_at-AreLevels s id keep own o h l w.levels w.sorted e;
  sorted = reduce_at-IsSorted s id keep (o.open_qty - keep) o.price own w.sorted;
  distinct = λ k.
      rw (reduce_at-reduce s id keep (o.open_qty - keep) own o w.levels w.sorted e)
        (omega (arith, w.distinct k, count-reduce k id keep (flatten own)));
}

module _ (stamp : Stamp) (symbol : List ℕ) (s : Side) (own opp : List Level) (b : ItchBookBuilder)
    (w : AreSides s own opp) (sh : Shows symbol s own opp b) where
  -- The book that an execution's message finds, after it noted the trade.
  abbrev noted : Event → OrderId → Qty → ItchBookBuilder
  noted e ref shares =
      let b₁ : ItchBookBuilder = record b { messages = add64 b.messages 1 } in
      note_trade (price_of ref b₁) shares (record b₁ { last_ts = (stamp e).0 })

  noted-Shows : (e : Event) (ref : OrderId) (q : Qty) → Shows symbol s own opp (noted e ref q)
  noted-Shows e ref q =
      Shows-same symbol s own opp b (noted e ref q) (note_trade-orders _ q _)
        (note_trade-books _ q _) sh

  -- The message of an execution that uses the order up.
  pub executed-gone :
      (id a : OrderId) (t : Side) (p : Price) (q : Qty) (n : ℕ) (o : Order)
      → o.side ≡ s
      → locate id (flatten own) ≡ some o
      → o.open_qty ≤ q
      → Shows symbol s
          (erase_from id o.open_qty o.price own)
          opp
          (tell stamp symbol (executed id a t p q n) b)
  unfolding tell on_message message_for visit
  executed-gone id a t p q n o side e l =
      let e₀ = executed id a t p q n in
      let sh₁ = noted-Shows e₀ id q in
      rw (reduce_order-all symbol s own opp (noted e₀ id q) w sh₁ id o q e (ground (arith, l)))
        (remove_order-Shows symbol s own opp (noted e₀ id q) w sh₁ id o side e)

  -- The message of an execution that leaves shares of the order.
  pub executed-less :
      (id a : OrderId) (t : Side) (p : Price) (q : Qty) (n : ℕ) (o : Order)
      → locate id (flatten own) ≡ some o
      → q < o.open_qty
      → Shows symbol s
          (reduce_at id (o.open_qty - q) q o.price own)
          opp
          (tell stamp symbol (executed id a t p q n) b)
  unfolding tell on_message message_for visit
  executed-less id a t p q n o e l =
      let e₀ = executed id a t p q n in
      reduce_order-Shows symbol s own opp (noted e₀ id q) w (noted-Shows e₀ id q) id o q
        (o.open_qty - q) e (ground (arith, l)) refl
