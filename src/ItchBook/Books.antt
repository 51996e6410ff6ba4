-- ===== src/ItchBook/Books.antt =====
-- The events of one change of the reference book, told to the client's book of
-- src/client/itch_book.cpp.
use nasdaq_matching_engine.Common.{
  ℕ, ◌+◌, ◌-◌, ◌≤◌, ◌<◌, ◌≡◌, refl, ap, ◌∙◌, true, false, List, none, some, arith, inl, inr,
  Option-cases,
}
use nasdaq_matching_engine.Common.Words.{add64}
use nasdaq_matching_engine.Common.Maps.{find}
use nasdaq_matching_engine.Types.{Price, Qty, OrderId, Side, buy, sell}
use nasdaq_matching_engine.Book.{Event, added, canceled, replaced, Order, opposite}
use nasdaq_matching_engine.Book.Priority.{locate, or_else}
use nasdaq_matching_engine.Book.Priority.Orders.{count, count-locate}
use nasdaq_matching_engine.Book.Reference.{
  Level, OrderBook, side_of, with_side, push_order, erase_from, reduce_at,
}
use nasdaq_matching_engine.Book.Reference.Valid.{flatten, AreDistinct, IsValid}
use nasdaq_matching_engine.Engine.Events.{side_char, side_of_char}
use nasdaq_matching_engine.Feed.{message_for}
use nasdaq_matching_engine.ItchBook.{
  ItchBookBuilder, on_message, visit, remove_order, add_order, replace_order,
}
use nasdaq_matching_engine.ItchBook.Steps.{
  Shows, AreSides, entry, entry_of, remove_order-Shows, reduce_order-Shows, add_order-Shows, found,
}
use nasdaq_matching_engine.ItchBook.Replay.{Stamp, tell, Shows-same, erase_from-AreSides}

-- The client's book has the orders of the reference book.
abbrev pub Mirrors : List ℕ → OrderBook → ItchBookBuilder → Type 0
Mirrors symbol r b = Shows symbol buy r.bids r.asks b

-- An id is on one side at most.
or_else_comm :
    (k : ℕ) (xs ys : List Order)
    → count k xs + count k ys ≤ 1
    → or_else (locate k xs) (locate k ys) ≡ or_else (locate k ys) (locate k xs)
or_else_comm k xs ys h = elim (Option-cases (locate k xs)) [
  | inl e ↦ elim (Option-cases (locate k ys)) [
    | inl g ↦ rw (e, g) refl
    | inr (o, g) ↦ rw (e, g) refl
  ]
  | inr (x, e) ↦ elim (Option-cases (locate k ys)) [
    | inl g ↦ rw (e, g) refl
    | inr (y, g) ↦
        absurd (omega (arith, h, count-locate k xs {o = x} e, count-locate k ys {o = y} g))
  ]
]

pub Shows-flip :
    (symbol : List ℕ) (s : Side) (own opp : List Level) (b : ItchBookBuilder)
    → AreDistinct (flatten own) (flatten opp)
    → Shows symbol s own opp b
    → Shows symbol (opposite s) opp own b
Shows-flip symbol buy own opp b d sh = record {
  own_rows = sh.opp_rows;
  opp_rows = sh.own_rows;
  entries =
      λ k. sh.entries k ∙ ap (entry_of symbol) (or_else_comm k (flatten own) (flatten opp) (d k));
}
Shows-flip symbol sell own opp b d sh = record {
  own_rows = sh.opp_rows;
  opp_rows = sh.own_rows;
  entries =
      λ k. sh.entries k ∙ ap (entry_of symbol) (or_else_comm k (flatten own) (flatten opp) (d k));
}

pub AreSides-own :
    (s : Side) (r : OrderBook) → IsValid r → AreSides s (side_of s r) (side_of (opposite s) r)
AreSides-own buy r v = record {
  levels = v.bid_levels;
  sorted = v.bids_sorted;
  distinct = v.distinct;
}
AreSides-own sell r v = record {
  levels = v.ask_levels;
  sorted = v.asks_sorted;
  distinct = λ k. omega (arith, v.distinct k);
}

pub Shows-own :
    (symbol : List ℕ) (s : Side) (r : OrderBook) (b : ItchBookBuilder)
    → AreDistinct (flatten r.bids) (flatten r.asks)
    → Mirrors symbol r b
    → Shows symbol s (side_of s r) (side_of (opposite s) r) b
Shows-own symbol buy r b d m = m
Shows-own symbol sell r b d m = Shows-flip symbol buy r.bids r.asks b d m

pub Mirrors-own :
    (symbol : List ℕ) (s : Side) (own : List Level) (r : OrderBook) (b : ItchBookBuilder)
    → AreSides s own (side_of (opposite s) r)
    → Shows symbol s own (side_of (opposite s) r) b
    → Mirrors symbol (with_side s own r) b
Mirrors-own symbol buy own r b w sh = sh
Mirrors-own symbol sell own r b w sh = Shows-flip symbol sell own r.bids b w.distinct sh

side_of_char-side_char : (t : Side) → side_of_char (side_char t) ≡ t
side_of_char-side_char buy = refl
side_of_char-side_char sell = refl

module _ (stamp : Stamp) (symbol : List ℕ) (s : Side) (own opp : List Level) (b : ItchBookBuilder)
    (w : AreSides s own opp) (sh : Shows symbol s own opp b) where
  -- The book with the time and the count of a message noted.
  abbrev heard : Event → ItchBookBuilder
  heard e = record b { messages = add64 b.messages 1; last_ts = (stamp e).0 }

  heard-Shows : (e : Event) → Shows symbol s own opp (heard e)
  heard-Shows e = Shows-same symbol s own opp b (heard e) refl refl sh

  tell-added :
      (id : OrderId) (t : Side) (price : Price) (q : Qty)
      → tell stamp symbol (added id t price q) b
        ≡ add_order id symbol t price q (heard (added id t price q))
  unfolding tell on_message message_for visit
  tell-added id t price q =
      ap (λ c. add_order id symbol c price q (heard (added id t price q)))
        (side_of_char-side_char t)

  pub added-Shows :
      (id : OrderId) (price : Price) (q : Qty)
      → find id b.orders ≡ none
      → Shows symbol s
          (push_order s (record { id = id; side = s; price = price; open_qty = q }) own)
          opp
          (tell stamp symbol (added id s price q) b)
  added-Shows id price q new = rw (tell-added id s price q) (
      add_order-Shows symbol s own opp (heard (added id s price q)) w
        (heard-Shows (added id s price q))
        (record { id = id; side = s; price = price; open_qty = q }) refl new)

  pub deleted-Shows :
      (id : OrderId) (o : Order) (n : Qty)
      → o.side ≡ s
      → locate id (flatten own) ≡ some o
      → Shows symbol s
          (erase_from id o.open_qty o.price own)
          opp
          (tell stamp symbol (canceled id n true) b)
  unfolding tell on_message message_for visit
  deleted-Shows id o n side e =
      let ev = canceled id n true in
      remove_order-Shows symbol s own opp (heard ev) w (heard-Shows ev) id o side e

  pub canceled-Shows :
      (id : OrderId) (o : Order) (keep : Qty)
      → 0 < keep
      → keep < o.open_qty
      → locate id (flatten own) ≡ some o
      → Shows symbol s
          (reduce_at id keep (o.open_qty - keep) o.price own)
          opp
          (tell stamp symbol (canceled id (o.open_qty - keep) false) b)
  unfolding tell on_message message_for visit
  canceled-Shows id o keep h l e =
      let ev = canceled id (o.open_qty - keep) false in
      reduce_order-Shows symbol s own opp (heard ev) w (heard-Shows ev) id o (o.open_qty - keep)
        keep e (ground (arith, h, l)) (omega (arith, l))

  replace_order-found :
      (id new : OrderId) (o : Order) (price : Price) (q : Qty) (b' : ItchBookBuilder)
      → find id b'.orders ≡ some (entry symbol o)
      → o.side ≡ s
      → replace_order id new price q b' ≡ add_order new symbol s price q (remove_order id b')
  unfolding replace_order
  replace_order-found id new o price q b' e side =
      rw (replace_order, e) (ap (λ t. add_order new symbol t price q (remove_order id b')) side)

  pub replaced-Shows :
      (id new : OrderId) (o : Order) (price : Price) (q : Qty)
      → o.side ≡ s
      → locate id (flatten own) ≡ some o
      → or_else
          (locate new (flatten (erase_from id o.open_qty o.price own)))
          (locate new (flatten opp))
        ≡ none
      → Shows symbol s
          (push_order s
            (record { id = new; side = s; price = price; open_qty = q })
            (erase_from id o.open_qty o.price own))
          opp
          (tell stamp symbol (replaced id new s price q) b)
  unfolding tell on_message message_for visit
  replaced-Shows id new o price q side e absent =
      let ev = replaced id new s price q in
      let b₁ = heard ev in
      let sh₁ = heard-Shows ev in
      let sh₂ = remove_order-Shows symbol s own opp b₁ w sh₁ id o side e in
      let w₂ = erase_from-AreSides s own opp id o w e in
      rw (replace_order-found id new o price q b₁ (found symbol s own opp b₁ w sh₁ id o e) side) (
        add_order-Shows symbol s (erase_from id o.open_qty o.price own) opp (remove_order id b₁) w₂
          sh₂ (record { id = new; side = s; price = price; open_qty = q }) refl
          (sh₂.entries new ∙ ap (entry_of symbol) absent))
