-- ===== src/ItchBook/Integrity.antt =====
-- The whole way from the calls of a book to the snapshot of a client, src/client/itch_book.cpp.
use nasdaq_matching_engine.Common.{
  ℕ, ◌≤◌, ◌≡◌, refl, ap, ◌∙◌, true, false, List, [], ◌∷◌, ◌++◌, map, some, ◌==◌, arith, All,
}
use nasdaq_matching_engine.Common.Maps.{find}
use nasdaq_matching_engine.Types.{OrderId, Side, buy, sell}
use nasdaq_matching_engine.Book.{Order, SnapshotOrder}
use nasdaq_matching_engine.Book.Priority.{locate, or_else}
use nasdaq_matching_engine.Book.Priority.Orders.{count, count-locate}
use nasdaq_matching_engine.Book.Reference
use nasdaq_matching_engine.Book.Reference.{Level, OrderBook, snapshot_level, empty_book}
use nasdaq_matching_engine.Book.Reference.Valid.{flatten, IsValid}
use nasdaq_matching_engine.Book.Reference.History.{
  Call, adds, cancels, replaces, step, run, IsCall, step-IsValid, empty_book-IsValid, run-IsValid,
}
use nasdaq_matching_engine.ItchBook.{
  ItchBookBuilder, BuilderOrder, new_builder, book_of, qty_of, fill_rows, snapshot,
}
use nasdaq_matching_engine.ItchBook.Rows.{row_of}
use nasdaq_matching_engine.ItchBook.Steps.{Shows, entry_of}
use nasdaq_matching_engine.ItchBook.Replay.{Stamp, tell_all}
use nasdaq_matching_engine.ItchBook.Books.{Mirrors, Shows-flip}
use nasdaq_matching_engine.ItchBook.Following.{Told, nothing-Told, Told-trans}
use nasdaq_matching_engine.ItchBook.Calls.{add-Told, cancel-Told, replace-Told}

-- With ids that stand once, each order of a list is the one that its id leads to.
abbrev Leads : List Order → Order → Type 0
Leads xs o = locate o.id xs ≡ some o

Leads-later :
    (x : Order) (xs os : List Order)
    → ((k : OrderId) → count k (x ∷ xs) ≤ 1)
    → All (Leads xs) os
    → All (Leads (x ∷ xs)) os
unfolding count locate
Leads-later x xs [] d a = tt
Leads-later x xs (o ∷ os) d (e, a) =
    let once = count-locate o.id xs {o = o} e in
    let other : (x.id == o.id) ≡ false = ground (arith, d o.id, once) in
    (rw other e, Leads-later x xs os d a)

All-Leads : (xs : List Order) → ((k : OrderId) → count k xs ≤ 1) → All (Leads xs) xs
unfolding locate
All-Leads [] d = tt
All-Leads (x ∷ xs) d =
    let self : (x.id == x.id) ≡ true = ground arith in
    (rw self refl, Leads-later x xs xs d (All-Leads xs (λ k. unfold count in omega (arith, d k))))

module _ (orders : List (ℕ × BuilderOrder)) where
  -- The client's map has the open quantity of an order.
  abbrev Has : Order → Type 0
  Has o = qty_of o.id orders ≡ o.open_qty

  Has-parts : (xs ys : List Order) → All Has (xs ++ ys) → All Has xs × All Has ys
  Has-parts [] ys a = (tt, a)
  Has-parts (x ∷ xs) ys (h, a) = let (b, c) = Has-parts xs ys a in ((h, b), c)

  abbrev shown : ℕ → SnapshotOrder
  shown r = record { id = r; qty = qty_of r orders }

  abbrev order_shown : Order → SnapshotOrder
  order_shown o = record { id = o.id; qty = o.open_qty }

  level-shown : (os : List Order) → All Has os → map shown (map (λ o. o.id) os) ≡ map order_shown os
  level-shown [] a = refl
  level-shown (o ∷ os) (h, a) =
      ap (λ q. record { id = o.id; qty = q } ∷ map shown (map (λ x. x.id) os)) h
      ∙ ap (λ l. order_shown o ∷ l) (level-shown os a)

  fill_rows-map :
      (ls : List Level)
      → All Has (flatten ls)
      → fill_rows orders (map row_of ls) ≡ map snapshot_level ls
  unfolding fill_rows snapshot_level
  fill_rows-map [] a = refl
  fill_rows-map (l ∷ ls) a =
      let (b, c) = Has-parts l.orders (flatten ls) a in
      ap (λ os. record { price = l.price; orders = os } ∷ fill_rows orders (map row_of ls))
        (level-shown l.orders b)
      ∙ ap (λ r. record { price = l.price; orders = map order_shown l.orders } ∷ r)
          (fill_rows-map ls c)

All-Has :
    (symbol : List ℕ) (s : Side) (own opp : List Level) (b : ItchBookBuilder)
    → Shows symbol s own opp b
    → (os : List Order) → All (Leads (flatten own)) os
    → All (Has b.orders) os
unfolding qty_of
All-Has symbol s own opp b sh [] a = tt
All-Has symbol s own opp b sh (o ∷ os) (e, a) =
    let held : find o.id b.orders ≡ entry_of symbol (some o) =
      sh.entries o.id ∙ ap (λ x. entry_of symbol (or_else x (locate o.id (flatten opp)))) e in
    (rw (qty_of, held) refl, All-Has symbol s own opp b sh os a)

-- A client that has the orders of a book shows its snapshot.
Mirrors-snapshot :
    (symbol : List ℕ) (r : OrderBook) (b : ItchBookBuilder)
    → IsValid r
    → Mirrors symbol r b
    → snapshot symbol b ≡ Reference.snapshot r
unfolding snapshot Reference.snapshot
Mirrors-snapshot symbol r b v m =
    let flipped = Shows-flip symbol buy r.bids r.asks b v.distinct m in
    let bids =
      All-Has symbol buy r.bids r.asks b m (flatten r.bids)
        (All-Leads (flatten r.bids) (λ k. omega (arith, v.distinct k))) in
    let asks =
      All-Has symbol sell r.asks r.bids b flipped (flatten r.asks)
        (All-Leads (flatten r.asks) (λ k. omega (arith, v.distinct k))) in
    let bid_rows = ap (fill_rows b.orders) m.own_rows ∙ fill_rows-map b.orders r.bids bids in
    let ask_rows = ap (fill_rows b.orders) m.opp_rows ∙ fill_rows-map b.orders r.asks asks in
    ap (λ x. record { bids = x; asks = fill_rows b.orders (book_of symbol b.books).asks }) bid_rows
    ∙ ap (λ y. record { bids = map snapshot_level r.bids; asks = y }) ask_rows

step-Told :
    (stamp : Stamp) (symbol : List ℕ) (r : OrderBook) (c : Call) (b : ItchBookBuilder)
    → IsCall c
    → IsValid r
    → Mirrors symbol r b
    → Told stamp symbol r (step r c) b
unfolding step
step-Told stamp symbol r (adds id s price qty) b k v m =
    add-Told stamp symbol id s price qty r b v k m
step-Told stamp symbol r (cancels id keep) b k v m = cancel-Told stamp symbol id keep r b v m
step-Told stamp symbol r (replaces old new price qty) b k v m =
    replace-Told stamp symbol old new price qty r b v k m

run-Told :
    (stamp : Stamp) (symbol : List ℕ) (r : OrderBook) (cs : List Call) (b : ItchBookBuilder)
    → All IsCall cs
    → IsValid r
    → Mirrors symbol r b
    → Told stamp symbol r (run r cs) b
unfolding run
run-Told stamp symbol r [] b a v m = nothing-Told stamp symbol r b m
run-Told stamp symbol r (c ∷ cs) b (k, a) v m =
    let t = step-Told stamp symbol r c b k v m in
    Told-trans stamp symbol r (step r c) (run (step r c) cs) b t (
      run-Told stamp symbol (step r c) cs (tell_all stamp symbol t.events b) a
        (step-IsValid r c k v) t.mirrors)

new_builder-Mirrors : (symbol : List ℕ) → Mirrors symbol empty_book new_builder
unfolding book_of locate
new_builder-Mirrors symbol = record { own_rows = refl; opp_rows = refl; entries = λ k. refl }

-- A client that handles the ITCH messages of all events of a book, in their order, shows the snapshot of
-- the book, after any history of add, cancel and replace calls with uint32_t quantities from the empty
-- book. Each event may be stamped with any time and locate code.
pub client-snapshot :
    (stamp : Stamp) (symbol : List ℕ) (cs : List Call)
    → All IsCall cs
    → snapshot symbol (tell_all stamp symbol (run empty_book cs).log new_builder)
      ≡ Reference.snapshot (run empty_book cs)
client-snapshot stamp symbol cs a =
    let t =
      run-Told stamp symbol empty_book cs new_builder a empty_book-IsValid
        (new_builder-Mirrors symbol) in
    ap (λ es. snapshot symbol (tell_all stamp symbol es new_builder)) t.logged
    ∙ Mirrors-snapshot symbol (run empty_book cs) _ (run-IsValid cs a) t.mirrors
