-- ===== src/Book/Reference/Cancelling.antt =====
-- `OrderBook::cancel` of src/book/order_book.cpp against the contract of `Book.Priority`.
use nasdaq_matching_engine.Common.{
  ◌-◌, ◌<◌, ◌≡◌, refl, sym, ap, ◌∙◌, List, [], ◌∷◌, arith, leb, ◌==◌, inl, inr, Bool-cases, none,
  some, Option-cases, ◌⊎◌,
}
use nasdaq_matching_engine.Common.Maps.{find, erase}
use mathlib.Core.Path.{subst}
use nasdaq_matching_engine.Types.{Price, Qty, OrderId, Side, buy, sell}
use nasdaq_matching_engine.Book.{Order, opposite}
use nasdaq_matching_engine.Book.Priority
use nasdaq_matching_engine.Book.Priority.{locate, find_order, or_else}
use nasdaq_matching_engine.Book.Priority.Orders.{locate-append, All-locate}
use nasdaq_matching_engine.Book.Reference.{
  Level, OrderBook, side_of, with_side, deref, erase_from, remove, emit, cancel_order, cancel,
  reduce_at,
}
use nasdaq_matching_engine.Book.Reference.Removal.{deref_lem}
use nasdaq_matching_engine.Book.Reference.Erasing.{erase_from-remove}
use nasdaq_matching_engine.Book.Reference.Reducing.{reduce_at-reduce}
use nasdaq_matching_engine.Book.Reference.Pair.{IsPair}
use nasdaq_matching_engine.Book.Reference.PairCancel.{erase_from-IsPair, reduce_at-IsPair}
use nasdaq_matching_engine.Book.Reference.Sides.{IsPair-of, IsValid-of, emit-IsValid}
use nasdaq_matching_engine.Book.Reference.Valid.{flatten, Fits, AreLevels, handle_of, IsValid, view}

located_side :
    (s : Side) (id : OrderId) (ls : List Level) (o : Order)
    → AreLevels s ls
    → locate id (flatten ls) ≡ some o
    → o.side ≡ s
located_side s id [] o v e = unfold locate in cc
located_side s id (l ∷ ls) o (v, vs) e = elim (Option-cases (locate id l.orders)) [
  | inl n ↦ located_side s id ls o vs (ground (arith, locate-append id l.orders (flatten ls)))
  | inr (x, m) ↦
      let same : x ≡ o = ground (arith, locate-append id l.orders (flatten ls)) in
      rw (← same) (All-locate (Fits s l.price) id l.orders v.fits m).1
]

-- An order of the contract's book that the index leads to.
pub record Found (id : OrderId) (b : OrderBook) (o : Order) : Type 0 where
  pub resting : find_order id (view b) ≡ some o
  pub here : locate id (flatten (side_of o.side b)) ≡ some o
  pub indexed : find id b.index ≡ some (handle_of o)
  pub pointed : deref id (handle_of o) b ≡ some o

deref_found :
    (id : OrderId) (b : OrderBook) (o : Order)
    → IsValid b
    → locate id (flatten (side_of o.side b)) ≡ some o
    → deref id (handle_of o) b ≡ some o
unfolding deref
deref_found id b o v e =
    let p : IsPair o.side (side_of o.side b) (side_of (opposite o.side) b) b.index =
      IsPair-of o.side b v in
    let (l, at, inside) = deref_lem o.side id (side_of o.side b) o p.own_levels p.own_sorted e in
    rw (at, deref) inside

find_here :
    (id : OrderId) (b : OrderBook) (o : Order)
    → IsValid b
    → find_order id (view b) ≡ some o
    → locate id (flatten (side_of o.side b)) ≡ some o
find_here id b o v e = elim (Option-cases (locate id (flatten b.bids))) [
  | inl n ↦
      let m : locate id (flatten b.asks) ≡ some o = ground arith in
      on_side sell (located_side sell id b.asks o v.ask_levels m) m
  | inr (x, m) ↦
      let same : x ≡ o = ground arith in
      let m' : locate id (flatten b.bids) ≡ some o = m ∙ ap some same in
      on_side buy (located_side buy id b.bids o v.bid_levels m') m'
]
  where
    on_side :
        (s : Side)
        → o.side ≡ s
        → locate id (flatten (side_of s b)) ≡ some o
        → locate id (flatten (side_of o.side b)) ≡ some o
    on_side s q m = subst (λ t. locate id (flatten (side_of t b)) ≡ some o) (sym q) m

-- The index and the contract find the same orders.
pub lookup_cases :
    (id : OrderId) (b : OrderBook)
    → IsValid b
    → ((find_order id (view b) ≡ none) × (find id b.index ≡ none)) ⊎ ((o : Order) × Found id b o)
lookup_cases id b v = elim (Option-cases (find_order id (view b))) [
  | inl n ↦ inl (n, ground (arith, v.tracked id))
  | inr (o, e) ↦
      let h : locate id (flatten (side_of o.side b)) ≡ some o = find_here id b o v e in
      inr (
        o,
        record {
          resting = e;
          here = h;
          indexed = v.tracked id ∙ ground arith;
          pointed = deref_found id b o v h;
        },
      )
]

pub remove-take_out :
    (id : OrderId) (b : OrderBook) (o : Order)
    → IsValid b
    → Found id b o
    → Priority.take_out id o.side (view b) ≡ view (remove id (handle_of o) o b)
remove-take_out id b o v f =
    by_side o.side
      (erase_from-remove o.side id (side_of o.side b) o p.own_levels p.own_sorted f.here)
  where
    p : IsPair o.side (side_of o.side b) (side_of (opposite o.side) b) b.index
    p = IsPair-of o.side b v

    by_side :
        (s : Side)
        → flatten (erase_from id o.open_qty o.price (side_of s b))
          ≡ Priority.remove id (flatten (side_of s b))
        → Priority.take_out id s (view b)
          ≡ view (remove id (record { side = s; price = o.price }) o b)
    by_side buy e = unfold remove Priority.take_out in rw e refl
    by_side sell e = unfold remove Priority.take_out in rw e refl

pub remove-IsValid :
    (id : OrderId) (b : OrderBook) (o : Order)
    → IsValid b
    → Found id b o
    → IsValid (remove id (handle_of o) o b)
remove-IsValid id b o v f = by_side o.side (
    erase_from-IsPair o.side (side_of o.side b) (side_of (opposite o.side) b) b.index id o
      (IsPair-of o.side b v) f.here)
  where
    by_side :
        (s : Side)
        → IsPair s
            (erase_from id o.open_qty o.price (side_of s b))
            (side_of (opposite s) b)
            (erase id b.index)
        → IsValid (remove id (record { side = s; price = o.price }) o b)
    by_side buy p = unfold remove in IsValid-of buy _ p
    by_side sell p = unfold remove in IsValid-of sell _ p

abbrev reduced_book : OrderId → Qty → Qty → Side → Price → OrderBook → OrderBook
reduced_book id keep gone s p b = with_side s (reduce_at id keep gone p (side_of s b)) b

reduced-reduce :
    (id : OrderId) (keep gone : Qty) (b : OrderBook) (o : Order)
    → IsValid b
    → Found id b o
    → Priority.with_side o.side
        (Priority.reduce id keep (Priority.side_of o.side (view b)))
        (view b)
      ≡ view (reduced_book id keep gone o.side o.price b)
reduced-reduce id keep gone b o v f =
    by_side o.side
      (reduce_at-reduce o.side id keep gone (side_of o.side b) o p.own_levels p.own_sorted f.here)
  where
    p : IsPair o.side (side_of o.side b) (side_of (opposite o.side) b) b.index
    p = IsPair-of o.side b v

    by_side :
        (s : Side)
        → flatten (reduce_at id keep gone o.price (side_of s b))
          ≡ Priority.reduce id keep (flatten (side_of s b))
        → Priority.with_side s (Priority.reduce id keep (Priority.side_of s (view b))) (view b)
          ≡ view (reduced_book id keep gone s o.price b)
    by_side buy e = rw e refl
    by_side sell e = rw e refl

reduced-IsValid :
    (id : OrderId) (keep : Qty) (b : OrderBook) (o : Order)
    → IsValid b
    → Found id b o
    → 0 < keep
    → keep < o.open_qty
    → IsValid (reduced_book id keep (o.open_qty - keep) o.side o.price b)
reduced-IsValid id keep b o v f h k = by_side o.side (
    reduce_at-IsPair o.side (side_of o.side b) (side_of (opposite o.side) b) b.index id o
      (IsPair-of o.side b v) f.here keep h k)
  where
    by_side :
        (s : Side)
        → IsPair s
            (reduce_at id keep (o.open_qty - keep) o.price (side_of s b))
            (side_of (opposite s) b)
            b.index
        → IsValid (reduced_book id keep (o.open_qty - keep) s o.price b)
    by_side buy p = IsValid-of buy _ p
    by_side sell p = IsValid-of sell _ p

pub cancel-Found :
    (id : OrderId) (keep : Qty) (b : OrderBook) (o : Order)
    → Found id b o
    → cancel id keep b ≡ cancel_order id keep (handle_of o) o b
unfolding cancel
cancel-Found id keep b o f = rw (f.indexed, cancel) (rw f.pointed refl)

cancel_order-refines :
    (id : OrderId) (keep : Qty) (b : OrderBook) (o : Order)
    → IsValid b
    → Found id b o
    → let (r, b') = cancel_order id keep (handle_of o) o b in
      Priority.cancel_order id keep o (view b) ≡ (r, view b')
unfolding cancel_order Priority.cancel_order Priority.emit emit
cancel_order-refines id keep b o v f =
    rw (remove-take_out id b o v f, reduced-reduce id keep (o.open_qty - keep) b o v f)
      (ground arith)

-- `cancel` answers, logs and changes the book exactly as the contract says.
pub cancel-refines :
    (id : OrderId) (keep : Qty) (b : OrderBook)
    → IsValid b
    → let (r, b') = cancel id keep b in Priority.cancel id keep (view b) ≡ (r, view b')
unfolding cancel Priority.cancel
cancel-refines id keep b v = elim (lookup_cases id b v) [
  | inl (n, m) ↦ rw (n, Priority.cancel, m, cancel) refl
  | inr (o, f) ↦
      rw (cancel-Found id keep b o f, f.resting, Priority.cancel)
        (cancel_order-refines id keep b o v f)
]

cancel_order-IsValid :
    (id : OrderId) (keep : Qty) (b : OrderBook) (o : Order)
    → IsValid b
    → Found id b o
    → IsValid (cancel_order id keep (handle_of o) o b).1
unfolding cancel_order
cancel_order-IsValid id keep b o v f = elim (Bool-cases (leb o.open_qty keep)) [
  | inl l ↦ rw l v
  | inr l ↦ elim (Bool-cases (keep == 0)) [
    | inl z ↦ rw (l, z) (emit-IsValid _ _ (remove-IsValid id b o v f))
    | inr z ↦
        rw (l, z) (emit-IsValid _ _ (reduced-IsValid id keep b o v f (ground arith) (ground arith)))
  ]
]

-- `cancel` leaves a valid book, whatever it is called with.
pub cancel-IsValid :
    (id : OrderId) (keep : Qty) (b : OrderBook) → IsValid b → IsValid (cancel id keep b).1
unfolding cancel
cancel-IsValid id keep b v = elim (lookup_cases id b v) [
  | inl (n, m) ↦ rw (m, cancel) v
  | inr (o, f) ↦ rw (cancel-Found id keep b o f) (cancel_order-IsValid id keep b o v f)
]
