-- ===== src/Book/Reference/Adding.antt =====
-- `OrderBook::add` of src/book/order_book.cpp against the contract of `Book.Priority`.
use nasdaq_matching_engine.Common.{
  ◌-◌, ◌<◌, ◌≡◌, refl, false, arith, ltb, ◌==◌, inl, inr, Bool-cases, none,
}
use nasdaq_matching_engine.Common.Int.{le?, pos}
use nasdaq_matching_engine.Common.Words.{word32}
use nasdaq_matching_engine.Common.Maps.{find, contains}
use nasdaq_matching_engine.Types.{Price, Qty, OrderId, Side, buy, sell}
use nasdaq_matching_engine.Book.{opposite}
use nasdaq_matching_engine.Book.Priority
use nasdaq_matching_engine.Book.Priority.{has_order}
use nasdaq_matching_engine.Book.Reference.{OrderBook, side_of, match_side, rest, emit, enter, add}
use nasdaq_matching_engine.Book.Reference.Pair.{IsPair}
use nasdaq_matching_engine.Book.Reference.Sides.{IsPair-of}
use nasdaq_matching_engine.Book.Reference.Entering.{match_side-cross, rest-rest, enter-IsValid}
use nasdaq_matching_engine.Book.Reference.Valid.{IsValid, view}

-- The side of the order is not touched by the sweep.
match_side-own :
    (id : OrderId) (s : Side) (price : Price) (qty : Qty) (b : OrderBook)
    → side_of s (match_side id s price qty b).1 ≡ side_of s b
unfolding match_side
match_side-own id buy price qty b = refl
match_side-own id sell price qty b = refl

pub enter-enter :
    (id : OrderId) (s : Side) (price : Price) (qty : Qty) (b : OrderBook)
    → IsValid b
    → let (r, b') = enter id s price qty b in Priority.enter id s price qty (view b) ≡ (r, view b')
unfolding enter Priority.enter Priority.emit emit
enter-enter id s price qty b v =
    let p : IsPair s (side_of s b) (side_of (opposite s) b) b.index = IsPair-of s b v in
    let b' : OrderBook = (match_side id s price qty b).1 in
    let q : Qty = qty - (match_side id s price qty b).0.filled in
    let rested : Priority.rest id s price q (view b') ≡ view (rest id s price q b') =
      rest-rest id s price q b' (rw (match_side-own id s price qty b) p.own_levels)
        (rw (match_side-own id s price qty b) p.own_sorted) in
    rw (match_side-cross id s price qty b p.opp_levels)
      (elim (Bool-cases (ltb 0 q)) [ inl e ↦ rw (e, rested) refl | inr e ↦ rw e refl ])

pub contains-has_order :
    (id : OrderId) (b : OrderBook) → IsValid b → contains id b.index ≡ has_order id (view b)
unfolding has_order
contains-has_order id b v = ground (arith, v.tracked id)

-- `add` answers, logs and rests exactly as the contract says.
pub add-refines :
    (id : OrderId) (s : Side) (price : Price) (qty : Qty) (b : OrderBook)
    → IsValid b
    → let (r, b') = add id s price qty b in Priority.add id s price qty (view b) ≡ (r, view b')
unfolding add Priority.add
add-refines id s price qty b v =
    rw (← contains-has_order id b v, enter-enter id s price qty b v) (ground arith)

pub contains_not :
    (id : OrderId) (b : OrderBook) → contains id b.index ≡ false → find id b.index ≡ none
contains_not id b h = ground arith

-- `add` leaves a valid book, whatever it is called with.
pub add-IsValid :
    (id : OrderId) (s : Side) (price : Price) (qty : Qty) (b : OrderBook)
    → IsValid b
    → qty < word32
    → IsValid (add id s price qty b).1
unfolding add
add-IsValid id s price qty b v h = elim (Bool-cases (le? price (pos 0))) [
  | inl e ↦ rw e v
  | inr e ↦ elim (Bool-cases (qty == 0)) [
    | inl z ↦ rw (e, z) v
    | inr z ↦ elim (Bool-cases (contains id b.index)) [
      | inl d ↦ rw (e, z, d) v
      | inr d ↦ rw (e, z, d) (enter-IsValid id s price qty b v (contains_not id b d) h)
    ]
  ]
]
