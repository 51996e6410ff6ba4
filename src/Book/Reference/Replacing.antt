-- ===== src/Book/Reference/Replacing.antt =====
-- `OrderBook::replace` of src/book/order_book.cpp against the contract of `Book.Priority`.
use nasdaq_matching_engine.Common.{
  ◌<◌, ◌≡◌, refl, ap, ◌∙◌, Bool, true, false, ◌||◌, List, [], ◌∷◌, ◌++◌, arith, ◌==◌, inl, inr,
  Bool-cases, none, All,
}
use nasdaq_matching_engine.Common.Int.{le?, pos}
use nasdaq_matching_engine.Common.Words.{word32}
use nasdaq_matching_engine.Common.Maps.{find, contains, find-erase}
use nasdaq_matching_engine.Types.{Price, Qty, OrderId, Side, buy, sell}
use nasdaq_matching_engine.Book.{Order, canceled, crosses, opposite}
use nasdaq_matching_engine.Book.Priority
use nasdaq_matching_engine.Book.Priority.{has_order, find_order}
use nasdaq_matching_engine.Book.Reference.{
  Level, OrderBook, side_of, remove, emit, rest, would_cross, replace_order, replace_found, replace,
}
use nasdaq_matching_engine.Book.Reference.Pair.{Clear, IsPair, push_order-IsPair}
use nasdaq_matching_engine.Book.Reference.Sides.{Clear-Behind, IsPair-of, IsValid-of, emit-IsValid}
use nasdaq_matching_engine.Book.Reference.Entering.{rest-rest, enter-IsValid}
use nasdaq_matching_engine.Book.Reference.Adding.{enter-enter, contains-has_order, contains_not}
use nasdaq_matching_engine.Book.Reference.Cancelling.{
  Found, lookup_cases, remove-take_out, remove-IsValid,
}
use nasdaq_matching_engine.Book.Reference.Valid.{
  flatten, Fits, AreLevels, IsSorted, handle_of, IsValid, view,
}

abbrev first_crosses : Side → Price → List Order → Bool
first_crosses s price os = elim os [ [] ↦ false | o ∷ rest ↦ crosses s price o.price ]

abbrev level_crosses : Side → Price → List Level → Bool
level_crosses s price ls = elim ls [ [] ↦ false | l ∷ rest ↦ crosses s price l.price ]

first_level :
    (s : Side) (price : Price) (ls : List Level)
    → AreLevels (opposite s) ls
    → first_crosses s price (flatten ls) ≡ level_crosses s price ls
first_level s price [] v = refl
first_level s price (l ∷ ls) (v, _) = front l.orders v.fits v.occupied
  where
    front :
        (os : List Order)
        → All (Fits (opposite s) l.price) os
        → (elim os [ [] ↦ true | x ∷ xs ↦ false ]) ≡ false
        → first_crosses s price (os ++ flatten ls) ≡ crosses s price l.price
    front [] a h = cc
    front (x ∷ xs) (a, _) h = ap (crosses s price) a.0

Clear-of :
    (s : Side) (price : Price) (b : OrderBook)
    → IsSorted (opposite s) (side_of (opposite s) b)
    → would_cross s price b ≡ false
    → Clear s price (side_of (opposite s) b)
unfolding would_cross
Clear-of s price b sorted w = go (side_of (opposite s) b) sorted w
  where
    go :
        (ls : List Level)
        → IsSorted (opposite s) ls
        → level_crosses s price ls ≡ false
        → Clear s price ls
    go [] b w = tt
    go (l ∷ ls) (b, _) w = (w, Clear-Behind s price l.price ls w b)

-- The best order of the other side stands in its first level.
would_cross-would_cross :
    (s : Side) (price : Price) (b : OrderBook)
    → AreLevels (opposite s) (side_of (opposite s) b)
    → Priority.would_cross s price (view b) ≡ would_cross s price b
unfolding would_cross Priority.would_cross
would_cross-would_cross buy price b v = first_level buy price b.asks v
would_cross-would_cross sell price b v = first_level sell price b.bids v

replace_order-refines :
    (old_id new_id : OrderId) (s : Side) (old_open : Qty) (price : Price) (qty : Qty)
    (b : OrderBook)
    → IsValid b
    → Priority.replace_order old_id new_id s old_open price qty (view b)
      ≡ view (replace_order old_id new_id s old_open price qty b)
unfolding replace_order Priority.replace_order Priority.emit
replace_order-refines old_id new_id s old_open price qty b v =
    let p : IsPair s (side_of s b) (side_of (opposite s) b) b.index = IsPair-of s b v in
    rw (would_cross-would_cross s price b p.opp_levels) (elim (Bool-cases (would_cross s price b)) [
      | inl e ↦ rw e (
          ap (λ r. r.1)
            (unfold emit in
              enter-enter new_id s price qty (emit (canceled old_id old_open true) b)
                (emit-IsValid (canceled old_id old_open true) b v)))
      | inr e ↦
          rw (e, rest-rest new_id s price qty b p.own_levels p.own_sorted) (unfold emit in refl)
    ])

-- Without a crossing level the new order rests.
pub rest-IsValid :
    (id : OrderId) (s : Side) (price : Price) (qty : Qty) (b : OrderBook)
    → IsValid b
    → find id b.index ≡ none
    → 0 < qty
    → would_cross s price b ≡ false
    → IsValid (rest id s price qty b)
unfolding rest
rest-IsValid id buy price qty b v new h w = IsValid-of buy _ (
    push_order-IsPair buy b.bids b.asks b.index
      (record { id = id; side = buy; price = price; open_qty = qty }) refl h new
      (Clear-of buy price b (IsPair-of buy b v).opp_sorted w) (IsPair-of buy b v))
rest-IsValid id sell price qty b v new h w = IsValid-of sell _ (
    push_order-IsPair sell b.asks b.bids b.index
      (record { id = id; side = sell; price = price; open_qty = qty }) refl h new
      (Clear-of sell price b (IsPair-of sell b v).opp_sorted w) (IsPair-of sell b v))

replace_order-IsValid :
    (old_id new_id : OrderId) (s : Side) (old_open : Qty) (price : Price) (qty : Qty)
    (b : OrderBook)
    → IsValid b
    → find new_id b.index ≡ none
    → 0 < qty
    → qty < word32
    → IsValid (replace_order old_id new_id s old_open price qty b)
unfolding replace_order
replace_order-IsValid old_id new_id s old_open price qty b v new h k =
    elim (Bool-cases (would_cross s price b)) [
      | inl e ↦ rw e (
          enter-IsValid new_id s price qty (emit (canceled old_id old_open true) b)
            (emit-IsValid _ b v) (unfold emit in new) k)
      | inr e ↦ rw e (emit-IsValid _ _ (rest-IsValid new_id s price qty b v new h e))
    ]

pub replace_found_lem :
    (old_id new_id : OrderId) (price : Price) (qty : Qty) (b : OrderBook) (o : Order)
    → Found old_id b o
    → replace old_id new_id price qty b ≡ replace_found old_id new_id price qty (handle_of o) o b
unfolding replace
replace_found_lem old_id new_id price qty b o f = rw (f.indexed, replace) (rw f.pointed refl)

-- `replace` answers, logs and changes the book exactly as the contract says.
pub replace-refines :
    (old_id new_id : OrderId) (price : Price) (qty : Qty) (b : OrderBook)
    → IsValid b
    → let (r, b') = replace old_id new_id price qty b in
      Priority.replace old_id new_id price qty (view b) ≡ (r, view b')
unfolding replace Priority.replace replace_found Priority.replace_found
replace-refines old_id new_id price qty b v = elim (lookup_cases old_id b v) [
  | inl (n, m) ↦ rw (n, Priority.replace, m, replace) refl
  | inr (o, f) ↦
      let b' : OrderBook = remove old_id (handle_of o) o b in
      rw (replace_found_lem old_id new_id price qty b o f, f.resting, Priority.replace)
        (ground (
          arith,
          contains-has_order new_id b v,
          remove-take_out old_id b o v f,
          ap (Priority.replace_order old_id new_id o.side o.open_qty price qty)
              (remove-take_out old_id b o v f),
          replace_order-refines old_id new_id o.side o.open_qty price qty b'
              (remove-IsValid old_id b o v f),
        ))
]

-- An id that is new stays new when another order goes.
pub new_after_remove :
    (old_id new_id : OrderId) (o : Order) (b : OrderBook)
    → find new_id b.index ≡ none
    → find new_id (remove old_id (handle_of o) o b).index ≡ none
unfolding remove
new_after_remove old_id new_id o b h = find-erase new_id old_id b.index ∙ ground arith

replace_found-IsValid :
    (old_id new_id : OrderId) (price : Price) (qty : Qty) (b : OrderBook) (o : Order)
    → IsValid b
    → Found old_id b o
    → qty < word32
    → IsValid (replace_found old_id new_id price qty (handle_of o) o b).1
unfolding replace_found
replace_found-IsValid old_id new_id price qty b o v f k =
    elim (Bool-cases
      (new_id == old_id || contains new_id b.index || le? price (pos 0) || qty == 0)) [
        | inl e ↦ rw e v
        | inr e ↦ rw e (
            replace_order-IsValid old_id new_id o.side o.open_qty price qty _
              (remove-IsValid old_id b o v f)
              (new_after_remove old_id new_id o b (contains_not new_id b (ground arith)))
              (ground arith) k)
      ]

-- `replace` leaves a valid book, whatever it is called with.
pub replace-IsValid :
    (old_id new_id : OrderId) (price : Price) (qty : Qty) (b : OrderBook)
    → IsValid b
    → qty < word32
    → IsValid (replace old_id new_id price qty b).1
unfolding replace
replace-IsValid old_id new_id price qty b v k = elim (lookup_cases old_id b v) [
  | inl (n, m) ↦ rw (m, replace) v
  | inr (o, f) ↦
      rw (replace_found_lem old_id new_id price qty b o f)
        (replace_found-IsValid old_id new_id price qty b o v f k)
]
