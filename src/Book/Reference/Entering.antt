-- ===== src/Book/Reference/Entering.antt =====
-- `OrderBook::add` of src/book/order_book.cpp, and what follows the removal in `replace`: the
-- invariant, and the contract of `Book.Priority`.
use nasdaq_matching_engine.Common.{
  ◌-◌, ◌<◌, ◌≡◌, refl, sym, ap, ◌∙◌, true, false, not, ◌||◌, List, [], ◌∷◌, arith, ltb, ltb→lt, ◌≢◌,
  ◌==◌, ◌⊎◌, inl, inr, Bool-cases, none,
}
use nasdaq_matching_engine.Common.Words.{word32, sub32}
use nasdaq_matching_engine.Common.Maps.{find, erase, emplace}
use nasdaq_matching_engine.Book.Reference.Sides.{Clear-Behind, IsPair-of, IsValid-of}
use nasdaq_matching_engine.Types.{Price, Qty, OrderId, Side, buy, sell}
use nasdaq_matching_engine.Book.{Order, added, crosses, opposite, Fill, execute, exec_qty}
use nasdaq_matching_engine.Book.Priority
use nasdaq_matching_engine.Book.Priority.{take_front, insert, locate, has_order, or_else, cross}
use nasdaq_matching_engine.Book.Priority.Orders.{count, count-take_front}
use nasdaq_matching_engine.Book.Priority.Filling.{take_front-Conserves}
use nasdaq_matching_engine.Book.Reference.{
  Level, Index, OrderBook, side_of, is_empty, consume_level, match_levels, match_side, push_order,
  rest, emit, enter,
}
use nasdaq_matching_engine.Book.Reference.Cases.{match_levels_cases}
use nasdaq_matching_engine.Book.Reference.Matching.{match_levels-take_front}
use nasdaq_matching_engine.Book.Reference.Tracking.{handle_in-none}
use nasdaq_matching_engine.Book.Reference.Insertion.{push_order-insert}
use nasdaq_matching_engine.Book.Reference.Pair.{
  Clear, IsPair, IsPair-flip, opposite_twice, match_levels-IsPair, push_order-IsPair, not_found,
}
use nasdaq_matching_engine.Book.Reference.Valid.{flatten, AreLevels, IsSorted, IsValid, view}

-- Where the inner loop leaves an order, no quantity is left.
consume_level_exhausts :
    (id : OrderId) (side : Side) (p : Price) (total : Qty) (os : List Order) (index : Index)
    (f : Fill)
    → is_empty (consume_level id side p total os index f).book ≡ false
    → (consume_level id side p total os index f).fill.qty ≡ 0
unfolding consume_level execute
consume_level_exhausts id side p total [] index f h = cc
consume_level_exhausts id side p total (o ∷ os) index f h = ground (
  arith,
  consume_level_exhausts id side p (sub32 total (exec_qty f.qty o.open_qty)) os (erase o.id index)
      (execute id side o f),
)

-- The sweep ends with no quantity left, or with no level that the price crosses.
match_levels_stops :
    (id : OrderId) (side : Side) (limit : Price) (ls : List Level) (index : Index) (f : Fill)
    → IsSorted (opposite side) ls
    → ((match_levels id side limit ls index f).fill.qty ≡ 0)
      ⊎ Clear side limit (match_levels id side limit ls index f).book
match_levels_stops id side limit [] index f b = unfold match_levels in inr tt
match_levels_stops id side limit (l ∷ ls) index f (b, bs) =
    match_levels_cases (λ m. (m.fill.qty ≡ 0) ⊎ Clear side limit m.book) id side limit l ls index f
      (λ e. stopped e) (λ _ _. match_levels_stops id side limit ls _ _ bs)
      (λ _ z. inl (consume_level_exhausts id side l.price l.total l.orders index f z))
  where
    stopped :
        (f.qty == 0 || not (crosses side limit l.price)) ≡ true
        → (f.qty ≡ 0) ⊎ Clear side limit (l ∷ ls)
    stopped e = elim (Bool-cases (crosses side limit l.price)) [
      | inl c ↦ inl (ground arith)
      | inr c ↦ inr (c, Clear-Behind side limit l.price ls c b)
    ]

abbrev pub start_fill : Qty → OrderBook → Fill
start_fill qty b = record { qty = qty; filled = 0; next_match_id = b.next_match_id; log = b.log }

pub match_side-cross :
    (id : OrderId) (side : Side) (limit : Price) (qty : Qty) (b : OrderBook)
    → AreLevels (opposite side) (side_of (opposite side) b)
    → let (f, b') = match_side id side limit qty b in
      Priority.cross id side limit qty (view b) ≡ (f, view b')
unfolding cross match_side
match_side-cross id buy limit qty b v =
    rw (match_levels-take_front id buy sell limit b.asks b.index (start_fill qty b) v) refl
match_side-cross id sell limit qty b v =
    rw (match_levels-take_front id sell buy limit b.bids b.index (start_fill qty b) v) refl

pub rest-rest :
    (id : OrderId) (side : Side) (price : Price) (qty : Qty) (b : OrderBook)
    → AreLevels side (side_of side b)
    → IsSorted side (side_of side b)
    → Priority.rest id side price qty (view b) ≡ view (rest id side price qty b)
unfolding Priority.rest rest
rest-rest id buy price qty b v s = rw (push_order-insert buy _ b.bids v s) refl
rest-rest id sell price qty b v s = rw (push_order-insert sell _ b.asks v s) refl

module _ (id : OrderId) (s : Side) (price : Price) (qty : Qty) (own opp : List Level)
    (index : Index) (f : Fill) (v : IsPair s own opp index) where
  matched_opp :
      IsPair
        (opposite s)
        (match_levels id s price opp index f).book
        own
        (match_levels id s price opp index f).index
  matched_opp =
      match_levels-IsPair (opposite s) opp own index id s price f (IsPair-flip s own opp index v)

  pub matched-IsPair :
      IsPair s own
        (match_levels id s price opp index f).book
        (match_levels id s price opp index f).index
  matched-IsPair = rw (opposite_twice s) at (
      IsPair-flip (opposite s) (match_levels id s price opp index f).book own
        (match_levels id s price opp index f).index matched_opp)

  -- An id that the index did not find is not found after the sweep.
  pub still_new : find id index ≡ none → find id (match_levels id s price opp index f).index ≡ none
  still_new new =
      matched-IsPair.tracked id
      ∙ handle_in-none id (flatten own) (flatten (match_levels id s price opp index f).book) (
          omega (
            arith,
            not_found id (flatten own) (flatten opp) (sym (v.tracked id) ∙ new),
            ap (λ p. count id p.0)
                (match_levels-take_front id s (opposite s) price opp index f v.opp_levels),
            count-take_front id id s price (flatten opp) f,
          ))

  -- With no more than 32 bits of quantity, what is not filled is what the sweep left.
  left_over :
      f.qty ≡ qty
      → f.filled ≡ 0
      → qty < word32
      → qty - (match_levels id s price opp index f).fill.filled
        ≡ (match_levels id s price opp index f).fill.qty
  left_over q z h = omega (
    arith,
    take_front-Conserves id s price (flatten opp) f (omega arith),
    ap (λ p. p.1.qty) (match_levels-take_front id s (opposite s) price opp index f v.opp_levels),
    ap (λ p. p.1.filled) (match_levels-take_front id s (opposite s) price opp index f v.opp_levels),
  )

  rested-IsPair :
      find id index ≡ none
      → (match_levels id s price opp index f).fill.qty ≢ 0
      → (q : Qty) → 0 < q
      → IsPair s
          (push_order s (record { id = id; side = s; price = price; open_qty = q }) own)
          (match_levels id s price opp index f).book
          (emplace id
            (record { side = s; price = price })
            (match_levels id s price opp index f).index)
  rested-IsPair new left q h =
      push_order-IsPair s own (match_levels id s price opp index f).book
        (match_levels id s price opp index f).index
        (record { id = id; side = s; price = price; open_qty = q }) refl h (still_new new) clear_all
        matched-IsPair
    where
      clear_all : Clear s price (match_levels id s price opp index f).book
      clear_all = elim (match_levels_stops id s price opp index f v.opp_sorted) [
        | inl z ↦ absurd (left z)
        | inr c ↦ c
      ]

-- What `enter` leaves behind, by the quantity that is left.
enter_cases {ℓ} :
    (P : OrderBook → Type ℓ) (id : OrderId) (s : Side) (price : Price) (qty : Qty) (b : OrderBook)
    → (ltb 0 (qty - (match_side id s price qty b).0.filled) ≡ true
        → P (
            emit (added id s price (qty - (match_side id s price qty b).0.filled)) (
              rest id s price
                (qty - (match_side id s price qty b).0.filled)
                (match_side id s price qty b).1)))
    → P (match_side id s price qty b).1
    → P (enter id s price qty b).1
unfolding enter
enter_cases P id s price qty b rested done =
    elim (Bool-cases (ltb 0 (qty - (match_side id s price qty b).0.filled))) [
      | inl e ↦ rw e (rested e)
      | inr e ↦ rw e done
    ]

-- An order that is let in, with an id that is new, leaves a valid book.
pub enter-IsValid :
    (id : OrderId) (s : Side) (price : Price) (qty : Qty) (b : OrderBook)
    → IsValid b
    → find id b.index ≡ none
    → qty < word32
    → IsValid (enter id s price qty b).1
unfolding match_side rest emit
enter-IsValid id buy price qty b v new h =
    let f : Fill = start_fill qty b in
    let p : IsPair buy b.bids b.asks b.index = IsPair-of buy b v in
    enter_cases IsValid id buy price qty b
      (λ e. IsValid-of buy _ (
        rested-IsPair id buy price qty b.bids b.asks b.index f p new
          (λ z. absurd (
            omega (
              arith,
              ltb→lt _ _ e,
              left_over id buy price qty b.bids b.asks b.index f p refl refl h,
            )))
          _ (ltb→lt _ _ e)))
      (IsValid-of buy _ (matched-IsPair id buy price qty b.bids b.asks b.index f p))
enter-IsValid id sell price qty b v new h =
    let f : Fill = start_fill qty b in
    let p : IsPair sell b.asks b.bids b.index = IsPair-of sell b v in
    enter_cases IsValid id sell price qty b
      (λ e. IsValid-of sell _ (
        rested-IsPair id sell price qty b.asks b.bids b.index f p new
          (λ z. absurd (
            omega (
              arith,
              ltb→lt _ _ e,
              left_over id sell price qty b.asks b.bids b.index f p refl refl h,
            )))
          _ (ltb→lt _ _ e)))
      (IsValid-of sell _ (matched-IsPair id sell price qty b.asks b.bids b.index f p))
