-- ===== src/Book/Reference/Tracking.antt =====
-- The index of src/book/order_book.cpp follows the levels through `match`.
use nasdaq_matching_engine.Common.{
  ◌+◌, ◌≡◌, sym, true, List, [], ◌∷◌, ◌++◌, arith, ◌==◌, none, Bool-cases, inl, inr,
}
use nasdaq_matching_engine.Common.Words.{sub32}
use nasdaq_matching_engine.Common.Maps.{erase, find-erase}
use nasdaq_matching_engine.Types.{Price, Qty, OrderId, Side}
use nasdaq_matching_engine.Book.{Order, Fill, execute, exec_qty, left_open}
use nasdaq_matching_engine.Book.Priority.{locate}
use nasdaq_matching_engine.Book.Priority.Orders.{count, count-append, locate_of_count}
use nasdaq_matching_engine.Book.Reference.{Level, Index, is_empty, consume_level, match_levels}
use nasdaq_matching_engine.Book.Reference.Cases.{consume_level_cases, match_levels_cases}
use nasdaq_matching_engine.Book.Reference.Valid.{flatten, handle_in, Tracks, AreDistinct}

pub handle_in-none :
    (k : OrderId) (xs ys : List Order) → count k xs + count k ys ≡ 0 → handle_in k xs ys ≡ none
handle_in-none k xs ys h =
    ground (arith, locate_of_count k xs (omega arith), locate_of_count k ys (omega arith))

-- The front order leaves both the list and the index.
Tracks-erase :
    (index : Index) (o : Order) (xs ys : List Order)
    → AreDistinct (o ∷ xs) ys
    → Tracks index (o ∷ xs) ys
    → Tracks (erase o.id index) xs ys
unfolding locate count
Tracks-erase index o xs ys d t k = elim (Bool-cases (o.id == k)) [
  | inl e ↦ rw (find-erase k o.id index, e) (sym (handle_in-none k xs ys (ground (arith, d k))))
  | inr e ↦ rw (find-erase k o.id index, e) (ground (arith, t k))
]

-- A partial execution leaves the id, the side and the price.
Tracks-left_open :
    (index : Index) (f : Fill) (o : Order) (xs ys : List Order)
    → Tracks index (o ∷ xs) ys
    → Tracks index (left_open f o ∷ xs) ys
unfolding locate
Tracks-left_open index f o xs ys t k = ground (arith, t k)

AreDistinct-tail : (o : Order) (xs ys : List Order) → AreDistinct (o ∷ xs) ys → AreDistinct xs ys
unfolding count
AreDistinct-tail o xs ys d k = ground (arith, d k)

consume_level-Tracks :
    (id : OrderId) (side : Side) (p : Price) (total : Qty) (os tail ys : List Order) (index : Index)
    (f : Fill)
    → AreDistinct (os ++ tail) ys
    → Tracks index (os ++ tail) ys
    → let s = consume_level id side p total os index f in Tracks s.index (s.book.orders ++ tail) ys
consume_level-Tracks id side p total [] tail ys index f d t = unfold consume_level in t
consume_level-Tracks id side p total (o ∷ os) tail ys index f d t =
    consume_level_cases (λ s. Tracks s.index (s.book.orders ++ tail) ys) id side p total o os index
      f (λ _. t)
      (λ _.
        consume_level-Tracks id side p (sub32 total (exec_qty f.qty o.open_qty)) os tail ys
          (erase o.id index) (execute id side o f) (AreDistinct-tail o (os ++ tail) ys d)
          (Tracks-erase index o (os ++ tail) ys d t))
      (λ _. Tracks-left_open index f o (os ++ tail) ys t)

nil_of_empty : (l : Level) (tail : List Order) → is_empty l ≡ true → l.orders ++ tail ≡ tail
nil_of_empty l tail h = ground arith

-- After the sweep the index finds exactly the orders that are left.
pub match_levels-Tracks :
    (id : OrderId) (side : Side) (limit : Price) (ls : List Level) (ys : List Order) (index : Index)
    (f : Fill)
    → AreDistinct (flatten ls) ys
    → Tracks index (flatten ls) ys
    → let m = match_levels id side limit ls index f in Tracks m.index (flatten m.book) ys
match_levels-Tracks id side limit [] ys index f d t = unfold match_levels in t
match_levels-Tracks id side limit (l ∷ ls) ys index f d t =
    let c = consume_level id side l.price l.total l.orders index f in
    let tc : Tracks c.index (c.book.orders ++ flatten ls) ys =
      consume_level-Tracks id side l.price l.total l.orders (flatten ls) ys index f d t in
    match_levels_cases (λ m. Tracks m.index (flatten m.book) ys) id side limit l ls index f (λ _. t)
      (λ _ z.
        match_levels-Tracks id side limit ls ys c.index c.fill
          (λ k. omega (arith, d k, count-append k l.orders (flatten ls)))
          (rw (nil_of_empty c.book (flatten ls) z) at tc))
      (λ _ _. tc)
