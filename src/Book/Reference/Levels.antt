-- ===== src/Book/Reference/Levels.antt =====
-- The levels of src/book/order_book.cpp under `match`: occupied, in order, and their totals.
use nasdaq_matching_engine.Common.{
  ℕ, ◌+◌, ◌-◌, ◌%◌, ◌≤◌, ◌≡◌, refl, ◌∙◌, false, List, [], ◌∷◌, arith, All,
}
use nasdaq_matching_engine.Common.Words.{word32, sub32}
use nasdaq_matching_engine.Common.Maps.{erase}
use nasdaq_matching_engine.Types.{Price, Qty, OrderId, Side}
use nasdaq_matching_engine.Book.{Order, Fill, execute, exec_qty}
use nasdaq_matching_engine.Book.Reference.{Level, Index, is_empty, consume_level, match_levels}
use nasdaq_matching_engine.Book.Reference.Cases.{consume_level_cases, match_levels_cases}
use nasdaq_matching_engine.Book.Reference.Valid.{
  sum_open, Fits, IsLevel, AreLevels, Behind, IsSorted,
}

-- Where the inner loop leaves orders, they are a level's, and the total is their sum.
abbrev Leaves : Side → Price → Level → Type 0
Leaves s p l = (l.price ≡ p) × All (Fits s p) l.orders × (l.total ≡ sum_open l.orders % word32)

pub sub32-sum : (n rest e : ℕ) → e ≤ n → sub32 ((n + rest) % word32) e ≡ (n - e + rest) % word32
unfolding sub32
sub32-sum n rest e h = omega arith

consume_level-Leaves :
    (id : OrderId) (side s : Side) (p : Price) (total : Qty) (os : List Order) (index : Index)
    (f : Fill)
    → All (Fits s p) os
    → total ≡ sum_open os % word32
    → Leaves s p (consume_level id side p total os index f).book
unfolding sum_open
consume_level-Leaves id side s p total [] index f a t = unfold consume_level in (refl, tt, t)
consume_level-Leaves id side s p total (o ∷ os) index f (h, a) t =
    let e : ℕ = exec_qty f.qty o.open_qty in
    let st : sub32 total e ≡ (o.open_qty - e + sum_open os) % word32 =
      rw t (sub32-sum o.open_qty (sum_open os) e (ground arith)) in
    consume_level_cases (λ c. Leaves s p c.book) id side p total o os index f
      (λ _. (refl, (h, a), t))
      (λ z.
        consume_level-Leaves id side s p (sub32 total (exec_qty f.qty o.open_qty)) os
          (erase o.id index) (execute id side o f) a (st ∙ ground arith))
      (λ z. (refl, ((h.0, h.1, ground arith), a), st))

IsLevel-of_Leaves :
    (s : Side) (p : Price) (l : Level) → Leaves s p l → is_empty l ≡ false → IsLevel s l
IsLevel-of_Leaves s p l (e, a, t) h = record { occupied = h; fits = rw e a; summed = t }

pub match_levels-AreLevels :
    (id : OrderId) (side s : Side) (limit : Price) (ls : List Level) (index : Index) (f : Fill)
    → AreLevels s ls
    → AreLevels s (match_levels id side limit ls index f).book
match_levels-AreLevels id side s limit [] index f v = unfold match_levels in v
match_levels-AreLevels id side s limit (l ∷ ls) index f (v, vs) =
    let c = consume_level id side l.price l.total l.orders index f in
    match_levels_cases (λ m. AreLevels s m.book) id side limit l ls index f (λ _. (v, vs))
      (λ _ _. match_levels-AreLevels id side s limit ls c.index c.fill vs)
      (λ _ z. (
        IsLevel-of_Leaves s l.price c.book
            (consume_level-Leaves id side s l.price l.total l.orders index f v.fits v.summed) z,
        vs,
      ))

pub consume_level-price :
    (id : OrderId) (side : Side) (p : Price) (total : Qty) (os : List Order) (index : Index)
    (f : Fill)
    → (consume_level id side p total os index f).book.price ≡ p
consume_level-price id side p total [] index f = unfold consume_level in refl
consume_level-price id side p total (o ∷ os) index f =
    consume_level_cases (λ c. c.book.price ≡ p) id side p total o os index f (λ _. refl)
      (λ _.
        consume_level-price id side p (sub32 total (exec_qty f.qty o.open_qty)) os
          (erase o.id index) (execute id side o f))
      (λ _. refl)

pub match_levels-Behind :
    (q : Price) (id : OrderId) (side s : Side) (limit : Price) (ls : List Level) (index : Index)
    (f : Fill)
    → Behind s q ls
    → Behind s q (match_levels id side limit ls index f).book
match_levels-Behind q id side s limit [] index f v = unfold match_levels in v
match_levels-Behind q id side s limit (l ∷ ls) index f (v, vs) =
    let c = consume_level id side l.price l.total l.orders index f in
    match_levels_cases (λ m. Behind s q m.book) id side limit l ls index f (λ _. (v, vs))
      (λ _ _. match_levels-Behind q id side s limit ls c.index c.fill vs)
      (λ _ _. (rw (consume_level-price id side l.price l.total l.orders index f) v, vs))

pub match_levels-IsSorted :
    (id : OrderId) (side s : Side) (limit : Price) (ls : List Level) (index : Index) (f : Fill)
    → IsSorted s ls
    → IsSorted s (match_levels id side limit ls index f).book
match_levels-IsSorted id side s limit [] index f v = unfold match_levels in v
match_levels-IsSorted id side s limit (l ∷ ls) index f (v, vs) =
    let c = consume_level id side l.price l.total l.orders index f in
    match_levels_cases (λ m. IsSorted s m.book) id side limit l ls index f (λ _. (v, vs))
      (λ _ _. match_levels-IsSorted id side s limit ls c.index c.fill vs)
      (λ _ _. (rw (consume_level-price id side l.price l.total l.orders index f) v, vs))
