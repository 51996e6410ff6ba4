-- ===== src/Book/Reference/Matching.antt =====
-- `OrderBook::match` of src/book/order_book.cpp as a scan of the flat list.
use nasdaq_matching_engine.Common.{
  ◌≡◌, ◌≢◌, refl, ap, ◌∙◌, true, false, not, ◌||◌, List, [], ◌∷◌, ◌++◌, arith, ◌==◌, if◌then◌else◌,
  All,
}
use nasdaq_matching_engine.Common.Words.{sub32}
use nasdaq_matching_engine.Types.{Price, Qty, OrderId, Side}
use nasdaq_matching_engine.Book.{Order, crosses, Fill, execute, exec_qty}
use nasdaq_matching_engine.Book.Priority.{take_front}
use nasdaq_matching_engine.Book.Reference.{
  Level, Index, Swept, is_empty, consume_level, match_levels,
}
use nasdaq_matching_engine.Book.Reference.Cases.{match_levels_cases}
use nasdaq_matching_engine.Book.Reference.Valid.{flatten, Fits, AreLevels}
use nasdaq_matching_engine.Common.Maps.{erase}

abbrev then_take : OrderId → Side → Price → List Order → Swept Level → List Order × Fill
then_take id side limit tail s =
    if is_empty s.book
    then take_front id side limit tail s.fill
    else (s.book.orders ++ tail, s.fill)

consume_level-take_front :
    (id : OrderId) (side s : Side) (limit p : Price) (total : Qty) (os tail : List Order)
    (index : Index) (f : Fill)
    → crosses side limit p ≡ true
    → All (Fits s p) os
    → take_front id side limit (os ++ tail) f
      ≡ then_take id side limit tail (consume_level id side p total os index f)
unfolding take_front consume_level
consume_level-take_front id side s limit p total [] tail index f c a = refl
consume_level-take_front id side s limit p total (o ∷ os) tail index f c ((e, _, _), a) = ground (
  arith,
  ap (crosses side limit) e,
  consume_level-take_front id side s limit p (sub32 total (exec_qty f.qty o.open_qty)) os tail
      (erase o.id index) (execute id side o f) c a,
)

-- The front order of an occupied level stops the scan, as the level does.
take_front_stop :
    (id : OrderId) (side s : Side) (limit p : Price) (os tail : List Order) (f : Fill)
    → All (Fits s p) os
    → os ≢ []
    → (f.qty == 0 || not (crosses side limit p)) ≡ true
    → take_front id side limit (os ++ tail) f ≡ (os ++ tail, f)
unfolding take_front
take_front_stop id side s limit p [] tail f a h t = absurd (h refl)
take_front_stop id side s limit p (o ∷ os) tail f ((e, _, _), a) h t =
    ground (arith, ap (crosses side limit) e)

occupied_ne : (l : Level) → is_empty l ≡ false → l.orders ≢ []
occupied_ne l h e = ground arith

-- The whole sweep over the levels is the scan of the orders.
pub match_levels-take_front :
    (id : OrderId) (side s : Side) (limit : Price) (ls : List Level) (index : Index) (f : Fill)
    → AreLevels s ls
    → let m = match_levels id side limit ls index f in
      take_front id side limit (flatten ls) f ≡ (flatten m.book, m.fill)
match_levels-take_front id side s limit [] index f v = unfold take_front match_levels in refl
match_levels-take_front id side s limit (l ∷ ls) index f (v, vs) =
    match_levels_cases
      (λ m. take_front id side limit (flatten (l ∷ ls)) f ≡ (flatten m.book, m.fill)) id side limit
      l ls index f
      (take_front_stop id side s limit l.price l.orders (flatten ls) f v.fits
        (occupied_ne l v.occupied))
      (λ e z.
        consume_level-take_front id side s limit l.price l.total l.orders (flatten ls) index f
          (ground arith) v.fits
        ∙ rw z (match_levels-take_front id side s limit ls _ _ vs))
      (λ e z.
        consume_level-take_front id side s limit l.price l.total l.orders (flatten ls) index f
          (ground arith) v.fits
        ∙ rw z refl)
