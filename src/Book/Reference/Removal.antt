-- ===== src/Book/Reference/Removal.antt =====
-- `remove` and the reduction of `cancel` in src/book/order_book.cpp, on the flat list and on the
-- levels.
use nasdaq_matching_engine.Common.{
  ◌≡◌, refl, ap, ◌∙◌, true, false, List, [], ◌∷◌, ◌++◌, arith, ◌⊎◌, inl, inr, Bool-cases, none,
  some, Option-cases,
}
use nasdaq_matching_engine.Common.Int.{eq?}
use nasdaq_matching_engine.Types.{Price, Qty, OrderId, Side}
use nasdaq_matching_engine.Book.{Order, better}
use nasdaq_matching_engine.Book.Priority.{locate, remove, reduce}
use nasdaq_matching_engine.Book.Priority.Orders.{locate-append, All-locate}
use nasdaq_matching_engine.Book.Reference.{Level, order_at, level_at, erase_order, set_open}
use nasdaq_matching_engine.Book.Reference.Insertion.{better_irrefl, eq?→eq}
use nasdaq_matching_engine.Book.Reference.Valid.{flatten, Fits, AreLevels, Behind, IsSorted}

order_at-locate : (id : OrderId) (os : List Order) → order_at id os ≡ locate id os
unfolding order_at locate
order_at-locate id [] = refl
order_at-locate id (o ∷ os) = ground (arith, order_at-locate id os)

pub erase_order-remove : (id : OrderId) (os : List Order) → erase_order id os ≡ remove id os
unfolding erase_order remove
erase_order-remove id [] = refl
erase_order-remove id (o ∷ os) = ground (arith, erase_order-remove id os)

pub set_open-reduce :
    (id : OrderId) (keep : Qty) (os : List Order) → set_open id keep os ≡ reduce id keep os
unfolding set_open reduce
set_open-reduce id keep [] = refl
set_open-reduce id keep (o ∷ os) = ground (arith, set_open-reduce id keep os)

-- An order behind a price does not have that price.
Behind-price :
    (s : Side) (p : Price) (id : OrderId) (ls : List Level) (o : Order)
    → AreLevels s ls
    → Behind s p ls
    → locate id (flatten ls) ≡ some o
    → better s p o.price ≡ true
Behind-price s p id [] o v b e = unfold locate in cc
Behind-price s p id (l ∷ ls) o (v, vs) (b, bs) e = elim (Option-cases (locate id l.orders)) [
  | inl n ↦ Behind-price s p id ls o vs bs (ground (arith, locate-append id l.orders (flatten ls)))
  | inr (x, m) ↦
      let same : x ≡ o = ground (arith, locate-append id l.orders (flatten ls)) in
      rw (← same, (All-locate (Fits s l.price) id l.orders v.fits m).0) b
]

-- Where the level with the order's price is the first, the order is in it; else it is behind.
pub here_or_Behind :
    (s : Side) (id : OrderId) (l : Level) (ls : List Level) (o : Order)
    → AreLevels s (l ∷ ls)
    → Behind s l.price ls
    → locate id (flatten (l ∷ ls)) ≡ some o
    → ((eq? l.price o.price ≡ true) × (locate id l.orders ≡ some o))
      ⊎ ((eq? l.price o.price ≡ false)
          × (locate id l.orders ≡ none)
          × (locate id (flatten ls) ≡ some o))
here_or_Behind s id l ls o (v, vs) b e = elim (Option-cases (locate id l.orders)) [
  | inl n ↦
      let later : locate id (flatten ls) ≡ some o =
        ground (arith, locate-append id l.orders (flatten ls)) in
      inr (differ (Behind-price s l.price id ls o vs b later), n, later)
  | inr (x, m) ↦
      let same : x ≡ o = ground (arith, locate-append id l.orders (flatten ls)) in
      let p : x.price ≡ l.price = (All-locate (Fits s l.price) id l.orders v.fits m).0 in
      inl (rw (← same, p) (eq?_self l.price), m ∙ ap some same)
]
  where
    eq?_self : (p : Price) → eq? p p ≡ true
    eq?_self p = ground arith

    differ : better s l.price o.price ≡ true → eq? l.price o.price ≡ false
    differ h = elim (Bool-cases (eq? l.price o.price)) [
      | inl q ↦ absurd (clash (rw (eq?→eq l.price o.price q) at h))
      | inr q ↦ q
    ]
      where
        clash : better s o.price o.price ≡ true → ⊥
        clash k = cc (better_irrefl s o.price)

-- The iterator of the index points at the order of the flat list.
pub deref_lem :
    (s : Side) (id : OrderId) (ls : List Level) (o : Order)
    → AreLevels s ls
    → IsSorted s ls
    → locate id (flatten ls) ≡ some o
    → (l : Level) × (level_at o.price ls ≡ some l) × (order_at id l.orders ≡ some o)
unfolding level_at
deref_lem s id [] o v b e = unfold locate in cc
deref_lem s id (l ∷ ls) o (v, vs) (b, bs) e = elim (here_or_Behind s id l ls o (v, vs) b e) [
  | inl (q, m) ↦ (l, rw q refl, order_at-locate id l.orders ∙ m)
  | inr (q, n, later) ↦ rw q (deref_lem s id ls o vs bs later)
]

pub remove-append :
    (id : OrderId) (xs ys : List Order) {o : Order}
    → locate id xs ≡ some o
    → remove id (xs ++ ys) ≡ remove id xs ++ ys
unfolding locate remove
remove-append id [] ys h = cc
remove-append id (x ∷ xs) ys {o} h = ground (arith, remove-append id xs ys {o = o})

pub reduce-append :
    (id : OrderId) (keep : Qty) (xs ys : List Order) {o : Order}
    → locate id xs ≡ some o
    → reduce id keep (xs ++ ys) ≡ reduce id keep xs ++ ys
unfolding locate reduce
reduce-append id keep [] ys h = cc
reduce-append id keep (x ∷ xs) ys {o} h = ground (arith, reduce-append id keep xs ys {o = o})

pub reduce-append_none :
    (id : OrderId) (keep : Qty) (xs ys : List Order)
    → locate id xs ≡ none
    → reduce id keep (xs ++ ys) ≡ xs ++ reduce id keep ys
unfolding locate reduce
reduce-append_none id keep [] ys h = refl
reduce-append_none id keep (x ∷ xs) ys h = ground (arith, reduce-append_none id keep xs ys)
