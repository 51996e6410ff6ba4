-- ===== src/Book/Reference/Reducing.antt =====
-- The partial cancel of src/book/order_book.cpp: `order.open = keep_qty` and the level's total.
use nasdaq_matching_engine.Common.{
  ◌+◌, ◌-◌, ◌%◌, ◌≤◌, ◌<◌, ◌≡◌, refl, sym, ap, ◌∙◌, true, false, List, [], ◌∷◌, ◌++◌, arith, ◌==◌,
  All, inl, inr, Bool-cases, some,
}
use nasdaq_matching_engine.Common.Int.{eq?}
use nasdaq_matching_engine.Common.Words.{word32, sub32}
use nasdaq_matching_engine.Types.{Price, Qty, OrderId, Side}
use nasdaq_matching_engine.Book.{Order}
use nasdaq_matching_engine.Book.Priority.{locate, reduce}
use nasdaq_matching_engine.Book.Reference.{Level, set_open, reduce_at}
use nasdaq_matching_engine.Book.Reference.Removal.{
  here_or_Behind, set_open-reduce, reduce-append, reduce-append_none,
}
use nasdaq_matching_engine.Book.Reference.Valid.{
  flatten, sum_open, Fits, AreLevels, Behind, IsSorted,
}

pub reduce_at-reduce :
    (s : Side) (id : OrderId) (keep gone : Qty) (ls : List Level) (o : Order)
    → AreLevels s ls
    → IsSorted s ls
    → locate id (flatten ls) ≡ some o
    → flatten (reduce_at id keep gone o.price ls) ≡ reduce id keep (flatten ls)
unfolding reduce_at
reduce_at-reduce s id keep gone [] o v b e = unfold locate in cc
reduce_at-reduce s id keep gone (l ∷ ls) o (v, vs) (b, bs) e =
    elim (here_or_Behind s id l ls o (v, vs) b e) [
      | inl (q, m) ↦
          rw (q, set_open-reduce id keep l.orders)
            (sym (reduce-append id keep l.orders (flatten ls) m))
      | inr (q, n, later) ↦ rw q (
          ap (◌++◌ l.orders) (reduce_at-reduce s id keep gone ls o vs bs later)
          ∙ sym (reduce-append_none id keep l.orders (flatten ls) n))
    ]

sum_open-reduce :
    (id : OrderId) (keep : Qty) (os : List Order) {o : Order}
    → locate id os ≡ some o
    → sum_open (reduce id keep os) + o.open_qty ≡ sum_open os + keep
unfolding locate reduce sum_open
sum_open-reduce id keep [] h = cc
sum_open-reduce id keep (x ∷ xs) {o} h = ground (arith, sum_open-reduce id keep xs {o = o})

sum_open-locate :
    (id : OrderId) (os : List Order) {o : Order} → locate id os ≡ some o → o.open_qty ≤ sum_open os
unfolding locate sum_open
sum_open-locate id [] h = cc
sum_open-locate id (x ∷ xs) {o} h = ground (arith, sum_open-locate id xs {o = o})

Fits-reduce :
    (s : Side) (p : Price) (id : OrderId) (keep : Qty) (os : List Order)
    → 0 < keep
    → All (Fits s p) os
    → All (Fits s p) (reduce id keep os)
unfolding reduce
Fits-reduce s p id keep [] h a = tt
Fits-reduce s p id keep (x ∷ xs) h (a, as') = elim (Bool-cases (x.id == id)) [
  | inl e ↦ rw e ((a.0, a.1, h), as')
  | inr e ↦ rw e (a, Fits-reduce s p id keep xs h as')
]

set_open_occupied :
    (id : OrderId) (keep : Qty) (os : List Order)
    → (elim (set_open id keep os) [ [] ↦ true | x ∷ xs ↦ false ])
      ≡ (elim os [ [] ↦ true | x ∷ xs ↦ false ])
unfolding set_open
set_open_occupied id keep [] = refl
set_open_occupied id keep (x ∷ xs) = ground arith

reduced-summed :
    (id : OrderId) (keep : Qty) (l : Level) (o : Order)
    → l.total ≡ sum_open l.orders % word32
    → locate id l.orders ≡ some o
    → keep < o.open_qty
    → sub32 l.total (o.open_qty - keep) ≡ sum_open (set_open id keep l.orders) % word32
reduced-summed id keep l o t m h =
    rw (t, set_open-reduce id keep l.orders)
      (unfold sub32 in
        omega (arith, sum_open-reduce id keep l.orders m, sum_open-locate id l.orders m))

pub reduce_at-AreLevels :
    (s : Side) (id : OrderId) (keep : Qty) (ls : List Level) (o : Order)
    → 0 < keep
    → keep < o.open_qty
    → AreLevels s ls
    → IsSorted s ls
    → locate id (flatten ls) ≡ some o
    → AreLevels s (reduce_at id keep (o.open_qty - keep) o.price ls)
unfolding reduce_at
reduce_at-AreLevels s id keep [] o h k v b e = v
reduce_at-AreLevels s id keep (l ∷ ls) o h k (v, vs) (b, bs) e =
    elim (here_or_Behind s id l ls o (v, vs) b e) [
      | inl (q, m) ↦ rw q (
        record {
          occupied = set_open_occupied id keep l.orders ∙ v.occupied;
          fits =
              rw (set_open-reduce id keep l.orders)
                (Fits-reduce s l.price id keep l.orders h v.fits);
          summed = reduced-summed id keep l o v.summed m k;
        },
        vs,
      )
      | inr (q, n, later) ↦ rw q (v, reduce_at-AreLevels s id keep ls o h k vs bs later)
    ]

Behind-reduce_at :
    (s : Side) (r : Price) (id : OrderId) (keep gone : Qty) (p : Price) (ls : List Level)
    → Behind s r ls
    → Behind s r (reduce_at id keep gone p ls)
unfolding reduce_at
Behind-reduce_at s r id keep gone p [] b = b
Behind-reduce_at s r id keep gone p (l ∷ ls) (b, bs) = elim (Bool-cases (eq? l.price p)) [
  | inl e ↦ rw e (b, bs)
  | inr e ↦ rw e (b, Behind-reduce_at s r id keep gone p ls bs)
]

pub reduce_at-IsSorted :
    (s : Side) (id : OrderId) (keep gone : Qty) (p : Price) (ls : List Level)
    → IsSorted s ls
    → IsSorted s (reduce_at id keep gone p ls)
unfolding reduce_at
reduce_at-IsSorted s id keep gone p [] b = b
reduce_at-IsSorted s id keep gone p (l ∷ ls) (b, bs) = elim (Bool-cases (eq? l.price p)) [
  | inl e ↦ rw e (b, bs)
  | inr e ↦
      rw e
        (Behind-reduce_at s l.price id keep gone p ls b, reduce_at-IsSorted s id keep gone p ls bs)
]
