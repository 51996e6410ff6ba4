-- ===== src/Book/Reference/Erasing.antt =====
-- `erase_from` and the reduction of a level in src/book/order_book.cpp on well-formed levels and
-- on the flat list.
use nasdaq_matching_engine.Common.{
  ◌+◌, ◌≡◌, refl, sym, ap, ◌∙◌, true, false, List, [], ◌∷◌, ◌++◌, arith, ◌==◌, All, inl, inr,
  Bool-cases, some,
}
use nasdaq_matching_engine.Common.Int.{eq?}
use nasdaq_matching_engine.Common.Words.{sub32}
use nasdaq_matching_engine.Types.{Price, Qty, OrderId, Side}
use nasdaq_matching_engine.Book.{Order}
use nasdaq_matching_engine.Book.Priority.{locate, remove}
use nasdaq_matching_engine.Book.Priority.Orders.{locate-remove-append}
use nasdaq_matching_engine.Book.Reference.{Level, is_empty, erase_order, erase_from, set_open}
use nasdaq_matching_engine.Book.Reference.Levels.{sub32-sum}
use nasdaq_matching_engine.Book.Reference.Removal.{
  here_or_Behind, erase_order-remove, remove-append,
}
use nasdaq_matching_engine.Book.Reference.Valid.{
  flatten, sum_open, Fits, IsLevel, AreLevels, Behind, IsSorted,
}

abbrev pub without : OrderId → Qty → Level → Level
without id q l = record l { total = sub32 l.total q; orders = erase_order id l.orders }

abbrev reduced : OrderId → Qty → Qty → Level → Level
reduced id keep gone l = record l { total = sub32 l.total gone; orders = set_open id keep l.orders }

pub erase_from_here {ℓ} :
    (P : List Level → Type ℓ) (id : OrderId) (q : Qty) (p : Price) (l : Level) (ls : List Level)
    → eq? l.price p ≡ true
    → (is_empty (without id q l) ≡ true → P ls)
    → (is_empty (without id q l) ≡ false → P (without id q l ∷ ls))
    → P (erase_from id q p (l ∷ ls))
unfolding erase_from
erase_from_here P id q p l ls e gone kept = elim (Bool-cases (is_empty (without id q l))) [
  | inl z ↦ rw (e, z) (gone z)
  | inr z ↦ rw (e, z) (kept z)
]

empty_append :
    (os ys : List Order) → (elim os [ [] ↦ true | x ∷ xs ↦ false ]) ≡ true → ys ≡ os ++ ys
empty_append [] ys h = refl
empty_append (x ∷ xs) ys h = cc

pub erase_from-remove :
    (s : Side) (id : OrderId) (ls : List Level) (o : Order)
    → AreLevels s ls
    → IsSorted s ls
    → locate id (flatten ls) ≡ some o
    → flatten (erase_from id o.open_qty o.price ls) ≡ remove id (flatten ls)
erase_from-remove s id [] o v b e = unfold locate in cc
erase_from-remove s id (l ∷ ls) o (v, vs) (b, bs) e =
    elim (here_or_Behind s id l ls o (v, vs) b e) [
      | inl (q, m) ↦
          let gone : erase_order id l.orders ++ flatten ls ≡ remove id (l.orders ++ flatten ls) =
            rw (erase_order-remove id l.orders) (sym (remove-append id l.orders (flatten ls) m)) in
          erase_from_here (λ r. flatten r ≡ remove id (flatten (l ∷ ls))) id o.open_qty o.price l ls
            q (λ z. empty_append (erase_order id l.orders) (flatten ls) z ∙ gone) (λ _. gone)
      | inr (q, n, later) ↦
          erase_from_later q (erase_from-remove s id ls o vs bs later)
          ∙ sym (locate-remove-append id l.orders (flatten ls) n)
    ]
  where
    erase_from_later :
        eq? l.price o.price ≡ false
        → flatten (erase_from id o.open_qty o.price ls) ≡ remove id (flatten ls)
        → flatten (erase_from id o.open_qty o.price (l ∷ ls)) ≡ l.orders ++ remove id (flatten ls)
    erase_from_later q h = unfold erase_from in rw q (ap (◌++◌ l.orders) h)

sum_open-remove :
    (id : OrderId) (os : List Order) {o : Order}
    → locate id os ≡ some o
    → sum_open os ≡ o.open_qty + sum_open (remove id os)
unfolding locate remove sum_open
sum_open-remove id [] h = cc
sum_open-remove id (x ∷ xs) {o} h = ground (arith, sum_open-remove id xs {o = o})

All-remove {ℓ} :
    (P : Order → Type ℓ) (id : OrderId) (os : List Order) → All P os → All P (remove id os)
unfolding remove
All-remove P id [] a = tt
All-remove P id (x ∷ xs) (a, as') = elim (Bool-cases (x.id == id)) [
  | inl e ↦ rw e as'
  | inr e ↦ rw e (a, All-remove P id xs as')
]

without-IsLevel :
    (s : Side) (id : OrderId) (l : Level) (o : Order)
    → IsLevel s l
    → locate id l.orders ≡ some o
    → is_empty (without id o.open_qty l) ≡ false
    → IsLevel s (without id o.open_qty l)
without-IsLevel s id l o v m z = record {
  occupied = z;
  fits = rw (erase_order-remove id l.orders) (All-remove (Fits s l.price) id l.orders v.fits);
  summed =
      rw (v.summed, sum_open-remove id l.orders m, erase_order-remove id l.orders)
        (sub32-sum o.open_qty (sum_open (remove id l.orders)) o.open_qty (omega arith)
          ∙ ground arith);
}

pub erase_from-AreLevels :
    (s : Side) (id : OrderId) (ls : List Level) (o : Order)
    → AreLevels s ls
    → IsSorted s ls
    → locate id (flatten ls) ≡ some o
    → AreLevels s (erase_from id o.open_qty o.price ls)
unfolding erase_from
erase_from-AreLevels s id [] o v b e = v
erase_from-AreLevels s id (l ∷ ls) o (v, vs) (b, bs) e =
    elim (here_or_Behind s id l ls o (v, vs) b e) [
      | inl (q, m) ↦
          erase_from_here (AreLevels s) id o.open_qty o.price l ls q (λ _. vs)
            (λ z. (without-IsLevel s id l o v m z, vs))
      | inr (q, n, later) ↦ rw q (v, erase_from-AreLevels s id ls o vs bs later)
    ]

Behind-erase_from :
    (s : Side) (r : Price) (id : OrderId) (q : Qty) (p : Price) (ls : List Level)
    → Behind s r ls
    → Behind s r (erase_from id q p ls)
unfolding erase_from
Behind-erase_from s r id q p [] b = b
Behind-erase_from s r id q p (l ∷ ls) (b, bs) = elim (Bool-cases (eq? l.price p)) [
  | inl e ↦ erase_from_here (Behind s r) id q p l ls e (λ _. bs) (λ _. (b, bs))
  | inr e ↦ rw e (b, Behind-erase_from s r id q p ls bs)
]

pub erase_from-IsSorted :
    (s : Side) (id : OrderId) (q : Qty) (p : Price) (ls : List Level)
    → IsSorted s ls
    → IsSorted s (erase_from id q p ls)
unfolding erase_from
erase_from-IsSorted s id q p [] b = b
erase_from-IsSorted s id q p (l ∷ ls) (b, bs) = elim (Bool-cases (eq? l.price p)) [
  | inl e ↦ erase_from_here (IsSorted s) id q p l ls e (λ _. bs) (λ _. (b, bs))
  | inr e ↦ rw e (Behind-erase_from s l.price id q p ls b, erase_from-IsSorted s id q p ls bs)
]
