-- ===== src/Book/Reference/Insertion.antt =====
-- `OrderBook::rest` of src/book/order_book.cpp: the level that `push_back` goes to is where the flat
-- list takes the order.
use nasdaq_matching_engine.Common.{
  ℕ, ◌+◌, ◌%◌, ◌<◌, ◌≡◌, refl, sym, ap, ◌∙◌, true, false, List, [], ◌∷◌, ◌++◌, arith, All,
  All-append, inl, inr, Bool-cases,
}
use mathlib.Core.List.{append_assoc}
use nasdaq_matching_engine.Common.Int.{eq?, eq_of_parts}
use nasdaq_matching_engine.Common.Words.{word32, add32}
use nasdaq_matching_engine.Types.{Price, Side, buy, sell}
use nasdaq_matching_engine.Book.{Order, better}
use nasdaq_matching_engine.Book.Priority.{insert}
use nasdaq_matching_engine.Book.Priority.Orders.{insert-append}
use nasdaq_matching_engine.Book.Reference.{Level, push_back, push_order}
use nasdaq_matching_engine.Book.Reference.Valid.{
  flatten, sum_open, Fits, IsLevel, AreLevels, Behind, IsSorted,
}

pub better_trans :
    (s : Side) (p q r : Price) → better s p q ≡ true → better s q r ≡ true → better s p r ≡ true
better_trans buy p q r h k = ground arith
better_trans sell p q r h k = ground arith

pub better_irrefl : (s : Side) (p : Price) → better s p p ≡ false
better_irrefl buy p = ground arith
better_irrefl sell p = ground arith

better_total :
    (s : Side) (p q : Price) → better s p q ≡ false → eq? q p ≡ false → better s q p ≡ true
better_total buy p q h k = ground arith
better_total sell p q h k = ground arith

better_asymm : (s : Side) (p q : Price) → better s p q ≡ true → better s q p ≡ false
better_asymm buy p q h = ground arith
better_asymm sell p q h = ground arith

pub eq?→eq : (p q : Price) → eq? p q ≡ true → p ≡ q
eq?→eq p q h = ground (arith, eq_of_parts p q)

Behind-trans :
    (s : Side) (p q : Price) (ls : List Level) → better s p q ≡ true → Behind s q ls → Behind s p ls
Behind-trans s p q [] h b = tt
Behind-trans s p q (l ∷ ls) h (b, bs) = (better_trans s p q l.price h b, Behind-trans s p q ls h bs)

-- An order that is better than the first level goes to the front.
insert_front :
    (s : Side) (o : Order) (ls : List Level)
    → AreLevels s ls
    → Behind s o.price ls
    → insert s o (flatten ls) ≡ o ∷ flatten ls
insert_front s o [] v b = unfold insert in refl
insert_front s o (l ∷ ls) (v, _) (b, _) = front l.orders v.fits v.occupied
  where
    front :
        (os : List Order)
        → All (Fits s l.price) os
        → (elim os [ [] ↦ true | x ∷ xs ↦ false ]) ≡ false
        → insert s o (os ++ flatten ls) ≡ o ∷ os ++ flatten ls
    front [] a h = cc
    front (x ∷ xs) (a, _) h = unfold insert in rw (a.0, b) refl

passes :
    (s : Side) (o : Order) (p : Price) (os : List Order)
    → better s o.price p ≡ false
    → All (Fits s p) os
    → All (λ x. better s o.price x.price ≡ false) os
passes s o p [] h a = tt
passes s o p (x ∷ xs) h (a, as') = (rw a.0 h, passes s o p xs h as')

pub push_order-insert :
    (s : Side) (o : Order) (ls : List Level)
    → AreLevels s ls
    → IsSorted s ls
    → flatten (push_order s o ls) ≡ insert s o (flatten ls)
unfolding push_order push_back
push_order-insert s o [] v sorted = unfold insert in refl
push_order-insert s o (l ∷ ls) (v, vs) (b, bs) = elim (Bool-cases (better s o.price l.price)) [
  | inl h ↦
      rw h (sym (insert_front s o (l ∷ ls) (v, vs) (h, Behind-trans s o.price l.price ls h b)))
  | inr h ↦
      let pass : insert s o (l.orders ++ flatten ls) ≡ l.orders ++ insert s o (flatten ls) =
        insert-append s o l.orders (flatten ls) (passes s o l.price l.orders h v.fits) in
      elim (Bool-cases (eq? l.price o.price)) [
        | inl e ↦
            rw (h, e)
              (append_assoc l.orders (o ∷ []) (flatten ls)
                ∙ sym (
                    pass
                    ∙ ap (◌++◌ l.orders)
                        (insert_front s o ls vs (rw (eq?→eq l.price o.price e) at b))))
        | inr e ↦ rw (h, e) (ap (◌++◌ l.orders) (push_order-insert s o ls vs bs) ∙ sym pass)
      ]
]

sum_open-append : (os : List Order) (o : Order) → sum_open (os ++ o ∷ []) ≡ sum_open os + o.open_qty
unfolding sum_open
sum_open-append [] o = omega arith
sum_open-append (x ∷ xs) o = omega (arith, sum_open-append xs o)

add32-sum : (total n q : ℕ) → total ≡ n % word32 → add32 total q ≡ (n + q) % word32
unfolding add32
add32-sum total n q h = omega arith

append_occupied :
    (os : List Order) (o : Order) → (elim (os ++ o ∷ []) [ [] ↦ true | x ∷ xs ↦ false ]) ≡ false
append_occupied [] o = refl
append_occupied (x ∷ xs) o = refl

push_back-IsLevel :
    (s : Side) (o : Order) (l : Level)
    → Fits s l.price o
    → All (Fits s l.price) l.orders
    → l.total ≡ sum_open l.orders % word32
    → IsLevel s (push_back o l)
unfolding push_back
push_back-IsLevel s o l h a t = record {
  occupied = append_occupied l.orders o;
  fits = All-append (Fits s l.price) l.orders (o ∷ []) a (h, tt);
  summed =
      add32-sum l.total (sum_open l.orders) o.open_qty t ∙ rw (sum_open-append l.orders o) refl;
}

push_back-IsLevel_new :
    (s : Side) (o : Order)
    → o.side ≡ s
    → 0 < o.open_qty
    → IsLevel s (push_back o (record { price = o.price; total = 0; orders = [] }))
push_back-IsLevel_new s o e h =
    push_back-IsLevel s o (record { price = o.price; total = 0; orders = [] }) (refl, e, h) tt
      (unfold sum_open in refl)

pub push_order-AreLevels :
    (s : Side) (o : Order) (ls : List Level)
    → o.side ≡ s
    → 0 < o.open_qty
    → AreLevels s ls
    → AreLevels s (push_order s o ls)
unfolding push_order
push_order-AreLevels s o [] e h v = (push_back-IsLevel_new s o e h, tt)
push_order-AreLevels s o (l ∷ ls) e h (v, vs) = elim (Bool-cases (better s o.price l.price)) [
  | inl b ↦ rw b (push_back-IsLevel_new s o e h, (v, vs))
  | inr b ↦ elim (Bool-cases (eq? l.price o.price)) [
    | inl q ↦
        rw (b, q)
          (push_back-IsLevel s o l (sym (eq?→eq l.price o.price q), e, h) v.fits v.summed, vs)
    | inr q ↦ rw (b, q) (v, push_order-AreLevels s o ls e h vs)
  ]
]

push_order-Behind :
    (s : Side) (o : Order) (p : Price) (ls : List Level)
    → better s p o.price ≡ true
    → Behind s p ls
    → Behind s p (push_order s o ls)
unfolding push_order push_back
push_order-Behind s o p [] h b = (h, tt)
push_order-Behind s o p (l ∷ ls) h (b, bs) = ground (arith, push_order-Behind s o p ls h bs)

pub push_order-IsSorted :
    (s : Side) (o : Order) (ls : List Level) → IsSorted s ls → IsSorted s (push_order s o ls)
unfolding push_order push_back
push_order-IsSorted s o [] v = (tt, tt)
push_order-IsSorted s o (l ∷ ls) (b, bs) = elim (Bool-cases (better s o.price l.price)) [
  | inl h ↦ rw h ((h, Behind-trans s o.price l.price ls h b), (b, bs))
  | inr h ↦ elim (Bool-cases (eq? l.price o.price)) [
    | inl q ↦ rw (h, q) (b, bs)
    | inr q ↦
        rw (h, q)
          (
            push_order-Behind s o l.price ls (better_total s o.price l.price h q) b,
            push_order-IsSorted s o ls bs,
          )
  ]
]
