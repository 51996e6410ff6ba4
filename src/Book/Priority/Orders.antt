-- ===== src/Book/Priority/Orders.antt =====
-- Lists of orders: where an id stands, and how often, before and after the scans of
-- `Book.Priority`.
use nasdaq_matching_engine.Common.{
  ℕ, ◌+◌, ◌≤◌, ◌≡◌, refl, ap, false, List, [], ◌∷◌, ◌++◌, none, some, arith, ◌==◌, if◌then◌else◌,
  All,
}
use nasdaq_matching_engine.Types.{Price, Qty, OrderId, Side}
use nasdaq_matching_engine.Book.{Order, better, Fill, execute}
use nasdaq_matching_engine.Book.Priority.{take_front, insert, locate, remove, reduce, or_else}

-- How often an id stands in a list.
unfoldable pub count : OrderId → List Order → ℕ
count id [] = 0
count id (o ∷ os) = (if o.id == id then 1 else 0) + count id os

pub count-append :
    (id : OrderId) (xs ys : List Order) → count id (xs ++ ys) ≡ count id xs + count id ys
unfolding count
count-append id [] ys = omega arith
count-append id (x ∷ xs) ys = omega (arith, count-append id xs ys)

pub locate_of_count : (id : OrderId) (os : List Order) → count id os ≡ 0 → locate id os ≡ none
unfolding count locate
locate_of_count id [] h = refl
locate_of_count id (o ∷ os) h = ground (arith, locate_of_count id os)

pub count_of_locate : (id : OrderId) (os : List Order) → locate id os ≡ none → count id os ≡ 0
unfolding count locate
count_of_locate id [] h = refl
count_of_locate id (o ∷ os) h = ground (arith, count_of_locate id os)

pub count-locate :
    (id : OrderId) (os : List Order) {o : Order} → locate id os ≡ some o → 1 ≤ count id os
unfolding count locate
count-locate id [] h = cc
count-locate id (o ∷ os) {o = x} h = ground (arith, count-locate id os {o = x})

pub locate-id : (id : OrderId) (os : List Order) {o : Order} → locate id os ≡ some o → o.id ≡ id
unfolding locate
locate-id id [] h = cc
locate-id id (o ∷ os) {o = x} h = ground (arith, locate-id id os {o = x})

pub locate-append :
    (id : OrderId) (xs ys : List Order)
    → locate id (xs ++ ys) ≡ or_else (locate id xs) (locate id ys)
unfolding locate
locate-append id [] ys = refl
locate-append id (x ∷ xs) ys = ground (arith, locate-append id xs ys)

-- What holds of all holds of the located one.
pub All-locate {ℓ} :
    (P : Order → Type ℓ) (id : OrderId) (os : List Order) {o : Order}
    → All P os
    → locate id os ≡ some o
    → P o
unfolding locate
All-locate P id [] a h = cc
All-locate P id (x ∷ xs) {o} a h = ground (arith, All-locate P id xs {o = o} a.1)

pub count-insert :
    (k : OrderId) (s : Side) (o : Order) (os : List Order)
    → count k (insert s o os) ≡ (if o.id == k then 1 else 0) + count k os
unfolding count insert
count-insert k s o [] = omega arith
count-insert k s o (x ∷ xs) = ground (arith, count-insert k s o xs)

pub count-remove : (k id : OrderId) (os : List Order) → count k (remove id os) ≤ count k os
unfolding count remove
count-remove k id [] = omega arith
count-remove k id (x ∷ xs) = ground (arith, count-remove k id xs)

-- The first order with the id goes, if there is one.
pub count-remove_self :
    (id : OrderId) (os : List Order) → count id os ≤ 1 → count id (remove id os) ≡ 0
unfolding count remove
count-remove_self id [] h = refl
count-remove_self id (x ∷ xs) h = ground (arith, count-remove_self id xs)

pub count-remove_ne :
    (k id : OrderId) (os : List Order) → (id == k) ≡ false → count k (remove id os) ≡ count k os
unfolding count remove
count-remove_ne k id [] h = refl
count-remove_ne k id (x ∷ xs) h = ground (arith, count-remove_ne k id xs)

pub count-reduce :
    (k id : OrderId) (keep : Qty) (os : List Order) → count k (reduce id keep os) ≡ count k os
unfolding count reduce
count-reduce k id keep [] = refl
count-reduce k id keep (x ∷ xs) = ground (arith, count-reduce k id keep xs)

pub count-take_front :
    (k id : OrderId) (s : Side) (limit : Price) (os : List Order) (f : Fill)
    → count k (take_front id s limit os f).0 ≤ count k os
unfolding count take_front
count-take_front k id s limit [] f = omega arith
count-take_front k id s limit (o ∷ os) f =
    ground (arith, count-take_front k id s limit os (execute id s o f))

-- `insert` passes what it does not beat.
pub insert-append :
    (s : Side) (o : Order) (xs ys : List Order)
    → All (λ x. better s o.price x.price ≡ false) xs
    → insert s o (xs ++ ys) ≡ xs ++ insert s o ys
unfolding insert
insert-append s o [] ys a = refl
insert-append s o (x ∷ xs) ys (h, hs) = rw h (ap (◌∷◌ x) (insert-append s o xs ys hs))

pub locate-insert_ne :
    (k : OrderId) (s : Side) (o : Order) (os : List Order)
    → (o.id == k) ≡ false
    → locate k (insert s o os) ≡ locate k os
unfolding locate insert
locate-insert_ne k s o [] h = ground arith
locate-insert_ne k s o (x ∷ xs) h = ground (arith, locate-insert_ne k s o xs)

pub locate-insert_self :
    (s : Side) (o : Order) (os : List Order)
    → locate o.id os ≡ none
    → locate o.id (insert s o os) ≡ some o
unfolding locate insert
locate-insert_self s o [] h = ground arith
locate-insert_self s o (x ∷ xs) h = ground (arith, locate-insert_self s o xs)

pub locate-remove_ne :
    (k id : OrderId) (os : List Order) → (id == k) ≡ false → locate k (remove id os) ≡ locate k os
unfolding locate remove
locate-remove_ne k id [] h = refl
locate-remove_ne k id (x ∷ xs) h = ground (arith, locate-remove_ne k id xs)

pub locate-remove-append :
    (id : OrderId) (xs ys : List Order)
    → locate id xs ≡ none
    → remove id (xs ++ ys) ≡ xs ++ remove id ys
unfolding locate remove
locate-remove-append id [] ys h = refl
locate-remove-append id (x ∷ xs) ys h = ground (arith, locate-remove-append id xs ys)
