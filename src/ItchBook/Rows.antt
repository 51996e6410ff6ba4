-- ===== src/ItchBook/Rows.antt =====
-- The maps of src/client/itch_book.cpp next to the levels of the reference book.
use nasdaq_matching_engine.Common.{
  ℕ, ◌≤◌, ◌≡◌, refl, sym, ap, true, false, List, [], ◌∷◌, ◌++◌, map, some, ◌==◌, if◌then◌else◌,
  length, arith, All, Bool-cases, inl, inr, ==_self,
}
use nasdaq_matching_engine.Common.Int.{eq?}
use nasdaq_matching_engine.Common.Maps.{find}
use nasdaq_matching_engine.Types.{Price, Qty, OrderId, Side}
use nasdaq_matching_engine.Book.{Order, better}
use nasdaq_matching_engine.Book.Priority.Orders.{count}
use nasdaq_matching_engine.Book.Reference.{
  Level, push_back, push_order, erase_order, erase_from, set_open, reduce_at,
}
use nasdaq_matching_engine.Engine.{same_chars}
use nasdaq_matching_engine.ItchBook.{
  BuilderOrder, SymbolBook, Books, book_of, set_book, add_row, put_builder_order, remove_ref,
  erase_row,
}

abbrev pub row_of : Level → Price × List ℕ
row_of l = (l.price, map (λ o. o.id) l.orders)

map-append : {A B : Type 0} (f : A → B) (xs ys : List A) → map f (xs ++ ys) ≡ map f xs ++ map f ys
map-append f [] ys = refl
map-append f (x ∷ xs) ys = ap (λ l. f x ∷ l) (map-append f xs ys)

pub add_row-push_order :
    (s : Side) (o : Order) (ls : List Level)
    → add_row s o.price o.id (map row_of ls) ≡ map row_of (push_order s o ls)
unfolding add_row push_order push_back
add_row-push_order s o [] = refl
add_row-push_order s o (l ∷ ls) = elim (Bool-cases (better s o.price l.price)) [
  | inl b ↦ rw b refl
  | inr b ↦ elim (Bool-cases (eq? l.price o.price)) [
    | inl e ↦
        rw (b, e)
          (ap (λ ids. (l.price, ids) ∷ map row_of ls)
            (sym (map-append (λ x. x.id) l.orders (o ∷ []))))
    | inr e ↦ rw (b, e) (ap (λ r. row_of l ∷ r) (add_row-push_order s o ls))
  ]
]

-- An id that stands at most once is removed like the first one.
remove_ref-erase_order :
    (id : OrderId) (os : List Order)
    → count id os ≤ 1
    → remove_ref id (map (λ o. o.id) os) ≡ map (λ o. o.id) (erase_order id os)
unfolding remove_ref erase_order count
remove_ref-erase_order id [] h = refl
remove_ref-erase_order id (o ∷ os) h = elim (Bool-cases (o.id == id)) [
  | inl e ↦ rw e (remove_absent id os (ground (arith, e, h)))
  | inr e ↦ rw e (ap (λ l. o.id ∷ l) (remove_ref-erase_order id os (ground (arith, e, h))))
]
  where
    remove_absent :
        (id : OrderId) (os : List Order)
        → count id os ≡ 0
        → remove_ref id (map (λ o. o.id) os) ≡ map (λ o. o.id) os
    remove_absent id [] h = refl
    remove_absent id (o ∷ os) h = elim (Bool-cases (o.id == id)) [
      | inl e ↦ absurd (ground (arith, e, h))
      | inr e ↦ rw e (ap (λ l. o.id ∷ l) (remove_absent id os (ground (arith, e, h))))
    ]

no_ids :
    (os : List Order) → (length (map (λ o. o.id) os) == 0) ≡ (elim os [ [] ↦ true | o ∷ r ↦ false ])
no_ids [] = refl
no_ids (o ∷ os) = ground arith

pub erase_row-erase_from :
    (id : OrderId) (q : Qty) (p : Price) (ls : List Level)
    → All (λ l. count id l.orders ≤ 1) ls
    → erase_row p id (map row_of ls) ≡ map row_of (erase_from id q p ls)
unfolding erase_row erase_from
erase_row-erase_from id q p [] a = refl
erase_row-erase_from id q p (l ∷ ls) (c, a) = elim (Bool-cases (eq? l.price p)) [
  | inr e ↦ rw e (ap (λ r. row_of l ∷ r) (erase_row-erase_from id q p ls a))
  | inl e ↦
      let left = remove_ref-erase_order id l.orders c in
      let none_left = no_ids (erase_order id l.orders) in
      rw (e, left, none_left)
        (elim (Bool-cases (elim (erase_order id l.orders) [ [] ↦ true | o ∷ r ↦ false ])) [
          | inl z ↦ rw z refl
          | inr z ↦ rw z refl
        ])
]

same_ids :
    (id : OrderId) (keep : Qty) (os : List Order)
    → map (λ o. o.id) (set_open id keep os) ≡ map (λ o. o.id) os
unfolding set_open
same_ids id keep [] = refl
same_ids id keep (o ∷ os) = elim (Bool-cases (o.id == id)) [
  | inl e ↦ rw e refl
  | inr e ↦ rw e (ap (λ l. o.id ∷ l) (same_ids id keep os))
]

pub rows-reduce_at :
    (id : OrderId) (keep gone : Qty) (p : Price) (ls : List Level)
    → map row_of (reduce_at id keep gone p ls) ≡ map row_of ls
unfolding reduce_at
rows-reduce_at id keep gone p [] = refl
rows-reduce_at id keep gone p (l ∷ ls) = elim (Bool-cases (eq? l.price p)) [
  | inl e ↦ rw e (ap (λ ids. (l.price, ids) ∷ map row_of ls) (same_ids id keep l.orders))
  | inr e ↦ rw e (ap (λ r. row_of l ∷ r) (rows-reduce_at id keep gone p ls))
]

pub find-put_builder_order :
    (k ref : ℕ) (o : BuilderOrder) (os : List (ℕ × BuilderOrder))
    → find k (put_builder_order ref o os) ≡ (if ref == k then some o else find k os)
unfolding put_builder_order
find-put_builder_order k ref o [] = refl
find-put_builder_order k ref o ((r, x) ∷ os) = ground (arith, find-put_builder_order k ref o os)

same_chars_self : (s : List ℕ) → same_chars s s ≡ true
same_chars_self [] = refl
same_chars_self (c ∷ s) = rw (==_self c, same_chars_self s) refl

-- A book that is set is the one that is found.
pub book_of-set_book :
    (symbol : List ℕ) (b : SymbolBook) (bs : Books) → book_of symbol (set_book symbol b bs) ≡ b
unfolding book_of set_book
book_of-set_book symbol b [] = rw (same_chars_self symbol) refl
book_of-set_book symbol b ((s, x) ∷ bs) = elim (Bool-cases (same_chars symbol s)) [
  | inl e ↦ rw (e, e) refl
  | inr e ↦ rw (e, e) (book_of-set_book symbol b bs)
]
