-- ===== src/ItchBook/Steps.antt =====
-- The handlers of src/client/itch_book.cpp keep a symbol's book equal to that of the reference book.
use nasdaq_matching_engine.Common.{
  ℕ, ◌+◌, ◌-◌, ◌≤◌, ◌≡◌, refl, sym, ap, ◌∙◌, true, false, List, [], ◌∷◌, map, Option, none, some,
  ◌==◌, leb, arith, All, Bool-cases, inl, inr, ==→eq,
}
use nasdaq_matching_engine.Common.Maps.{find, find-erase}
use nasdaq_matching_engine.Types.{Price, Qty, Side, buy, sell}
use nasdaq_matching_engine.Book.{Order, opposite}
use nasdaq_matching_engine.Book.Priority.{locate, or_else, reduce}
use nasdaq_matching_engine.Book.Priority.Orders.{
  count, count-append, locate_of_count, locate-insert_self, locate-insert_ne, locate-remove_ne,
  count-remove_self, count-locate,
}
use nasdaq_matching_engine.Book.Reference.{Level, push_order, erase_from, reduce_at}
use nasdaq_matching_engine.Book.Reference.Valid.{flatten, AreLevels, IsSorted, AreDistinct}
use nasdaq_matching_engine.Book.Reference.Insertion.{push_order-insert}
use nasdaq_matching_engine.Book.Reference.Erasing.{erase_from-remove}
use nasdaq_matching_engine.Book.Reference.Reducing.{reduce_at-reduce}
use nasdaq_matching_engine.ItchBook.{
  BuilderOrder, ItchBookBuilder, SymbolBook, book_of, rows_of, with_rows, put_builder_order,
  add_order, remove_found, remove_order, reduce_order, add_row, erase_row,
}
use nasdaq_matching_engine.ItchBook.Rows.{
  row_of, add_row-push_order, erase_row-erase_from, rows-reduce_at, find-put_builder_order,
  book_of-set_book,
}

abbrev pub entry : List ℕ → Order → BuilderOrder
entry symbol o = record { symbol = symbol; side = o.side; price = o.price; qty = o.open_qty }

abbrev pub entry_of : List ℕ → Option Order → Option BuilderOrder
entry_of symbol none = none
entry_of symbol (some o) = some (entry symbol o)

-- The builder has a symbol's two sides, and no other orders.
pub record Shows (symbol : List ℕ) (s : Side) (own opp : List Level) (b : ItchBookBuilder)
    : Type 0 where
  pub own_rows : rows_of s (book_of symbol b.books) ≡ map row_of own
  pub opp_rows : rows_of (opposite s) (book_of symbol b.books) ≡ map row_of opp
  pub entries :
      (k : ℕ)
      → find k b.orders
        ≡ entry_of symbol (or_else (locate k (flatten own)) (locate k (flatten opp)))

-- The two sides of a symbol, of which the first is that of `s`.
pub record AreSides (s : Side) (own opp : List Level) : Type 0 where
  pub levels : AreLevels s own
  pub sorted : IsSorted s own
  pub distinct : AreDistinct (flatten own) (flatten opp)

rows_with :
    (s : Side) (rows : List (Price × List ℕ)) (b : SymbolBook)
    → rows_of s (with_rows s rows b) ≡ rows
rows_with buy rows b = refl
rows_with sell rows b = refl

rows_other :
    (s : Side) (rows : List (Price × List ℕ)) (b : SymbolBook)
    → rows_of (opposite s) (with_rows s rows b) ≡ rows_of (opposite s) b
rows_other buy rows b = refl
rows_other sell rows b = refl

level_counts :
    (k : ℕ) (ls : List Level) → count k (flatten ls) ≤ 1 → All (λ l. count k l.orders ≤ 1) ls
level_counts k [] h = tt
level_counts k (l ∷ ls) h =
    let both = count-append k l.orders (flatten ls) in
    (omega (arith, h, both), level_counts k ls (omega (arith, h, both)))

-- An order that is found on one side is on that side only.
elsewhere :
    (id : ℕ) (xs ys : List Order) (o : Order)
    → locate id xs ≡ some o
    → count id xs + count id ys ≤ 1
    → locate id ys ≡ none
elsewhere id xs ys o e c = locate_of_count id ys (omega (arith, c, count-locate id xs {o = o} e))

locate-reduce_ne :
    (k id : ℕ) (keep : Qty) (os : List Order)
    → (id == k) ≡ false
    → locate k (reduce id keep os) ≡ locate k os
unfolding locate reduce
locate-reduce_ne k id keep [] h = refl
locate-reduce_ne k id keep (x ∷ xs) h = ground (arith, locate-reduce_ne k id keep xs)

locate-reduce_self :
    (id : ℕ) (keep : Qty) (os : List Order) (o : Order)
    → locate id os ≡ some o
    → locate id (reduce id keep os) ≡ some (record o { open_qty = keep })
unfolding locate reduce
locate-reduce_self id keep [] o h = cc
locate-reduce_self id keep (x ∷ xs) o h = ground (arith, locate-reduce_self id keep xs o)

first_none :
    (symbol : List ℕ) (x y : Option Order) → entry_of symbol (or_else x y) ≡ none → x ≡ none
first_none symbol none y h = refl
first_none symbol (some o) y h = cc

module _ (symbol : List ℕ) (s : Side) (own opp : List Level) (b : ItchBookBuilder)
    (w : AreSides s own opp) (sh : Shows symbol s own opp b) where
  pub found :
      (id : ℕ) (o : Order)
      → locate id (flatten own) ≡ some o
      → find id b.orders ≡ some (entry symbol o)
  found id o e = sh.entries id ∙ ap (λ x. entry_of symbol (or_else x (locate id (flatten opp)))) e

  remove_order-found :
      (id : ℕ) (o : Order)
      → o.side ≡ s
      → locate id (flatten own) ≡ some o
      → remove_order id b
        ≡ remove_found id
            (record { symbol = symbol; side = s; price = o.price; qty = o.open_qty })
            b
  unfolding remove_order
  remove_order-found id o side e =
      rw (remove_order, found id o e)
        (ap
          (λ z.
            remove_found id
              (record { symbol = symbol; side = z; price = o.price; qty = o.open_qty }) b)
          side)

  reduce_order-found :
      (id : ℕ) (o : Order) (by : Qty)
      → locate id (flatten own) ≡ some o
      → leb o.open_qty by ≡ false
      → reduce_order id by b ≡ record b {
        orders = put_builder_order id (record (entry symbol o) { qty = o.open_qty - by }) b.orders;
      }
  unfolding reduce_order
  reduce_order-found id o by e less = rw (reduce_order, found id o e) (rw less refl)

  pub reduce_order-all :
      (id : ℕ) (o : Order) (by : Qty)
      → locate id (flatten own) ≡ some o
      → leb o.open_qty by ≡ true
      → reduce_order id by b ≡ remove_order id b
  unfolding reduce_order
  reduce_order-all id o by e all = rw (reduce_order, found id o e) (rw all refl)

  pub remove_order-Shows :
      (id : ℕ) (o : Order)
      → o.side ≡ s
      → locate id (flatten own) ≡ some o
      → Shows symbol s (erase_from id o.open_qty o.price own) opp (remove_order id b)
  unfolding remove_found
  remove_order-Shows id o side e =
      let book = book_of symbol b.books in
      let rows' = erase_row o.price id (rows_of s book) in
      let set_ = book_of-set_book symbol (with_rows s rows' book) b.books in
      let flat = erase_from-remove s id own o w.levels w.sorted e in
      rw (remove_order-found id o side e) (record {
        own_rows =
            ap (rows_of s) set_
            ∙ rows_with s rows' book
            ∙ ap (erase_row o.price id) sh.own_rows
            ∙ erase_row-erase_from id o.open_qty o.price own
                (level_counts id own (omega (arith, w.distinct id)));
        opp_rows = ap (rows_of (opposite s)) set_ ∙ rows_other s rows' book ∙ sh.opp_rows;
        entries = λ k. find-erase k id b.orders ∙ (elim (Bool-cases (id == k)) [
          | inr n ↦ rw n (
              sh.entries k
              ∙ ap (λ x. entry_of symbol (or_else x (locate k (flatten opp))))
                  (sym (locate-remove_ne k id (flatten own) n) ∙ ap (locate k) (sym flat)))
          | inl q ↦
              let same = ==→eq id k q in
              let gone : locate id (flatten (erase_from id o.open_qty o.price own)) ≡ none =
                ap (locate id) flat
                ∙ locate_of_count id _
                    (count-remove_self id (flatten own) (omega (arith, w.distinct id))) in
              let other : locate id (flatten opp) ≡ none =
                elsewhere id (flatten own) (flatten opp) o e (w.distinct id) in
              let gone_k : locate k (flatten (erase_from id o.open_qty o.price own)) ≡ none =
                rw (sym same) gone in
              let other_k : locate k (flatten opp) ≡ none = rw (sym same) other in
              rw (q, gone_k, other_k) refl
        ]);
      })

  pub reduce_order-Shows :
      (id : ℕ) (o : Order) (by keep : Qty)
      → locate id (flatten own) ≡ some o
      → leb o.open_qty by ≡ false
      → keep ≡ o.open_qty - by
      → Shows symbol s (reduce_at id keep by o.price own) opp (reduce_order id by b)
  reduce_order-Shows id o by keep e less left =
      let flat = reduce_at-reduce s id keep by own o w.levels w.sorted e in
      rw (reduce_order-found id o by e less) (record {
        own_rows = sh.own_rows ∙ sym (rows-reduce_at id keep by o.price own);
        opp_rows = sh.opp_rows;
        entries = λ k. find-put_builder_order k id _ b.orders ∙ (elim (Bool-cases (id == k)) [
          | inr n ↦ rw n (
              sh.entries k
              ∙ ap (λ x. entry_of symbol (or_else x (locate k (flatten opp))))
                  (sym (locate-reduce_ne k id keep (flatten own) n) ∙ ap (locate k) (sym flat)))
          | inl q ↦
              let same = ==→eq id k q in
              let here : locate k (flatten (reduce_at id keep by o.price own))
                  ≡ some (record o { open_qty = keep }) =
                rw (sym same)
                  (ap (locate id) flat ∙ locate-reduce_self id keep (flatten own) o e) in
              rw (q, here, left) refl
        ]);
      })

  pub add_order-Shows :
      (o : Order)
      → o.side ≡ s
      → find o.id b.orders ≡ none
      → Shows symbol s (push_order s o own) opp (add_order o.id symbol s o.price o.open_qty b)
  unfolding add_order
  add_order-Shows o side new =
      let book = book_of symbol b.books in
      let rows' = add_row s o.price o.id (rows_of s book) in
      let set_ = book_of-set_book symbol (with_rows s rows' book) b.books in
      let flat = push_order-insert s o own w.levels w.sorted in
      let absent : entry_of symbol (or_else (locate o.id (flatten own)) (locate o.id (flatten opp)))
          ≡ none =
        sym (sh.entries o.id) ∙ new in
      record {
        own_rows =
            ap (rows_of s) set_
            ∙ rows_with s rows' book
            ∙ ap (add_row s o.price o.id) sh.own_rows
            ∙ add_row-push_order s o own;
        opp_rows = ap (rows_of (opposite s)) set_ ∙ rows_other s rows' book ∙ sh.opp_rows;
        entries = λ k. find-put_builder_order k o.id _ b.orders ∙ (elim (Bool-cases (o.id == k)) [
          | inr n ↦ rw n (
              sh.entries k
              ∙ ap (λ x. entry_of symbol (or_else x (locate k (flatten opp))))
                  (sym (locate-insert_ne k s o (flatten own) n) ∙ ap (locate k) (sym flat)))
          | inl q ↦
              let same = ==→eq o.id k q in
              let here : locate k (flatten (push_order s o own)) ≡ some o = rw (sym same) (
                ap (locate o.id) flat
                ∙ locate-insert_self s o (flatten own) (first_none symbol _ _ absent)) in
              rw (q, here, side) refl
        ]);
      }
