-- ===== src/Book/Reference/Cases.antt =====
-- The rounds of the loops of `OrderBook::match`, as case rules.
use nasdaq_matching_engine.Common.{
  ◌≡◌, true, false, not, ◌||◌, List, ◌∷◌, ◌==◌, Bool-cases, inl, inr,
}
use nasdaq_matching_engine.Common.Words.{sub32}
use nasdaq_matching_engine.Common.Maps.{erase}
use nasdaq_matching_engine.Types.{Price, Qty, OrderId, Side}
use nasdaq_matching_engine.Book.{Order, crosses, Fill, execute, exec_qty, left_open}
use nasdaq_matching_engine.Book.Reference.{
  Level, Index, Swept, is_empty, consume_level, match_levels,
}

-- What holds where the inner loop stops, goes on, or leaves part of an order.
pub consume_level_cases {ℓ} :
    (P : Swept Level → Type ℓ) (id : OrderId) (side : Side) (p : Price) (total : Qty) (o : Order)
    (os : List Order) (index : Index) (f : Fill)
    → ((f.qty == 0) ≡ true
        → P (record {
          book = record { price = p; total = total; orders = o ∷ os };
          index = index;
          fill = f;
        }))
    → ((left_open f o).open_qty == 0 ≡ true
        → P (
            consume_level id side p
              (sub32 total (exec_qty f.qty o.open_qty))
              os
              (erase o.id index)
              (execute id side o f)))
    → ((left_open f o).open_qty == 0 ≡ false
        → P (record {
          book = record {
            price = p;
            total = sub32 total (exec_qty f.qty o.open_qty);
            orders = left_open f o ∷ os;
          };
          index = index;
          fill = execute id side o f;
        }))
    → P (consume_level id side p total (o ∷ os) index f)
unfolding consume_level
consume_level_cases P id side p total o os index f stop next part = elim (Bool-cases (f.qty == 0)) [
  | inl e ↦ rw e (stop e)
  | inr e ↦ elim (Bool-cases ((left_open f o).open_qty == 0)) [
    | inl z ↦ rw (e, z) (next z)
    | inr z ↦ rw (e, z) (part z)
  ]
]

-- The same for the outer loop.
pub match_levels_cases {ℓ} :
    (P : Swept (List Level) → Type ℓ) (id : OrderId) (side : Side) (limit : Price) (l : Level)
    (ls : List Level) (index : Index) (f : Fill)
    → let c = consume_level id side l.price l.total l.orders index f in
      ((f.qty == 0 || not (crosses side limit l.price)) ≡ true
        → P (record { book = l ∷ ls; index = index; fill = f }))
      → ((f.qty == 0 || not (crosses side limit l.price)) ≡ false
          → is_empty c.book ≡ true
          → P (match_levels id side limit ls c.index c.fill))
      → ((f.qty == 0 || not (crosses side limit l.price)) ≡ false
          → is_empty c.book ≡ false
          → P (record { book = c.book ∷ ls; index = c.index; fill = c.fill }))
      → P (match_levels id side limit (l ∷ ls) index f)
unfolding match_levels
match_levels_cases P id side limit l ls index f stop next part =
    elim (Bool-cases (f.qty == 0 || not (crosses side limit l.price))) [
      | inl e ↦ rw e (stop e)
      | inr e ↦
          elim (Bool-cases
            (is_empty (consume_level id side l.price l.total l.orders index f).book)) [
              | inl z ↦ rw (e, z) (next e z)
              | inr z ↦ rw (e, z) (part e z)
            ]
    ]
