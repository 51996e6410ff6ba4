-- ===== src/FastBook/Pool.antt =====
-- The pool of src/book/fast_book.cpp and the links of the orders in it.
use nasdaq_matching_engine.Common.{
  ℕ, ◌%◌, ◌^◌, List, [], ◌∷◌, ◌++◌, ◌==◌, if◌then◌else◌, length, get_or, set,
}
use nasdaq_matching_engine.Common.Int.{pos}
use nasdaq_matching_engine.Common.Words.{add32}
use nasdaq_matching_engine.Types.{Price, Qty, OrderId, Side, buy}
use nasdaq_matching_engine.FastBook.{nil, FOrder, Level}

abbrev pub no_order : FOrder
no_order = record { id = 0; price = pos 0; open_qty = 0; prev = 0; next = 0; side = buy }

abbrev pub cell : List FOrder → ℕ → FOrder
cell pool i = get_or pool i no_order

-- The free list has its last element first.
unfoldable pub alloc_order :
    OrderId → Side → Price → Qty → List ℕ → List FOrder → ℕ × List ℕ × List FOrder
alloc_order id side price qty free pool =
    let o : FOrder = record {
      id = id;
      price = price;
      open_qty = qty;
      prev = nil;
      next = nil;
      side = side;
    } in
    elim free [ [] ↦ (length pool % 2 ^ 32, [], pool ++ o ∷ []) | i ∷ is ↦ (i, is, set pool i o) ]

-- The links of the neighbours of an order that leaves.
unfoldable pub set_next : ℕ → ℕ → List FOrder → List FOrder
set_next i next pool = if i == nil then pool else set pool i (record (cell pool i) { next = next })

unfoldable pub set_prev : ℕ → ℕ → List FOrder → List FOrder
set_prev i prev pool = if i == nil then pool else set pool i (record (cell pool i) { prev = prev })

unfoldable pub unlink : ℕ → Level → List FOrder → Level × List FOrder
unlink idx lvl pool =
    let o = cell pool idx in
    let pool' = set_prev o.next o.prev (set_next o.prev o.next pool) in
    (
      record {
        total = lvl.total;
        head = if o.prev == nil then o.next else lvl.head;
        tail = if o.next == nil then o.prev else lvl.tail;
      },
      set pool' idx (record (cell pool' idx) { prev = nil; next = nil }),
    )

-- The end of `rest` in a level: the order becomes its last.
unfoldable pub append : ℕ → Qty → Level → List FOrder → Level × List FOrder
append idx qty lvl pool =
    let pool' = set pool idx (record (cell pool idx) { prev = lvl.tail }) in
    (
      record {
        total = add32 lvl.total qty;
        head = if lvl.tail == nil then idx else lvl.head;
        tail = idx;
      },
      set_next lvl.tail idx pool',
    )
