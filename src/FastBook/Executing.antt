-- ===== src/FastBook/Executing.antt =====
-- One execution of `consume_level` of src/book/fast_book.cpp: the order at the head of the level is used
-- up and leaves, or stays with fewer shares.
use nasdaq_matching_engine.Common.{
  ℕ, zero, suc, ◌-◌, ◌<◌, ◌≡◌, ◌≢◌, refl, sym, ap, ◌∙◌, Bool, true, false, not, ◌&&◌, List, [], ◌∷◌,
  ◌++◌, map, ◌==◌, ltb, length, set, arith, All, length-set, Bool-cases, inl, inr, ==→eq,
}
use nasdaq_matching_engine.Common.Words.{sub32}
use nasdaq_matching_engine.Types.{Price, OrderId, Side}
use nasdaq_matching_engine.Book.{Order, crosses, Fill, execute, exec_qty}
use nasdaq_matching_engine.Book.Priority.{take_front}
use nasdaq_matching_engine.FlatMap.{FlatMap, erase}
use nasdaq_matching_engine.FastBook.{nil, FOrder}
use nasdaq_matching_engine.FastBook.Pool.{cell}
use nasdaq_matching_engine.FastBook.Chains.{Misses, IsDistinct, IsRun, IsChain, cell-set}
use nasdaq_matching_engine.FastBook.Links.{core}
use nasdaq_matching_engine.FastBook.Unlinking.{Unlinks, unlink-Unlinks}
use nasdaq_matching_engine.FastBook.Matching.{
  Consumed, order_of, drop_head, consume_head, consume_level,
}

-- The orders of a level, first one first.
abbrev pub orders : List FOrder → List ℕ → List Order
orders pool xs = map (λ i. core (cell pool i)) xs

abbrev pub erase_each : List OrderId → FlatMap → FlatMap
erase_each [] index = index
erase_each (id ∷ ids) index = erase_each ids (erase id index).1

abbrev pub free_each : List ℕ → List ℕ → List ℕ
free_each [] free = free
free_each (x ∷ xs) free = free_each xs (x ∷ free)

-- A write that leaves the links alone.
pub IsRun-relink :
    (pool : List FOrder) (k : ℕ) (o : FOrder)
    → k < length pool
    → o.prev ≡ (cell pool k).prev
    → o.next ≡ (cell pool k).next
    → (xs : List ℕ) (prev i last stop : ℕ) → IsRun pool prev i xs last stop
    → IsRun (set pool k o) prev i xs last stop
IsRun-relink pool k o h ep en [] prev i last stop r = r
IsRun-relink pool k o h ep en (x ∷ xs) prev i last stop ((e, (l, (s, p))), r) =
    let at_x = cell-set pool k x o h in
    let prevs : (cell (set pool k o) x).prev ≡ (cell pool x).prev = (elim (Bool-cases (k == x)) [
      | inl q ↦ ap (λ c. c.prev) at_x ∙ rw q (ep ∙ ap (λ j. (cell pool j).prev) (==→eq k x q))
      | inr q ↦ ap (λ c. c.prev) at_x ∙ rw q refl
    ]) in
    let nexts : (cell (set pool k o) x).next ≡ (cell pool x).next = (elim (Bool-cases (k == x)) [
      | inl q ↦ ap (λ c. c.next) at_x ∙ rw q (en ∙ ap (λ j. (cell pool j).next) (==→eq k x q))
      | inr q ↦ ap (λ c. c.next) at_x ∙ rw q refl
    ]) in
    (
      (e, (rw (length-set pool k o) l, (s, prevs ∙ p))),
      rw nexts (IsRun-relink pool k o h ep en xs x (cell pool x).next last stop r),
    )

-- The outcome of `consume_level` for the level of `xs`.
pub record Consumes (id : OrderId) (side : Side) (limit : Price) (xs : List ℕ) (c c' : Consumed)
    : Type 0 where
  pub dropped : List ℕ
  pub left : List ℕ
  pub split : xs ≡ dropped ++ left
  pub chain : IsChain c'.pool c'.level left
  pub taken : take_front id side limit (orders c.pool xs) c.fill ≡ (orders c'.pool left, c'.fill)
  pub freed : c'.free ≡ free_each dropped c.free
  pub erased : c'.index ≡ erase_each (map (λ i. (cell c.pool i).id) dropped) c.index
  pub width : length c'.pool ≡ length c.pool
  pub cells : (k : ℕ) → Misses k xs → core (cell c'.pool k) ≡ core (cell c.pool k)
  pub others :
      (zs : List ℕ)
      → All (λ k. Misses k zs) xs
      → (q i m stop : ℕ) → IsRun c.pool q i zs m stop
      → IsRun c'.pool q i zs m stop

module _ (id : OrderId) (side : Side) (limit price : Price)
    (within : crosses side limit price ≡ true) where
  -- The loop is over without quantity, or at the end of the level.
  pub consume_level-stop :
      (n : ℕ) (c : Consumed)
      → (ltb 0 c.fill.qty && not (c.level.head == nil)) ≡ false
      → consume_level n id side price c ≡ c
  unfolding consume_level
  consume_level-stop zero c h = refl
  consume_level-stop (suc n) c h = rw h refl

  pub stopped-Consumes :
      (c : Consumed) (xs : List ℕ)
      → IsChain c.pool c.level xs
      → take_front id side limit (orders c.pool xs) c.fill ≡ (orders c.pool xs, c.fill)
      → Consumes id side limit xs c c
  stopped-Consumes c xs ch t = record {
    dropped = [];
    left = xs;
    split = refl;
    chain = ch;
    taken = t;
    freed = refl;
    erased = refl;
    width = refl;
    cells = λ k m. refl;
    others = λ zs h q i m stop r. r;
  }

  pub take_front-no_qty :
      (os : List Order) (f : Fill) → f.qty ≡ 0 → take_front id side limit os f ≡ (os, f)
  unfolding take_front
  take_front-no_qty [] f h = refl
  take_front-no_qty (o ∷ os) f h = rw h refl

  -- The book after an execution against the order at `x`.
  abbrev pub after_exec : ℕ → Consumed → Consumed
  after_exec x c =
      let o = cell c.pool x in
      record c {
        level = record c.level { total = sub32 c.level.total (exec_qty c.fill.qty o.open_qty) };
        pool = set c.pool x (record o { open_qty = o.open_qty - exec_qty c.fill.qty o.open_qty });
        fill = execute id side (order_of price o) c.fill;
      }

  abbrev pub used_up : ℕ → Consumed → Bool
  used_up x c = let o = cell c.pool x in o.open_qty - exec_qty c.fill.qty o.open_qty == 0

  pub consume_head-drop_head :
      (c : Consumed) (x : ℕ)
      → c.level.head ≡ x
      → used_up x c ≡ true
      → consume_head id side price c ≡ drop_head x (cell c.pool x).id (after_exec x c)
  unfolding consume_head
  consume_head-drop_head c x e u = rw e (rw u refl)

  pub consume_head-after_exec :
      (c : Consumed) (x : ℕ)
      → c.level.head ≡ x
      → used_up x c ≡ false
      → consume_head id side price c ≡ after_exec x c
  unfolding consume_head
  consume_head-after_exec c x e u = rw e (rw u refl)

  module _ (c : Consumed) (x : ℕ) (xs : List ℕ) (d : IsDistinct (x ∷ xs))
      (ch : IsChain c.pool c.level (x ∷ xs)) (px : (cell c.pool x).price ≡ price) where
    abbrev pub changed : FOrder
    changed = record (cell c.pool x) {
      open_qty = (cell c.pool x).open_qty - exec_qty c.fill.qty (cell c.pool x).open_qty;
    }

    x_lt : x < length c.pool
    x_lt = ch.0.1.0

    pub exec-cells : (k : ℕ) → k ≢ x → core (cell (set c.pool x changed) k) ≡ core (cell c.pool k)
    exec-cells k n =
        let apart : (x == k) ≡ false = ground (arith, n) in
        ap core (cell-set c.pool x k changed x_lt) ∙ rw apart refl

    exec-ids : (k : ℕ) → (cell (set c.pool x changed) k).id ≡ (cell c.pool k).id
    exec-ids k = elim (Bool-cases (x == k)) [
      | inl q ↦
          ap (λ o. o.id) (cell-set c.pool x k changed x_lt)
          ∙ rw q (ap (λ j. (cell c.pool j).id) (==→eq x k q))
      | inr q ↦ ap (λ o. o.id) (cell-set c.pool x k changed x_lt) ∙ rw q refl
    ]

    pub exec-IsChain : IsChain (set c.pool x changed) (after_exec x c).level (x ∷ xs)
    exec-IsChain =
        IsRun-relink c.pool x changed x_lt refl refl (x ∷ xs) nil c.level.head c.level.tail nil ch

    pub exec-fill : (after_exec x c).fill ≡ execute id side (core (cell c.pool x)) c.fill
    exec-fill =
        ap
          (λ p.
            execute id side
              (record {
                id = (cell c.pool x).id;
                side = (cell c.pool x).side;
                price = p;
                open_qty = (cell c.pool x).open_qty;
              })
              c.fill)
          (sym px)

    -- The order at `x` is used up.
    abbrev pub dropped_one : Consumed
    dropped_one = drop_head x (cell c.pool x).id (after_exec x c)

    unlinked : Unlinks (set c.pool x changed) (after_exec x c).level [] x xs
    unlinked = unlink-Unlinks (set c.pool x changed) (after_exec x c).level [] x xs d exec-IsChain

    pub drop-cells : (k : ℕ) → k ≢ x → core (cell dropped_one.pool k) ≡ core (cell c.pool k)
    unfolding drop_head
    drop-cells k n = unlinked.orders.orders k ∙ exec-cells k n

    pub drop-ids : (k : ℕ) → (cell dropped_one.pool k).id ≡ (cell c.pool k).id
    unfolding drop_head
    drop-ids k = ap (λ o. o.id) (unlinked.orders.orders k) ∙ exec-ids k

    pub drop-width : length dropped_one.pool ≡ length c.pool
    unfolding drop_head
    drop-width = unlinked.orders.width ∙ length-set c.pool x changed

    pub drop-IsChain : IsChain dropped_one.pool dropped_one.level xs
    unfolding drop_head
    drop-IsChain = unlinked.chain

    pub drop-others :
        (zs : List ℕ)
        → All (λ k. Misses k zs) (x ∷ xs)
        → (q i m stop : ℕ) → IsRun c.pool q i zs m stop
        → IsRun dropped_one.pool q i zs m stop
    unfolding drop_head
    drop-others zs h q i m stop r =
        unlinked.others zs h q i m stop
          (IsRun-relink c.pool x changed x_lt refl refl zs q i m stop r)

-- Orders at other cells stay.
pub orders-same :
    (p p' : List FOrder) (x : ℕ)
    → ((k : ℕ) → k ≢ x → core (cell p' k) ≡ core (cell p k))
    → (xs : List ℕ) → Misses x xs
    → orders p' xs ≡ orders p xs
orders-same p p' x h [] m = refl
orders-same p p' x h (y ∷ ys) (n, m) =
    let e = h y (λ q. n (sym q)) in
    let es = orders-same p p' x h ys m in
    ap (λ o. o ∷ orders p' ys) e ∙ ap (λ os. core (cell p y) ∷ os) es

pub prices-same :
    (price : Price) (p p' : List FOrder) (x : ℕ)
    → ((k : ℕ) → k ≢ x → core (cell p' k) ≡ core (cell p k))
    → (xs : List ℕ) → Misses x xs
    → All (λ k. (cell p k).price ≡ price) xs
    → All (λ k. (cell p' k).price ≡ price) xs
prices-same price p p' x h [] m a = tt
prices-same price p p' x h (y ∷ ys) (n, m) (e, a) =
    (ap (λ o. o.price) (h y (λ q. n (sym q))) ∙ e, prices-same price p p' x h ys m a)

pub ids-same :
    (p p' : List FOrder)
    → ((k : ℕ) → (cell p' k).id ≡ (cell p k).id)
    → (xs : List ℕ) → map (λ i. (cell p' i).id) xs ≡ map (λ i. (cell p i).id) xs
ids-same p p' h [] = refl
ids-same p p' h (x ∷ xs) =
    ap (λ i. i ∷ map (λ j. (cell p' j).id) xs) (h x)
    ∙ ap (λ is. (cell p x).id ∷ is) (ids-same p p' h xs)
