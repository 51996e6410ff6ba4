-- ===== src/FastBook/Unlinking.antt =====
-- `unlink` and the end of `rest` in src/book/fast_book.cpp: what they do to the orders of a level.
use nasdaq_matching_engine.Common.{
  ℕ, ◌<◌, ◌≡◌, refl, sym, ap, ◌∙◌, List, [], ◌∷◌, ◌++◌, length, set, arith, All, length-set,
}
use nasdaq_matching_engine.Types.{Qty}
use nasdaq_matching_engine.FastBook.{nil, FOrder, Level}
use nasdaq_matching_engine.FastBook.Pool.{cell, set_next, set_prev, unlink, append}
use nasdaq_matching_engine.FastBook.Chains.{
  Misses, IsDistinct, IsRun, IsChain, cell-set, IsRun-set, IsRun-split, IsRun-join,
  IsDistinct-middle,
}
use nasdaq_matching_engine.FastBook.Links.{
  SameOrders, SameOrders-set, SameOrders-trans, IsDistinct-apart, front-IsRun, front-keeps,
  front-SameOrders, back-IsRun, back-keeps, back-SameOrders, IsRun-eq,
}

All-front {κ} : (P : ℕ → Type κ) (xs ys : List ℕ) → All P (xs ++ ys) → All P xs × All P ys
All-front P [] ys a = (tt, a)
All-front P (x ∷ xs) ys (h, a) = let (b, c) = All-front P xs ys a in ((h, b), c)

-- What `unlink` of `x` does to its level, with `xs` in front of it and `ys` behind.
pub record Unlinks (pool : List FOrder) (lvl : Level) (xs : List ℕ) (x : ℕ) (ys : List ℕ)
    : Type 0 where
  pub chain : IsChain (unlink x lvl pool).1 (unlink x lvl pool).0 (xs ++ ys)
  pub orders : SameOrders pool (unlink x lvl pool).1
  pub others :
      (zs : List ℕ)
      → All (λ k. Misses k zs) (xs ++ x ∷ ys)
      → (q i m stop : ℕ) → IsRun pool q i zs m stop
      → IsRun (unlink x lvl pool).1 q i zs m stop

Misses-each : (x : ℕ) (ys : List ℕ) → Misses x ys → All (λ k. Misses k (x ∷ [])) ys
Misses-each x [] m = tt
Misses-each x (y ∷ ys) (n, m) = (((λ e. n (sym e)), tt), Misses-each x ys m)

Misses-turn : (xs ys : List ℕ) → All (λ k. Misses k ys) xs → All (λ k. Misses k xs) ys
Misses-turn xs [] a = tt
Misses-turn xs (y ∷ ys) a = (first xs a, Misses-turn xs ys (others xs a))
  where
    first : (zs : List ℕ) → All (λ k. Misses k (y ∷ ys)) zs → Misses y zs
    first [] h = tt
    first (z ∷ zs) ((n, m), h) = ((λ e. n (sym e)), first zs h)

    others : (zs : List ℕ) → All (λ k. Misses k (y ∷ ys)) zs → All (λ k. Misses k ys) zs
    others [] h = tt
    others (z ∷ zs) ((n, m), h) = (m, others zs h)

-- `unlink` of an order of a level, first, last or in between, leaves the level with the orders before
-- and behind it, linked both ways, with the right head and tail. No order changes but for its links,
-- and lists of other orders stay linked.
pub unlink-Unlinks :
    (pool : List FOrder) (lvl : Level) (xs : List ℕ) (x : ℕ) (ys : List ℕ)
    → IsDistinct (xs ++ x ∷ ys)
    → IsChain pool lvl (xs ++ x ∷ ys)
    → Unlinks pool lvl xs x ys
unfolding unlink
unlink-Unlinks pool lvl xs x ys d c =
    let (p₀, k, a₀, ((e, (l, (s, f))), r)) =
      IsRun-split pool xs (x ∷ ys) nil lvl.head lvl.tail nil c in
    let p = (cell pool x).prev in
    let a = IsRun-eq pool pool nil lvl.head lvl.head xs p₀ p k refl refl f a₀ in
    let (mx, my, dx, dy, dxy) = IsDistinct-middle x xs ys d in
    let apart = IsDistinct-apart xs ys dxy in
    let n = (cell pool x).next in
    let pool₁ = set_next p n pool in
    let pool₂ = set_prev n p pool₁ in
    let o : FOrder = record (cell pool₂ x) { prev = nil; next = nil } in
    let a₁ = front-IsRun pool n lvl.head p k xs dx a in
    let r₁ = front-keeps pool n lvl.head p k xs ys apart a x n lvl.tail nil r in
    let s₁ = front-SameOrders pool n lvl.head p k xs a in
    let a₂ = back-keeps pool₁ p x n lvl.tail xs ys (Misses-turn xs ys apart) r₁ nil _ p n a₁ in
    let r₂ = back-IsRun pool₁ p x n lvl.tail ys dy r₁ in
    let s₂ = SameOrders-trans pool pool₁ pool₂ s₁ (back-SameOrders pool₁ p x n lvl.tail ys r₁) in
    let l₂ : x < length pool₂ = rw s₂.width l in
    let a₃ = IsRun-set pool₂ x o l₂ xs mx nil _ p n a₂ in
    let r₃ = IsRun-set pool₂ x o l₂ ys my p n _ nil r₂ in
    record {
      chain = IsRun-join (set pool₂ x o) xs ys nil _ p n _ nil a₃ r₃;
      orders = SameOrders-trans pool pool₂ (set pool₂ x o) s₂ (SameOrders-set pool₂ x o l₂ refl);
      others = λ zs h q i m stop t.
          let (hx, (hz, hy)) = All-front (λ j. Misses j zs) xs (x ∷ ys) h in
          IsRun-set pool₂ x o l₂ zs hz q i m stop (
            back-keeps pool₁ p x n lvl.tail zs ys hy r₁ q i m stop
              (front-keeps pool n lvl.head p k xs zs hx a q i m stop t));
    }

-- What the end of `rest` does to the level of the new order.
pub record Appends (pool : List FOrder) (lvl : Level) (xs : List ℕ) (x : ℕ) (qty : Qty)
    : Type 0 where
  pub chain : IsChain (append x qty lvl pool).1 (append x qty lvl pool).0 (xs ++ x ∷ [])
  pub orders : SameOrders pool (append x qty lvl pool).1
  pub others :
      (zs : List ℕ)
      → All (λ k. Misses k zs) xs
      → Misses x zs
      → (q i m stop : ℕ) → IsRun pool q i zs m stop
      → IsRun (append x qty lvl pool).1 q i zs m stop

-- The end of `rest` puts an order with no follower behind the last one of a level, which may be empty:
-- the level is linked both ways, with the right head and tail, no order changes but for its links, and
-- lists of other orders stay linked. The order is in no level.
pub append-Appends :
    (pool : List FOrder) (lvl : Level) (xs : List ℕ) (x : ℕ) (qty : Qty)
    → IsDistinct xs
    → Misses x xs
    → x < length pool
    → x < nil
    → (cell pool x).next ≡ nil
    → IsChain pool lvl xs
    → Appends pool lvl xs x qty
unfolding append
append-Appends pool lvl xs x qty d mx l s e c =
    let o : FOrder = record (cell pool x) { prev = lvl.tail } in
    let pool₁ = set pool x o in
    let pool₂ = set_next lvl.tail x pool₁ in
    let c₁ = IsRun-set pool x o l xs mx nil lvl.head lvl.tail nil c in
    let here : cell pool₁ x ≡ o = ground (arith, cell-set pool x x o l) in
    let last_one : IsRun pool₁ lvl.tail x (x ∷ []) x nil = (
      (refl, (rw (length-set pool x o) l, (s, ap (λ k. k.prev) here))),
      (ap (λ k. k.next) here ∙ e, refl),
    ) in
    let c₂ = front-IsRun pool₁ x lvl.head lvl.tail nil xs d c₁ in
    let last_two =
      front-keeps pool₁ x lvl.head lvl.tail nil xs (x ∷ []) (Misses-each x xs mx) c₁ lvl.tail x x
        nil last_one in
    let s₁ = SameOrders-set pool x o l refl in
    record {
      chain = IsRun-join pool₂ xs (x ∷ []) nil _ lvl.tail x x nil c₂ last_two;
      orders =
          SameOrders-trans pool pool₁ pool₂ s₁
            (front-SameOrders pool₁ x lvl.head lvl.tail nil xs c₁);
      others = λ zs h hx q i m stop t.
          front-keeps pool₁ x lvl.head lvl.tail nil xs zs h c₁ q i m stop
            (IsRun-set pool x o l zs hx q i m stop t);
    }
