-- ===== src/FastBook/Links.antt =====
-- The links at the two ends of a part of a level, as `unlink` and `rest` of
-- src/book/fast_book.cpp write them.
use nasdaq_matching_engine.Common.{
  ℕ, ◌<◌, ◌≡◌, refl, ap, ◌∙◌, false, List, [], ◌∷◌, ◌++◌, ◌==◌, if◌then◌else◌, length, set, arith,
  All, length-set, Bool-cases, inl, inr, ==→eq,
}
use nasdaq_matching_engine.Book.{Order}
use nasdaq_matching_engine.FastBook.{nil, FOrder}
use nasdaq_matching_engine.FastBook.Pool.{cell, set_next, set_prev}
use nasdaq_matching_engine.FastBook.Chains.{
  Misses, IsDistinct, IsRun, cell-set, IsRun-set, last-lt, set_next-IsRun, set_prev-IsRun,
  Misses-append,
}

-- The order of a cell without its links.
abbrev pub core : FOrder → Order
core o = record { id = o.id; side = o.side; price = o.price; open_qty = o.open_qty }

-- Two pools of one size with the same orders, the links apart.
pub record SameOrders (old new : List FOrder) : Type 0 where
  pub width : length new ≡ length old
  pub orders : (j : ℕ) → core (cell new j) ≡ core (cell old j)

pub SameOrders-set :
    (pool : List FOrder) (i : ℕ) (o : FOrder)
    → i < length pool
    → core o ≡ core (cell pool i)
    → SameOrders pool (set pool i o)
SameOrders-set pool i o h e = record {
  width = length-set pool i o;
  orders = λ j. elim (Bool-cases (i == j)) [
    | inl q ↦
        ap core (cell-set pool i j o h) ∙ rw q (e ∙ ap (λ k. core (cell pool k)) (==→eq i j q))
    | inr q ↦ ap core (cell-set pool i j o h) ∙ rw q refl
  ];
}

pub SameOrders-trans : (a b c : List FOrder) → SameOrders a b → SameOrders b c → SameOrders a c
SameOrders-trans a b c s t = record {
  width = t.width ∙ s.width;
  orders = λ j. t.orders j ∙ s.orders j;
}

last-All :
    (P : ℕ → Type 0) (pool : List FOrder) (x : ℕ) (xs : List ℕ) (prev i last stop : ℕ)
    → IsRun pool prev i (x ∷ xs) last stop
    → All P (x ∷ xs)
    → P last
last-All P pool x [] prev i last stop (h, (f, g)) (a, b) = rw g a
last-All P pool x (y ∷ ys) prev i last stop (h, r) (a, b) =
    last-All P pool y ys x (cell pool x).next last stop r b

pub IsDistinct-apart : (xs ys : List ℕ) → IsDistinct (xs ++ ys) → All (λ k. Misses k ys) xs
IsDistinct-apart [] ys d = tt
IsDistinct-apart (x ∷ xs) ys (m, d) = ((Misses-append x xs ys m).1, IsDistinct-apart xs ys d)

-- The same run by other names.
pub IsRun-eq :
    (pool pool' : List FOrder) (prev i i' : ℕ) (xs : List ℕ) (last last' stop : ℕ)
    → pool' ≡ pool
    → i' ≡ i
    → last' ≡ last
    → IsRun pool prev i xs last stop
    → IsRun pool' prev i' xs last' stop
IsRun-eq pool pool' prev i i' xs last last' stop e f g r = rw (e, f, g) r

pub set_next-nil : (n : ℕ) (pool : List FOrder) → set_next nil n pool ≡ pool
unfolding set_next
set_next-nil n pool = refl

set_next-some :
    (i n : ℕ) (pool : List FOrder)
    → (i == nil) ≡ false
    → set_next i n pool ≡ set pool i (record (cell pool i) { next = n })
unfolding set_next
set_next-some i n pool e = rw e refl

set_prev-nil : (n : ℕ) (pool : List FOrder) → set_prev nil n pool ≡ pool
unfolding set_prev
set_prev-nil n pool = refl

set_prev-some :
    (i n : ℕ) (pool : List FOrder)
    → (i == nil) ≡ false
    → set_prev i n pool ≡ set pool i (record (cell pool i) { prev = n })
unfolding set_prev
set_prev-some i n pool e = rw e refl

-- The end of `xs` gets the follower `n`, also in the level's head.
module _ (pool : List FOrder) (n h p k : ℕ) where
  pub front-IsRun :
      (xs : List ℕ)
      → IsDistinct xs
      → IsRun pool nil h xs p k
      → IsRun (set_next p n pool) nil (if p == nil then n else h) xs p n
  front-IsRun [] d (e, f) = rw f (refl, refl)
  front-IsRun (x ∷ xs) d r =
      let (l, s) = last-lt pool x xs nil h p k r in
      let some_prev : (p == nil) ≡ false = ground (arith, s) in
      IsRun-eq _ _ nil h (if p == nil then n else h) (x ∷ xs) p p n
        (set_next-some p n pool some_prev) (rw some_prev refl) refl
        (set_next-IsRun pool n x xs nil h p k d r)

  pub front-keeps :
      (xs ys : List ℕ)
      → All (λ j. Misses j ys) xs
      → IsRun pool nil h xs p k
      → (q i last stop : ℕ) → IsRun pool q i ys last stop
      → IsRun (set_next p n pool) q i ys last stop
  front-keeps [] ys d (e, f) q i last stop r = rw (f, set_next-nil n pool) r
  front-keeps (x ∷ xs) ys d a q i last stop r =
      let (l, s) = last-lt pool x xs nil h p k a in
      let some_prev : (p == nil) ≡ false = ground (arith, s) in
      let clear = last-All (λ j. Misses j ys) pool x xs nil h p k a d in
      rw (set_next-some p n pool some_prev)
        (IsRun-set pool p (record (cell pool p) { next = n }) l ys clear q i last stop r)

  pub front-SameOrders :
      (xs : List ℕ) → IsRun pool nil h xs p k → SameOrders pool (set_next p n pool)
  front-SameOrders [] (e, f) =
      rw (f, set_next-nil n pool) (record { width = refl; orders = λ j. refl })
  front-SameOrders (x ∷ xs) a =
      let (l, s) = last-lt pool x xs nil h p k a in
      let some_prev : (p == nil) ≡ false = ground (arith, s) in
      rw (set_next-some p n pool some_prev)
        (SameOrders-set pool p (record (cell pool p) { next = n }) l refl)

-- The start of `ys` gets the neighbour `p` in front, also in the level's tail.
module _ (pool : List FOrder) (p x n last : ℕ) where
  pub back-IsRun :
      (ys : List ℕ)
      → IsDistinct ys
      → IsRun pool x n ys last nil
      → IsRun (set_prev n p pool) p n ys (if n == nil then p else last) nil
  back-IsRun [] d (e, f) = rw e (refl, refl)
  back-IsRun (y ∷ ys) d ((e, (l, (s, f))), r) =
      let some_next : (n == nil) ≡ false = ground (arith, s, e) in
      IsRun-eq _ _ p y n (y ∷ ys) last (if n == nil then p else last) nil
        (set_prev-some n p pool some_next
          ∙ ap (λ k. set pool k (record (cell pool k) { prev = p })) e)
        e (rw some_next refl) (set_prev-IsRun pool p y ys x y last nil d ((refl, (l, (s, f))), r))

  pub back-keeps :
      (xs ys : List ℕ)
      → All (λ k. Misses k xs) ys
      → IsRun pool x n ys last nil
      → (q i m stop : ℕ) → IsRun pool q i xs m stop
      → IsRun (set_prev n p pool) q i xs m stop
  back-keeps xs [] c (e, f) q i m stop r = rw (e, set_prev-nil p pool) r
  back-keeps xs (y ∷ ys) (c, cs) ((e, (l, (s, f))), t) q i m stop r =
      let some_next : (n == nil) ≡ false = ground (arith, s, e) in
      rw (set_prev-some n p pool some_next, e)
        (IsRun-set pool y (record (cell pool y) { prev = p }) l xs c q i m stop r)

  pub back-SameOrders :
      (ys : List ℕ) → IsRun pool x n ys last nil → SameOrders pool (set_prev n p pool)
  back-SameOrders [] (e, f) =
      rw (e, set_prev-nil p pool) (record { width = refl; orders = λ j. refl })
  back-SameOrders (y ∷ ys) ((e, (l, (s, f))), t) =
      let some_next : (n == nil) ≡ false = ground (arith, s, e) in
      rw (set_prev-some n p pool some_next, e)
        (SameOrders-set pool y (record (cell pool y) { prev = p }) l refl)
