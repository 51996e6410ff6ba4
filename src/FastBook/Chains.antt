-- ===== src/FastBook/Chains.antt =====
-- The linked orders of src/book/fast_book.cpp as lists of pool indices.
use nasdaq_matching_engine.Common.{
  ℕ, ◌<◌, ◌≡◌, ◌≢◌, refl, sym, ap, ◌∙◌, List, [], ◌∷◌, ◌++◌, ◌==◌, if◌then◌else◌, length, set,
  arith, length-set, get_or-set,
}
use nasdaq_matching_engine.FastBook.{nil, FOrder, Level}
use nasdaq_matching_engine.FastBook.Pool.{cell, no_order}

abbrev pub Misses : ℕ → List ℕ → Type 0
Misses i [] = Unit
Misses i (x ∷ xs) = (i ≢ x) × Misses i xs

abbrev pub IsDistinct : List ℕ → Type 0
IsDistinct [] = Unit
IsDistinct (x ∷ xs) = Misses x xs × IsDistinct xs

-- From `i`, which follows `prev`, the links run over the indices up to `last`; `stop` comes next.
abbrev pub IsRun : List FOrder → ℕ → ℕ → List ℕ → ℕ → ℕ → Type 0
IsRun pool prev i [] last stop = (i ≡ stop) × (last ≡ prev)
IsRun pool prev i (x ∷ xs) last stop =
    ((i ≡ x) × ((x < length pool) × ((x < nil) × ((cell pool x).prev ≡ prev))))
    × IsRun pool x (cell pool x).next xs last stop

-- The orders of a level.
abbrev pub IsChain : List FOrder → Level → List ℕ → Type 0
IsChain pool lvl xs = IsRun pool nil lvl.head xs lvl.tail nil

pub cell-set :
    (pool : List FOrder) (i j : ℕ) (o : FOrder)
    → i < length pool
    → cell (set pool i o) j ≡ (if i == j then o else cell pool j)
cell-set pool i j o h = get_or-set pool i j o no_order h

cell-other :
    (pool : List FOrder) (i j : ℕ) (o : FOrder)
    → i < length pool
    → i ≢ j
    → cell (set pool i o) j ≡ cell pool j
cell-other pool i j o h n = ground (arith, cell-set pool i j o h)

cell-same : (pool : List FOrder) (i : ℕ) (o : FOrder) → i < length pool → cell (set pool i o) i ≡ o
cell-same pool i o h = ground (arith, cell-set pool i i o h)

-- A write elsewhere.
pub IsRun-set :
    (pool : List FOrder) (k : ℕ) (o : FOrder)
    → k < length pool
    → (xs : List ℕ) → Misses k xs
    → (prev i last stop : ℕ) → IsRun pool prev i xs last stop
    → IsRun (set pool k o) prev i xs last stop
IsRun-set pool k o h [] m prev i last stop r = r
IsRun-set pool k o h (x ∷ xs) (n, m) prev i last stop ((e, (l, (s, p))), r) =
    let same = cell-other pool k x o h n in
    (
      (e, (rw (length-set pool k o) l, (s, ap (λ c. c.prev) same ∙ p))),
      rw (ap (λ c. c.next) same) (IsRun-set pool k o h xs m x (cell pool x).next last stop r),
    )

pub IsRun-split :
    (pool : List FOrder) (xs ys : List ℕ) (prev i last stop : ℕ)
    → IsRun pool prev i (xs ++ ys) last stop
    → (m : ℕ) × (k : ℕ) × IsRun pool prev i xs m k × IsRun pool m k ys last stop
IsRun-split pool [] ys prev i last stop r = (prev, i, (refl, refl), r)
IsRun-split pool (x ∷ xs) ys prev i last stop (h, r) =
    let (m, k, a, b) = IsRun-split pool xs ys x (cell pool x).next last stop r in (m, k, (h, a), b)

pub IsRun-join :
    (pool : List FOrder) (xs ys : List ℕ) (prev i m k last stop : ℕ)
    → IsRun pool prev i xs m k
    → IsRun pool m k ys last stop
    → IsRun pool prev i (xs ++ ys) last stop
IsRun-join pool [] ys prev i m k last stop (e, f) r = rw (e, sym f) r
IsRun-join pool (x ∷ xs) ys prev i m k last stop (h, a) r =
    (h, IsRun-join pool xs ys x (cell pool x).next m k last stop a r)

-- The last index of a run is one of its indices.
pub last-missed :
    (pool : List FOrder) (k : ℕ) (xs : List ℕ) (prev i last stop : ℕ)
    → IsRun pool prev i xs last stop
    → k ≢ prev
    → Misses k xs
    → k ≢ last
last-missed pool k [] prev i last stop (e, f) n m = λ h. n (h ∙ f)
last-missed pool k (x ∷ xs) prev i last stop (h, r) n (nx, m) =
    last-missed pool k xs x (cell pool x).next last stop r nx m

pub last-lt :
    (pool : List FOrder) (x : ℕ) (xs : List ℕ) (prev i last stop : ℕ)
    → IsRun pool prev i (x ∷ xs) last stop
    → (last < length pool) × (last < nil)
last-lt pool x [] prev i last stop ((e, (l, (s, p))), (f, g)) = rw g (l, s)
last-lt pool x (y ∷ ys) prev i last stop (h, r) = last-lt pool y ys x (cell pool x).next last stop r

-- The last order gets another follower.
pub set_next-IsRun :
    (pool : List FOrder) (n x : ℕ) (xs : List ℕ) (prev i last stop : ℕ)
    → IsDistinct (x ∷ xs)
    → IsRun pool prev i (x ∷ xs) last stop
    → IsRun (set pool last (record (cell pool last) { next = n })) prev i (x ∷ xs) last n
set_next-IsRun pool n x [] prev i last stop d ((e, (l, (s, p))), (f, g)) =
    let here = cell-same pool x (record (cell pool x) { next = n }) l in
    rw g (
      (
        e,
        (
          rw (length-set pool x (record (cell pool x) { next = n })) l,
          (s, ap (λ c. c.prev) here ∙ p),
        ),
      ),
      (ap (λ c. c.next) here, refl),
    )
set_next-IsRun pool n x (y ∷ ys) prev i last stop ((nx, m), d) ((e, (l, (s, p))), (h, r)) =
    let o : FOrder = record (cell pool last) { next = n } in
    let (fits, _) = last-lt pool y ys x (cell pool x).next last stop (h, r) in
    let apart : x ≢ last = last-missed pool x ys y (cell pool y).next last stop r nx m in
    let same = cell-other pool last x o fits (λ q. apart (sym q)) in
    (
      (e, (rw (length-set pool last o) l, (s, ap (λ c. c.prev) same ∙ p))),
      rw (ap (λ c. c.next) same)
          (set_next-IsRun pool n y ys x (cell pool x).next last stop d (h, r)),
    )

-- The first order gets another neighbour in front.
pub set_prev-IsRun :
    (pool : List FOrder) (p' x : ℕ) (xs : List ℕ) (prev i last stop : ℕ)
    → IsDistinct (x ∷ xs)
    → IsRun pool prev i (x ∷ xs) last stop
    → IsRun (set pool x (record (cell pool x) { prev = p' })) p' i (x ∷ xs) last stop
set_prev-IsRun pool p' x xs prev i last stop (m, d) ((e, (l, (s, p))), r) =
    let o : FOrder = record (cell pool x) { prev = p' } in
    let same = cell-same pool x o l in
    (
      (e, (rw (length-set pool x o) l, (s, ap (λ c. c.prev) same))),
      rw (ap (λ c. c.next) same) (IsRun-set pool x o l xs m x (cell pool x).next last stop r),
    )

-- A run is empty or starts with the order it names first.
pub Misses-append : (k : ℕ) (xs ys : List ℕ) → Misses k (xs ++ ys) → Misses k xs × Misses k ys
Misses-append k [] ys m = (tt, m)
Misses-append k (x ∷ xs) ys (n, m) = let (a, b) = Misses-append k xs ys m in ((n, a), b)

pub Misses-join : (k : ℕ) (xs ys : List ℕ) → Misses k xs → Misses k ys → Misses k (xs ++ ys)
Misses-join k [] ys a b = b
Misses-join k (x ∷ xs) ys (n, a) b = (n, Misses-join k xs ys a b)

-- The parts of distinct indices around one of them.
pub IsDistinct-middle :
    (x : ℕ) (xs ys : List ℕ)
    → IsDistinct (xs ++ x ∷ ys)
    → Misses x xs × Misses x ys × IsDistinct xs × IsDistinct ys × IsDistinct (xs ++ ys)
IsDistinct-middle x [] ys (m, d) = (tt, m, tt, d, d)
IsDistinct-middle x (y ∷ xs) ys (m, d) =
    let (a, b, c, e, f) = IsDistinct-middle x xs ys d in
    let (m₁, (n, m₂)) = Misses-append y xs (x ∷ ys) m in
    (((λ q. n (sym q)), a), b, (m₁, c), e, (Misses-join y xs ys m₁ m₂, f))
