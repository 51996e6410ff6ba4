-- ===== src/FlatMap/Cyclic.antt =====
-- Distances round the table of src/book/flat_map.hpp.
use native.Mathlib.Nat.{mod-eq_of_lt, mod_self, mod-lt}
use nasdaq_matching_engine.Common.{
  ℕ, ◌+◌, ◌-◌, ◌≤◌, ◌<◌, ◌≡◌, leb, ◌==◌, if◌then◌else◌, arith, inl, inr, Bool-cases, ==→eq,
}
use nasdaq_matching_engine.FlatMap.{next_slot, ideal, movable}

-- The steps from `p` on to `q`.
abbrev pub dist : ℕ → ℕ → ℕ → ℕ
dist cap p q = if leb p q then q - p else q + cap - p

pub next_slot_lem : (cap i : ℕ) → i < cap → next_slot cap i ≡ (if i + 1 == cap then 0 else i + 1)
unfolding next_slot
next_slot_lem cap i h = elim (Bool-cases (i + 1 == cap)) [
  | inl e ↦ rw (e, ==→eq (i + 1) cap e) (mod_self cap)
  | inr e ↦ rw e (mod-eq_of_lt (ground arith))
]

pub next_slot-lt : (cap i : ℕ) → i < cap → next_slot cap i < cap
next_slot-lt cap i h = ground (arith, next_slot_lem cap i h)

pub ideal-lt : (cap key : ℕ) → 0 < cap → ideal cap key < cap
unfolding ideal
ideal-lt cap key h = mod-lt _ h

pub dist-lt : (cap p q : ℕ) → p < cap → q < cap → dist cap p q < cap
dist-lt cap p q hp hq = ground arith

-- The only position at a given distance.
pub dist-inj : (cap p q r : ℕ) → p < cap → q < cap → r < cap → dist cap p q ≡ dist cap p r → q ≡ r
dist-inj cap p q r hp hq hr h = ground arith

pub dist_self : (cap p : ℕ) → dist cap p p ≡ 0
dist_self cap p = ground arith

pub dist-next_slot :
    (cap p q : ℕ)
    → p < cap
    → q < cap
    → dist cap p q + 1 < cap
    → dist cap p (next_slot cap q) ≡ dist cap p q + 1
dist-next_slot cap p q hp hq h = ground (arith, next_slot_lem cap q hq)

-- Two positions at distance 0 are the same.
pub dist-zero : (cap p q : ℕ) → p < cap → q < cap → dist cap p q ≡ 0 → p ≡ q
dist-zero cap p q hp hq h = ground arith

-- A stop at `r` on the way from `p` to `q`.
pub dist-through :
    (cap p r q : ℕ)
    → p < cap
    → r < cap
    → q < cap
    → dist cap p r < dist cap p q
    → dist cap p q ≡ dist cap p r + dist cap r q
dist-through cap p r q hp hr hq h = ground arith

-- The longer way passes the nearer start.
pub dist-passes :
    (cap p r q : ℕ)
    → p < cap
    → r < cap
    → q < cap
    → dist cap r q ≤ dist cap p q
    → 0 < dist cap r q
    → dist cap p r < dist cap p q
dist-passes cap p r q hp hr hq h n = ground arith

-- A position between `r` and `q` is one between `p` and `q`.
pub dist-between :
    (cap p r q x : ℕ)
    → p < cap
    → r < cap
    → q < cap
    → x < cap
    → dist cap p r < dist cap p q
    → dist cap r x < dist cap r q
    → dist cap p x < dist cap p q
dist-between cap p r q x hp hr hq hx h l = ground arith

pub dist-from_next :
    (cap p q : ℕ)
    → p < cap
    → q < cap
    → 0 < dist cap p q
    → dist cap (next_slot cap p) q + 1 ≡ dist cap p q
dist-from_next cap p q hp hq h = ground (arith, next_slot_lem cap p hp)

-- The range test of `erase`, by distances.
pub movable_lem :
    (cap hole j start : ℕ)
    → hole < cap
    → j < cap
    → start < cap
    → 0 < dist cap hole j
    → movable hole j start ≡ leb (dist cap hole j) (dist cap start j)
unfolding movable
movable_lem cap hole j start hh hj hs n = ground arith
