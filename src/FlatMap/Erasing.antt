-- ===== src/FlatMap/Erasing.antt =====
-- The backward shift of `erase` in src/book/flat_map.hpp: the entries behind the hole move up until
-- none is cut off from its home.
pub mod Stopping
pub mod Moving
pub mod Shifting
use nasdaq_matching_engine.Common.{
  ℕ, zero, suc, ◌+◌, ◌-◌, ◌*◌, ◌≤◌, ◌<◌, ◌≡◌, ◌≢◌, ◌⊎◌, refl, sym, ap, ◌∙◌, List, Option, none,
  some, Bool, true, false, ◌==◌, not, if◌then◌else◌, length, set, arith, inl, inr, Bool-cases,
  ==→eq, ltb, ltb→lt, leb, ne_of_==, ==_self, length-set,
}
use nasdaq_matching_engine.FlatMap.{Slot, no_slot, slot_at, next_slot, ideal, shift_back, movable}
use nasdaq_matching_engine.FlatMap.Cyclic.{
  dist, dist-lt, dist-inj, dist_self, dist-next_slot, next_slot-lt, ideal-lt, dist-zero,
  dist-through, dist-passes, dist-between, dist-from_next, movable_lem,
}
use nasdaq_matching_engine.FlatMap.Probing.{
  used_at, key_at, home, IsProbed, IsProbed_lem, HasRoom, Holds, HoldsBut, slot_at-set, entries,
  entries-set,
}

-- The table with `hole` as the slot to give up, where the slots up to `j` have been looked at.
pub record HasHole (n : ℕ) (slots : List Slot) (hole j : ℕ) : Type 0 where
  pub width : length slots ≡ n
  pub hole_lt : hole < n
  pub j_lt : j < n
  pub hole_used : used_at slots hole ≡ true
  pub j_used : used_at slots j ≡ true
  pub paths :
      (q x : ℕ)
      → q < n
      → x < n
      → q ≢ hole
      → used_at slots q ≡ true
      → dist n (ideal n (key_at slots q)) x < dist n (ideal n (key_at slots q)) q
      → used_at slots x ≡ true
  pub unique :
      (p q : ℕ)
      → p < n
      → q < n
      → p ≢ hole
      → q ≢ hole
      → used_at slots p ≡ true
      → used_at slots q ≡ true
      → key_at slots p ≡ key_at slots q
      → p ≡ q
  -- The slots behind the hole that stay have their homes behind it too.
  pub stays :
      (x : ℕ)
      → x < n
      → 0 < dist n hole x
      → dist n hole x ≤ dist n hole j
      → (used_at slots x ≡ true) × (dist n (ideal n (key_at slots x)) x < dist n hole x)

-- The end of `erase`: the last hole is unused.
abbrev pub vacate : List Slot × ℕ → List Slot
vacate r = set r.0 r.1 (record (slot_at r.0 r.1) { used = false })

-- The table `new` holds what `old` holds outside `hole`.
pub record Vacates (old : List Slot) (hole : ℕ) (new : List Slot) : Type 0 where
  pub width : length new ≡ length old
  pub probed : IsProbed new
  pub kept : (k v : ℕ) → HoldsBut hole old k v → Holds new k v
  pub others : (k v : ℕ) → Holds new k v → HoldsBut hole old k v
  pub one_less : entries new + 1 ≡ entries old

module _ (n : ℕ) (slots : List Slot) (hole j : ℕ) (w : HasHole n slots hole j) where
  module _ (f : ℕ) (hf : f < n) (uf : used_at slots f ≡ false) where
    -- The free slot lies behind those looked at.
    free-behind : dist n hole j < dist n hole f
    free-behind = elim (Bool-cases (ltb (dist n hole j) (dist n hole f))) [
      | inl l ↦ ltb→lt _ _ l
      | inr l ↦ elim (Bool-cases (dist n hole f == 0)) [
        | inl z ↦
            let same = dist-zero n hole f w.hole_lt hf (==→eq _ 0 z) in
            absurd (cc (uf, same, w.hole_used))
        | inr z ↦ absurd (cc (uf, (w.stays f hf (ground (arith, z)) (ground (arith, l))).0))
      ]
    ]

    pub hole-next : dist n hole (next_slot n j) ≡ dist n hole j + 1
    hole-next =
        dist-next_slot n hole j w.hole_lt w.j_lt
          (omega (arith, free-behind, dist-lt n hole f w.hole_lt hf))

    pub free-nearer : dist n (next_slot n j) f + 1 ≡ dist n j f
    free-nearer = dist-from_next n j f w.j_lt hf (elim (Bool-cases (dist n j f == 0)) [
      | inl z ↦ absurd (cc (uf, w.j_used, dist-zero n j f w.j_lt hf (==→eq _ 0 z)))
      | inr z ↦ ground (arith, z)
    ])
