-- ===== src/FlatMap/Capacity.antt =====
-- The constructor of src/book/flat_map.hpp: where its loop ends, and the map that it makes.
use native.Mathlib.Numerals.{unary_clauses}
use native.Mathlib.Nat.{mod-eq_of_lt}
use nasdaq_matching_engine.Common.{
  ℕ, zero, suc, ◌+◌, ◌*◌, ◌%◌, ◌^◌, ◌≤◌, ◌<◌, ◌≡◌, refl, sym, ap, ◌∙◌, Option, none, some, ltb,
  false, length, arith, inl, inr, Bool-cases, Option-cases, length-replicate,
}
use nasdaq_matching_engine.FlatMap.{no_slot, FlatMap, find, capacity_from, map_of_size, new_map}
use nasdaq_matching_engine.FlatMap.Finding.{find-absent}
use nasdaq_matching_engine.FlatMap.Growing.{empty-IsProbed, empty-holds_nothing, entries-empty}
use nasdaq_matching_engine.FlatMap.Operations.{IsValid, IsValid-room}

-- The capacities of `n` rounds have 64 bits.
abbrev Fits : ℕ → ℕ → Type 0
Fits zero cap = Unit
Fits (suc n) cap = (cap < 2 ^ 64) × Fits n (cap * 2)

capacity_from-wrap :
    (n expected cap : ℕ)
    → Fits n cap
    → capacity_from n expected (cap % 2 ^ 64) ≡ capacity_from n expected cap
unfolding capacity_from
capacity_from-wrap zero expected cap f = refl
capacity_from-wrap (suc n) expected cap (l, f) = rw (mod-eq_of_lt l) refl

capacity_from_doubles :
    (n expected b : ℕ)
    → Fits n (16 * 2 ^ b)
    → (c : ℕ) → capacity_from n expected (16 * 2 ^ b) ≡ some c
    → (d : ℕ) × (c ≡ 16 * 2 ^ d)
unfolding capacity_from
capacity_from_doubles zero expected b f c e = absurd (ground (arith, e))
capacity_from_doubles (suc n) expected b (l, f) c e =
    let cap = 16 * 2 ^ b in
    let next : cap * 2 ≡ 16 * 2 ^ (b + 1) = simp unary_clauses (omega arith) in
    elim (Bool-cases (ltb (cap * 7 % 2 ^ 64) (expected * 10 % 2 ^ 64))) [
      | inl t ↦ capacity_from_doubles n expected (b + 1) (rw⁻¹ next f) c (
          ap (capacity_from n expected) (sym next)
          ∙ sym (capacity_from-wrap n expected (cap * 2) f)
          ∙ (rw t at e))
      | inr t ↦ (b, ground (arith, t, e))
    ]

-- The products of `n` rounds and one more have 64 bits, and the last is `e` at least.
abbrev Reaches : ℕ → ℕ → ℕ → Type 0
Reaches zero cap e = (cap * 7 < 2 ^ 64) × (e ≤ cap * 7)
Reaches (suc n) cap e = (cap * 7 < 2 ^ 64) × Reaches n (cap * 2) e

abbrev Suffices : Option ℕ → ℕ → Type 0
Suffices o expected = (c : ℕ) × (o ≡ some c) × (expected * 10 ≤ c * 7)

capacity_from-Suffices :
    (fuel n expected cap : ℕ)
    → n < fuel
    → expected * 10 < 2 ^ 64
    → Reaches n cap (expected * 10)
    → Suffices (capacity_from fuel expected cap) expected
unfolding capacity_from
capacity_from-Suffices zero n expected cap l s r = absurd (omega (arith, l))
capacity_from-Suffices (suc fuel) zero expected cap l s (f, r) =
    let stop : ltb (cap * 7 % 2 ^ 64) (expected * 10 % 2 ^ 64) ≡ false =
      rw (mod-eq_of_lt f, mod-eq_of_lt s) (ground (arith, r)) in
    rw stop (cap, refl, r)
capacity_from-Suffices (suc fuel) (suc n) expected cap l s (f, r) =
    elim (Bool-cases (ltb (cap * 7 % 2 ^ 64) (expected * 10 % 2 ^ 64))) [
      | inl t ↦
          let small : cap * 2 < 2 ^ 64 = omega (arith, f) in
          rw (t, mod-eq_of_lt small)
            (capacity_from-Suffices fuel n expected (cap * 2) (omega (arith, l)) s r)
      | inr t ↦
          let enough : ltb (cap * 7) (expected * 10) ≡ false =
            rw (mod-eq_of_lt f, mod-eq_of_lt s) at t in
          rw t (cap, refl, ground (arith, enough))
    ]

new_map_sized :
    (expected : ℕ) (m : FlatMap)
    → new_map expected ≡ some m
    → (b : ℕ) × (m ≡ map_of_size (16 * 2 ^ b))
unfolding new_map
new_map_sized expected m e = elim (Option-cases (capacity_from 60 expected 16)) [
  | inl z ↦ absurd (ground (arith, rw z at e))
  | inr (c, z) ↦
      let (b, eq) = capacity_from_doubles 60 expected 0 (omega arith) c z in
      (b, ground (arith, rw z at e, eq))
]

map_of_size-IsValid : (b : ℕ) → IsValid (map_of_size (16 * 2 ^ b))
unfolding map_of_size
map_of_size-IsValid b =
    let n = 16 * 2 ^ b in
    record {
      probed = empty-IsProbed n;
      counted = sym (entries-empty n);
      load = omega (arith, entries-empty n);
      capacity = (b, length-replicate n no_slot);
    }

pub new_map-IsValid : (expected : ℕ) (m : FlatMap) → new_map expected ≡ some m → IsValid m
new_map-IsValid expected m e =
    let (b, eq) = new_map_sized expected m e in rw eq (map_of_size-IsValid b)

find-map_of_size : (b k : ℕ) → find k (map_of_size (16 * 2 ^ b)) ≡ none
unfolding find map_of_size
find-map_of_size b k =
    let w = map_of_size-IsValid b in
    find-absent _ w.probed (IsValid-room (map_of_size (16 * 2 ^ b)) w) k
      (λ v. empty-holds_nothing _ k v)

pub find-new_map :
    (expected : ℕ) (m : FlatMap) → new_map expected ≡ some m → (k : ℕ) → find k m ≡ none
find-new_map expected m e k =
    let (b, eq) = new_map_sized expected m e in rw eq (find-map_of_size b k)

-- The constructor's doubling ends, with no product cut, where `expected * 10` is at most 7 * 2 ^ 61;
-- the load of `expected` entries is then 70% at most.
pub new_map-load :
    (expected : ℕ)
    → expected * 10 ≤ 7 * 2 ^ 61
    → (m : FlatMap) × (new_map expected ≡ some m) × (expected * 10 ≤ length m.slots * 7)
unfolding new_map map_of_size
new_map-load expected h =
    let (c, e, s) =
      capacity_from-Suffices 60 57 expected 16 (omega arith) (omega (arith, h))
        (omega (arith, h)) in
    (map_of_size c, rw e refl, rw (length-replicate c no_slot) s)
