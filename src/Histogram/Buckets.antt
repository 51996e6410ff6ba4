-- ===== src/Histogram/Buckets.antt =====
-- The buckets of src/common/histogram.hpp: their range and their width.
use native.Mathlib.Numerals.{unary_clauses}
use native.Mathlib.Nat.{
  pow-suc, pow-le-pow_right, le-div_iff_mul-le, div-lt_iff_lt-mul, div-mul-le_self, lt-div-mul-add,
  mod-eq_of_lt,
}
use nasdaq_matching_engine.Common.{
  ℕ, zero, suc, ◌+◌, ◌-◌, ◌*◌, ◌/◌, ◌%◌, ◌^◌, ◌≤◌, ◌<◌, ◌≡◌, refl, ap, ◌∙◌, true, false, ltb, ◌==◌,
  arith, leb, Bool-cases, inl, inr,
}
use nasdaq_matching_engine.Common.Words.{word64}
use nasdaq_matching_engine.Histogram.{highest_bit, slot, upper_bound}

highest_bit_lem :
    (n v : ℕ)
    → 0 < v
    → v < 2 * 2 ^ n
    → (2 ^ highest_bit n v ≤ v) × (v < 2 * 2 ^ highest_bit n v) × (highest_bit n v ≤ n)
unfolding highest_bit
highest_bit_lem zero v h l = (omega (arith, h), omega (arith, l), omega arith)
highest_bit_lem (suc n) v h l = elim (Bool-cases (ltb v 2)) [
  | inl e ↦ rw e (ground (arith, h), ground (arith, e), omega arith)
  | inr e ↦
      let (a, b, c) =
        highest_bit_lem n (v / 2) (ground (arith, e)) (omega (arith, l, pow-suc 2 n)) in
      let p : 2 ^ (highest_bit n (v / 2) + 1) ≡ 2 ^ highest_bit n (v / 2) * 2 =
        simp unary_clauses (omega arith) in
      rw e (omega (arith, a, p), omega (arith, b, p), omega (arith, c))
]

-- The parts of a value of 16 or more: its octave `k + 4` and the sixteenth of it.
record Parts (v : ℕ) : Type 0 where
  k : ℕ
  q : ℕ
  bit : highest_bit 63 v ≡ k + 4
  quotient : v / 2 ^ k ≡ q
  k_le : k ≤ 59
  q_ge : 16 ≤ q
  q_lt : q < 32
  below : q * 2 ^ k ≤ v
  above : v < q * 2 ^ k + 2 ^ k
  unit_le : 16 * 2 ^ k ≤ v

parts : (v : ℕ) → 16 ≤ v → v < 2 ^ 64 → Parts v
parts v h l =
    let (a, b, c) = highest_bit_lem 63 v (omega (arith, h)) (omega (arith, l)) in
    let m = highest_bit 63 v in
    let k = m - 4 in
    let high : 4 ≤ m = (elim (Bool-cases (ltb m 4)) [
      | inl e ↦
          let few : m ≤ 3 = ground (arith, e) in
          let small : 2 ^ m ≤ 2 ^ 3 = pow-le-pow_right (omega arith) few in
          absurd (omega (arith, small, b, h))
      | inr e ↦ ground (arith, e)
    ]) in
    let bit : m ≡ k + 4 = omega (arith, high) in
    let power : 2 ^ m ≡ 16 * 2 ^ k = ap (λ j. 2 ^ j) bit ∙ four_more k in
    let pos : 0 < 2 ^ k = pow_pos k in
    record {
      k = k;
      q = v / 2 ^ k;
      bit = bit;
      quotient = refl;
      k_le = omega (arith, c);
      q_ge = (le-div_iff_mul-le pos).1 (omega (arith, a, power));
      q_lt = (div-lt_iff_lt-mul pos).1 (omega (arith, b, power));
      below = div-mul-le_self v (2 ^ k);
      above = lt-div-mul-add pos;
      unit_le = omega (arith, a, power);
    }
  where
    four_more : (k : ℕ) → 2 ^ (k + 4) ≡ 16 * 2 ^ k
    four_more k = simp unary_clauses (omega arith)

    pow_pos : (k : ℕ) → 0 < 2 ^ k
    pow_pos zero = omega arith
    pow_pos (suc k) = omega (arith, pow_pos k, pow-suc 2 k)

slot-Parts : (v : ℕ) → 16 ≤ v → (p : Parts v) → slot v ≡ (p.k + 1) * 16 + (p.q - 16)
unfolding slot
slot-Parts v h p =
    let large : ltb v 16 ≡ false = ground (arith, h) in
    let shift : highest_bit 63 v - 4 ≡ p.k = omega (arith, p.bit) in
    let major : highest_bit 63 v - 3 ≡ p.k + 1 = omega (arith, p.bit) in
    rw (large, shift, major, p.quotient) (omega (arith, p.q_ge, p.q_lt))

upper_bound-parts :
    (k q : ℕ) → 16 ≤ q → q < 32 → upper_bound ((k + 1) * 16 + (q - 16)) ≡ (q + 1) * 2 ^ k % word64
unfolding upper_bound
upper_bound-parts k q g l =
    let major : ((k + 1) * 16 + (q - 16)) / 16 ≡ k + 1 = omega (arith, g, l) in
    let minor : ((k + 1) * 16 + (q - 16)) % 16 ≡ q - 16 = omega (arith, g, l) in
    let some_octave : (k + 1 == 0) ≡ false = ground arith in
    let shift : k + 1 - 1 ≡ k = omega arith in
    let top : 16 + (q - 16) + 1 ≡ q + 1 = omega (arith, g) in
    rw (major, minor, some_octave, shift, top) refl

-- Each 64-bit value has a bucket: `slot` stays within the array of 1024.
pub slot-lt : (v : ℕ) → v < 2 ^ 64 → slot v < 1024
slot-lt v h = elim (Bool-cases (leb 16 v)) [
  | inl e ↦
      let g : 16 ≤ v = ground (arith, e) in
      let p = parts v g h in omega (arith, slot-Parts v g p, p.k_le, p.q_lt)
  | inr e ↦
      let small : ltb v 16 ≡ true = ground (arith, e) in unfold slot in rw small (ground (arith, e))
]

-- The bound of a value's bucket is above the value and by a sixteenth of it at most, for values from
-- 16 to below 31 * 2 ^ 59, where the 64-bit product of the bound begins to wrap.
pub upper_bound-slot :
    (v : ℕ)
    → 16 ≤ v
    → v < 31 * 2 ^ 59
    → (v < upper_bound (slot v)) × ((upper_bound (slot v) - v) * 16 ≤ v)
upper_bound-slot v g h =
    let p = parts v g (omega (arith, h)) in
    let unit : 2 ^ p.k ≤ 2 ^ 59 = pow-le-pow_right (omega arith) p.k_le in
    let next : (p.q + 1) * 2 ^ p.k ≡ p.q * 2 ^ p.k + 2 ^ p.k = simp unary_clauses (omega arith) in
    let fits : (p.q + 1) * 2 ^ p.k < word64 = omega (arith, next, p.below, unit, h) in
    let bound : upper_bound (slot v) ≡ (p.q + 1) * 2 ^ p.k =
      ap upper_bound (slot-Parts v g p)
      ∙ upper_bound-parts p.k p.q p.q_ge p.q_lt
      ∙ mod-eq_of_lt fits in
    (omega (arith, bound, next, p.above), omega (arith, bound, next, p.below, p.unit_le))
