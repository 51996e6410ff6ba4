-- ===== src/Histogram/Counting.antt =====
-- `record` of src/common/histogram.hpp: the count, the buckets and the extremes.
use native.Mathlib.Nat.{mod-eq_of_lt}
use nasdaq_matching_engine.Common.{
  ℕ, zero, suc, ◌+◌, ◌%◌, ◌^◌, ◌≤◌, ◌<◌, ◌≡◌, refl, ◌∙◌, List, [], ◌∷◌, ltb, ◌==◌, ◌||◌,
  if◌then◌else◌, length, get_or, set, replicate, arith, All, length-set, get_or-set,
  get_or-replicate, ◌⊎◌, inl, inr, Bool-cases, ==→eq, Bool, true, false, length-replicate,
}
use nasdaq_matching_engine.Common.Words.{add64, word64}
use nasdaq_matching_engine.Histogram.{LatencyHistogram, new_histogram, slot, record_value}
use nasdaq_matching_engine.Histogram.Buckets.{slot-lt}

-- The histogram after calls of `record`, the last one first.
unfoldable pub record_all : List ℕ → LatencyHistogram
record_all [] = new_histogram
record_all (v ∷ vs) = record_value v (record_all vs)

unfoldable pub total : List ℕ → ℕ
total [] = 0
total (b ∷ bs) = b + total bs

total-set :
    (bs : List ℕ) (i b : ℕ) → i < length bs → total (set bs i b) + get_or bs i 0 ≡ total bs + b
unfolding total
total-set [] i b h = absurd (omega (arith, h))
total-set (c ∷ cs) zero b h = omega arith
total-set (c ∷ cs) (suc i) b h = omega (arith, total-set cs i b (omega (arith, h)))

get_or-total : (bs : List ℕ) (i : ℕ) → get_or bs i 0 ≤ total bs
unfolding total
get_or-total [] i = omega arith
get_or-total (c ∷ cs) zero = omega arith
get_or-total (c ∷ cs) (suc i) = omega (arith, get_or-total cs i)

total-replicate : (n : ℕ) → total (replicate n 0) ≡ 0
unfolding total
total-replicate zero = refl
total-replicate (suc n) = omega (arith, total-replicate n)

-- The values of a bucket.
unfoldable pub tally : ℕ → List ℕ → ℕ
tally i [] = 0
tally i (v ∷ vs) = if slot v == i then suc (tally i vs) else tally i vs

-- A bound that is one of the values.
abbrev pub Among : ℕ → List ℕ → Type 0
Among m [] = ⊥
Among m (v ∷ vs) = (m ≡ v) ⊎ Among m vs

abbrev pub AreExtremes : List ℕ → LatencyHistogram → Type 0
AreExtremes [] h = h.max ≡ 0
AreExtremes (v ∷ vs) h = Among h.min (v ∷ vs) × Among h.max (v ∷ vs)

-- What the histogram says of the values that it has seen.
pub record Counts (vs : List ℕ) (h : LatencyHistogram) : Type 0 where
  pub width : length h.buckets ≡ 1024
  pub counted : h.count ≡ length vs
  pub summed : total h.buckets ≡ h.count
  pub tallied : (i : ℕ) → i < 1024 → get_or h.buckets i 0 ≡ tally i vs
  pub attained : AreExtremes vs h
  pub extremes : All (λ v. (h.min ≤ v) × (v ≤ h.max)) vs

wider :
    (lo hi lo' hi' : ℕ)
    → lo' ≤ lo
    → hi ≤ hi'
    → (vs : List ℕ) → All (λ v. (lo ≤ v) × (v ≤ hi)) vs
    → All (λ v. (lo' ≤ v) × (v ≤ hi')) vs
wider lo hi lo' hi' a b [] h = tt
wider lo hi lo' hi' a b (v ∷ vs) ((c, d), h) =
    ((omega (arith, a, c), omega (arith, b, d)), wider lo hi lo' hi' a b vs h)

tally-set :
    (v : ℕ) (vs : List ℕ) (h : LatencyHistogram)
    → slot v < 1024
    → length h.buckets ≡ 1024
    → (i : ℕ) → i < 1024
    → get_or h.buckets i 0 ≡ tally i vs
    → get_or (set h.buckets (slot v) (get_or h.buckets (slot v) 0 + 1)) i 0 ≡ tally i (v ∷ vs)
unfolding tally
tally-set v vs h fits width i l e =
    let g = get_or-set h.buckets (slot v) i (get_or h.buckets (slot v) 0 + 1) 0 in
    elim (Bool-cases (slot v == i)) [
      | inl q ↦ ground (arith, ==→eq (slot v) i q, g, e, width, fits)
      | inr q ↦ ground (arith, q, g, e)
    ]

chosen : (b : Bool) (v m : ℕ) (vs : List ℕ) → Among m vs → Among (if b then v else m) (v ∷ vs)
chosen true v m vs a = inl refl
chosen false v m vs a = inr a

attained_next :
    (v : ℕ) (vs : List ℕ) (h : LatencyHistogram)
    → h.count ≡ length vs
    → AreExtremes vs h
    → Among (if ltb v h.min || (h.count + 1 == 1) then v else h.min) (v ∷ vs)
      × Among (if ltb h.max v then v else h.max) (v ∷ vs)
attained_next v [] h e a =
    let first : (h.count + 1 == 1) ≡ true = ground (arith, e) in
    (
      elim (Bool-cases (ltb v h.min)) [
        | inl q ↦ rw q (inl refl)
        | inr q ↦ rw (q, first) (inl refl)
      ],
      elim (Bool-cases (ltb h.max v)) [
        | inl q ↦ rw q (inl refl)
        | inr q ↦ rw q (inl (ground (arith, q, a)))
      ],
    )
attained_next v (x ∷ xs) h e (lo, hi) = (
  chosen (ltb v h.min || (h.count + 1 == 1)) v h.min (x ∷ xs) lo,
  chosen (ltb h.max v) v h.max (x ∷ xs) hi,
)

record_value-Counts :
    (v : ℕ) (vs : List ℕ) (h : LatencyHistogram)
    → v < 2 ^ 64
    → length vs + 1 < word64
    → Counts vs h
    → Counts (v ∷ vs) (record_value v h)
unfolding record_value add64
record_value-Counts v vs h small few c =
    let fits : slot v < length h.buckets = omega (arith, slot-lt v small, c.width) in
    let one : (h.count + 1) % word64 ≡ h.count + 1 = mod-eq_of_lt (omega (arith, c.counted, few)) in
    let b = get_or h.buckets (slot v) 0 in
    let more : (b + 1) % word64 ≡ b + 1 =
      mod-eq_of_lt (omega (arith, get_or-total h.buckets (slot v), c.summed, c.counted, few)) in
    let lo = if ltb v h.min || (h.count + 1 == 1) then v else h.min in
    let hi = if ltb h.max v then v else h.max in
    rw (one, more)
      (record {
        width = length-set h.buckets (slot v) (b + 1) ∙ c.width;
        counted = omega (arith, c.counted);
        summed = omega (arith, total-set h.buckets (slot v) (b + 1) fits, c.summed);
        tallied = λ i l. tally-set v vs h (slot-lt v small) c.width i l (c.tallied i l);
        attained = attained_next v vs h c.counted c.attained;
        extremes = ((ground arith, ground arith), older vs h v c.counted c.extremes);
      })
  where
    older :
        (vs : List ℕ) (h : LatencyHistogram) (v : ℕ)
        → h.count ≡ length vs
        → All (λ x. (h.min ≤ x) × (x ≤ h.max)) vs
        → All
            (λ x.
              ((if ltb v h.min || (h.count + 1 == 1) then v else h.min) ≤ x)
              × (x ≤ (if ltb h.max v then v else h.max)))
            vs
    older [] h v e a = tt
    older (x ∷ xs) h v e a = wider h.min h.max _ _ (ground (arith, e)) (ground arith) (x ∷ xs) a

-- After any calls of `record` with 64-bit values, fewer than 2 ^ 64 - 1 of them, the count is their
-- number, each bucket counts the values whose slot it is, the buckets sum up to the count, and the
-- minimum and the maximum are two of the values, between which each value lies; with no value the
-- maximum is 0.
pub record_all-Counts :
    (vs : List ℕ) → All (λ v. v < 2 ^ 64) vs → length vs + 1 < word64 → Counts vs (record_all vs)
unfolding record_all tally
record_all-Counts [] a few = record {
  width = length-replicate {A = ℕ} 1024 0;
  counted = refl;
  summed = total-replicate 1024;
  tallied = λ i l. get_or-replicate 1024 i 0;
  attained = refl;
  extremes = tt;
}
record_all-Counts (v ∷ vs) (s, a) few =
    record_value-Counts v vs (record_all vs) s (omega (arith, few))
      (record_all-Counts vs a (omega (arith, few)))
