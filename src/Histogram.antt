-- ===== src/Histogram.antt =====
-- src/common/histogram.hpp: the buckets of the latency histogram. `<<` and `>>` are a product and a
-- quotient by a power of two, cut to 64 bits; `std::countl_zero` gives the highest bit that is set. The
-- rank that `percentile` looks for is an argument, since the code computes it in a double.
pub mod Buckets
pub mod Counting
use nasdaq_matching_engine.Common.{
  ℕ, zero, suc, ◌+◌, ◌-◌, ◌*◌, ◌/◌, ◌%◌, ◌^◌, Bool, List, [], ◌∷◌, ltb, leb, ◌==◌, ◌&&◌, ◌||◌,
  if◌then◌else◌, length, get_or, set, replicate,
}
use nasdaq_matching_engine.Common.Words.{add64, word64}

pub record LatencyHistogram : Type 0 where
  pub buckets : List ℕ
  pub count : ℕ
  pub max : ℕ
  pub min : ℕ

abbrev pub new_histogram : LatencyHistogram
new_histogram = record { buckets = replicate 1024 0; count = 0; max = 0; min = 0 }

-- `63 - std::countl_zero(v)` for a `v` above 0, in at most `n` halvings.
unfoldable pub highest_bit : ℕ → ℕ → ℕ
highest_bit zero v = 0
highest_bit (suc n) v = let rest = highest_bit n (v / 2) in if ltb v 2 then 0 else rest + 1

unfoldable pub slot : ℕ → ℕ
slot v =
    let msb = highest_bit 63 v in if ltb v 16 then v else (msb - 3) * 16 + v / 2 ^ (msb - 4) % 16

unfoldable pub upper_bound : ℕ → ℕ
upper_bound s =
    let major = s / 16 in
    let minor = s % 16 in if major == 0 then minor else (16 + minor + 1) * 2 ^ (major - 1) % word64

unfoldable pub record_value : ℕ → LatencyHistogram → LatencyHistogram
record_value ns h =
    let n = add64 h.count 1 in
    record {
      buckets = set h.buckets (slot ns) (add64 (get_or h.buckets (slot ns) 0) 1);
      count = n;
      max = if ltb h.max ns then ns else h.max;
      min = if ltb ns h.min || n == 1 then ns else h.min;
    }

-- The loop of `percentile` from bucket `i` on.
unfoldable pub percentile_from : List ℕ → ℕ → ℕ → ℕ → ℕ → ℕ
percentile_from [] i seen target max = max
percentile_from (c ∷ cs) i seen target max =
    let seen' = add64 seen c in
    let rest = percentile_from cs (i + 1) seen' target max in
    if leb target seen' && ltb 0 c then upper_bound i else rest

unfoldable pub percentile : ℕ → LatencyHistogram → ℕ
percentile target h = if h.count == 0 then 0 else percentile_from h.buckets 0 0 target h.max
