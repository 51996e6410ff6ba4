-- ===== src/FastBook/Cursors.antt =====
-- The cursor scans of src/book/fast_book.cpp find the best tick of a side.
use nasdaq_matching_engine.Common.{
  ℕ, zero, suc, ◌+◌, ◌-◌, ◌≤◌, ◌<◌, ◌≡◌, refl, ap, Bool, true, false, List, Option, none, some,
  ◌==◌, ltb, if◌then◌else◌, length, get_or, arith, Bool-cases, inl, inr,
}
use nasdaq_matching_engine.Types.{Side, buy, sell}
use nasdaq_matching_engine.FastBook.{FOrder, Level, no_level, FastBook}
use nasdaq_matching_engine.FastBook.Sides.{
  holds_side, scan_down, scan_up, clamp_cursor, ladder_best_bid, ladder_best_ask,
}

-- Does the tick `t` hold orders of a side?
abbrev pub holds : Side → List FOrder → List Level → ℕ → Bool
holds side pool ladder t = holds_side side pool (get_or ladder t no_level)

-- No bid stands above the cursor.
abbrev pub BidsBelow : Option ℕ → FastBook → Type 0
BidsBelow none b = (t : ℕ) → t < length b.ladder → holds buy b.pool b.ladder t ≡ false
BidsBelow (some c) b = (t : ℕ) → c < t → t < length b.ladder → holds buy b.pool b.ladder t ≡ false

-- No ask stands below the cursor.
abbrev pub AsksAbove : ℕ → FastBook → Type 0
AsksAbove c b = (t : ℕ) → t < c → t < length b.ladder → holds sell b.pool b.ladder t ≡ false

-- The tick is that of the best bid, or there is none.
abbrev pub IsBestBid : Option ℕ → FastBook → Type 0
IsBestBid none b = BidsBelow none b
IsBestBid (some t) b =
    (t < length b.ladder) × ((holds buy b.pool b.ladder t ≡ true) × BidsBelow (some t) b)

abbrev pub IsBestAsk : Option ℕ → FastBook → Type 0
IsBestAsk none b = AsksAbove (length b.ladder) b
IsBestAsk (some t) b =
    (t < length b.ladder) × ((holds sell b.pool b.ladder t ≡ true) × AsksAbove t b)

-- Where the scan for an ask ends: at the tick that it found, or at the end of the ladder.
abbrev pub tick_or_end : Option ℕ → FastBook → ℕ
tick_or_end none b = length b.ladder
tick_or_end (some t) b = t

module _ (b : FastBook) where
  scan_down-best :
      (c : ℕ)
      → c < length b.ladder
      → BidsBelow (some c) b
      → IsBestBid (scan_down c b.pool b.ladder) b
  unfolding scan_down
  scan_down-best zero l h = elim (Bool-cases (holds buy b.pool b.ladder 0)) [
    | inl e ↦ rw e (l, (e, h))
    | inr e ↦ rw e (λ t lt. elim (Bool-cases (t == 0)) [
      | inl z ↦ ground (arith, z, e)
      | inr z ↦ h t (ground (arith, z)) lt
    ])
  ]
  scan_down-best (suc c) l h = elim (Bool-cases (holds buy b.pool b.ladder (suc c))) [
    | inl e ↦ rw e (l, (e, h))
    | inr e ↦ rw e (
        scan_down-best c (omega (arith, l)) (λ t lt n. elim (Bool-cases (t == suc c)) [
          | inl z ↦ ground (arith, z, e)
          | inr z ↦ h t (ground (arith, z, lt)) n
        ]))
  ]

  scan_up-best :
      (n c : ℕ)
      → c + n ≡ length b.ladder
      → AsksAbove c b
      → IsBestAsk
          (if ltb (scan_up n c b.pool b.ladder) (length b.ladder)
            then some (scan_up n c b.pool b.ladder)
            else none)
          b
        × (scan_up n c b.pool b.ladder
            ≡ tick_or_end
                (if ltb (scan_up n c b.pool b.ladder) (length b.ladder)
                  then some (scan_up n c b.pool b.ladder)
                  else none)
                b)
  unfolding scan_up
  scan_up-best zero c l h =
      let at_end : c ≡ length b.ladder = omega (arith, l) in
      let test : ltb c (length b.ladder) ≡ false = ground (arith, at_end) in
      rw test ((λ t lt n. h t (omega (arith, at_end, lt)) n), at_end)
  scan_up-best (suc n) c l h = elim (Bool-cases (holds sell b.pool b.ladder c)) [
    | inl e ↦
        let test : ltb c (length b.ladder) ≡ true = ground (arith, l) in
        rw (e, test) ((omega (arith, l), (e, h)), refl)
    | inr e ↦ rw e (
        scan_up-best n (c + 1) (omega (arith, l)) (λ t lt m. elim (Bool-cases (t == c)) [
          | inl z ↦ ground (arith, z, e)
          | inr z ↦ h t (ground (arith, z, lt)) m
        ]))
  ]

  -- From the cursor, which is cut to the size of the ladder first.
  clamped-best :
      (o : Option ℕ) (n : ℕ)
      → n ≡ length b.ladder
      → BidsBelow o b
      → IsBestBid (elim (clamp_cursor o n) [ none ↦ none | some c ↦ scan_down c b.pool b.ladder ]) b
  unfolding clamp_cursor
  clamped-best none n e h = h
  clamped-best (some c) zero e h = λ t l. absurd (omega (arith, e, l))
  clamped-best (some c) (suc n) e h = elim (Bool-cases (ltb n c)) [
    | inl q ↦ rw q (scan_down-best n (omega (arith, e)) (λ t l m. absurd (omega (arith, e, l, m))))
    | inr q ↦ rw q (scan_down-best c (ground (arith, e, q)) h)
  ]

-- `ladder_best_bid` returns the highest tick that holds bids, or none where no tick does, and changes
-- the book only by moving the cursor there, if no bid stood above the cursor.
pub ladder_best_bid-IsBestBid :
    (b : FastBook)
    → BidsBelow b.bid_cursor b
    → IsBestBid (ladder_best_bid b).0 b
      × ((ladder_best_bid b).1 ≡ record b { bid_cursor = (ladder_best_bid b).0 })
unfolding ladder_best_bid
ladder_best_bid-IsBestBid b h = (clamped-best b b.bid_cursor (length b.ladder) refl h, refl)

-- `ladder_best_ask` returns the lowest tick that holds asks, or none where no tick does, and changes
-- the book only by moving the cursor there, or to the ladder's end, if no ask stood below the cursor
-- and the cursor is not past the end.
pub ladder_best_ask-IsBestAsk :
    (b : FastBook)
    → b.ask_cursor ≤ length b.ladder
    → AsksAbove b.ask_cursor b
    → IsBestAsk (ladder_best_ask b).0 b
      × ((ladder_best_ask b).1 ≡ record b { ask_cursor = tick_or_end (ladder_best_ask b).0 b })
unfolding ladder_best_ask
ladder_best_ask-IsBestAsk b l h =
    let (best, at) =
      scan_up-best b (length b.ladder - b.ask_cursor) b.ask_cursor (omega (arith, l)) h in
    (best, ap (λ c. record b { ask_cursor = c }) at)
