-- ===== src/Mold/Gaps.antt =====
-- The GapDetector of src/mold/mold.cpp: what it expects next, and what it means that it reported no
-- gap.
use nasdaq_matching_engine.Common.{
  ℕ, ◌+◌, ◌^◌, ◌≤◌, ◌<◌, ◌≡◌, refl, true, false, ◌||◌, List, [], ◌∷◌, arith, ltb, All, ◌⊎◌, inl,
  inr, Bool-cases,
}
use Prim.Native.Nat.{max}
use nasdaq_matching_engine.Common.Words.{add64}
use nasdaq_matching_engine.Mold.{GapDetector, new_detector, on_packet}

-- One packet: a gap is a sequence number above the expected one; the next expected number is the
-- larger of the old one and the one behind the packet, for data packets and heartbeats alike; a gap
-- is remembered. The number behind the packet is below 2 ^ 64.
pub on_packet_lem :
    (seq n : ℕ) (d : GapDetector)
    → seq + n < 2 ^ 64
    → let (gap, d') = on_packet seq n d in
      (gap ≡ ltb d.expected seq)
      × (d'.expected ≡ max d.expected (seq + n))
      × (d'.had_gap ≡ (gap || d.had_gap))
unfolding on_packet add64
on_packet_lem seq n d h = (refl, ground arith, ground arith)

-- A received packet: its sequence number and its message count.
abbrev pub Packet : Type 0
Packet = ℕ × ℕ

unfoldable pub feed : List Packet → GapDetector → GapDetector
feed [] d = d
feed ((seq, n) ∷ ps) d = feed ps (on_packet seq n d).1

-- Some packet carries the message with this number.
abbrev pub Carries : List Packet → ℕ → Type 0
Carries [] k = ⊥
Carries ((seq, n) ∷ ps) k = ((seq ≤ k) × (k < seq + n)) ⊎ Carries ps k

abbrev pub IsPacket : Packet → Type 0
IsPacket (seq, n) = seq + n < 2 ^ 64

had_gap_stays : (ps : List Packet) (d : GapDetector) → d.had_gap ≡ true → (feed ps d).had_gap ≡ true
unfolding feed on_packet
had_gap_stays [] d h = h
had_gap_stays ((seq, n) ∷ ps) d h = had_gap_stays ps (on_packet seq n d).1 (ground arith)

no_gap_before :
    (ps : List Packet) (d : GapDetector) → (feed ps d).had_gap ≡ false → d.had_gap ≡ false
no_gap_before ps d h = elim (Bool-cases d.had_gap) [ inl e ↦ cc (had_gap_stays ps d e) | inr e ↦ e ]

feed_covers :
    (ps : List Packet) (d : GapDetector) (k : ℕ)
    → All IsPacket ps
    → (feed ps d).had_gap ≡ false
    → d.expected ≤ k
    → k < (feed ps d).expected
    → Carries ps k
unfolding feed
feed_covers [] d k h g lo hi = absurd (omega arith)
feed_covers ((seq, n) ∷ ps) d k (h, hs) g lo hi =
    let d' : GapDetector = (on_packet seq n d).1 in
    let (gap, next, had) = on_packet_lem seq n d h in
    elim (Bool-cases (ltb k d'.expected)) [
      | inl e ↦ inl (ground (arith, no_gap_before ps d' g), ground arith)
      | inr e ↦ inr (feed_covers ps d' k hs g (ground arith) hi)
    ]

-- When no gap was reported, every message below the expected number was in some packet that came,
-- whatever was repeated or came late. The packets end below number 2 ^ 64.
pub no_gap_means_complete :
    (ps : List Packet) (k : ℕ)
    → All IsPacket ps
    → (feed ps new_detector).had_gap ≡ false
    → 1 ≤ k
    → k < (feed ps new_detector).expected
    → Carries ps k
no_gap_means_complete ps k h g lo hi = feed_covers ps new_detector k h g lo hi
