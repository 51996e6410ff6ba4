-- ===== src/FlatMap/Erasing/Moving.antt =====
-- One move of the backward shift of src/book/flat_map.hpp.
use nasdaq_matching_engine.Common.{
  ℕ, ◌≤◌, ◌<◌, ◌≡◌, ◌≢◌, refl, sym, ap, ◌∙◌, List, true, false, ◌==◌, if◌then◌else◌, length, set,
  arith, inl, inr, Bool-cases, ==→eq, ne_of_==, ==_self, length-set,
}
use nasdaq_matching_engine.FlatMap.{Slot, slot_at, ideal}
use nasdaq_matching_engine.FlatMap.Cyclic.{dist, dist_self, ideal-lt, dist-passes}
use nasdaq_matching_engine.FlatMap.Probing.{
  used_at, key_at, HoldsBut, slot_at-set, entries, entries-set,
}
use nasdaq_matching_engine.FlatMap.Erasing.{HasHole, Vacates}

module _ (n : ℕ) (slots : List Slot) (hole j : ℕ) (w : HasHole n slots hole j) where
  -- A movable entry behind `j` fills the hole, and its slot is the next hole.
  module _ (k : ℕ) (hk : k < n) (uk : used_at slots k ≡ true) (apart : 0 < dist n hole k)
      (far : dist n hole k ≤ dist n (ideal n (key_at slots k)) k) where
    abbrev moved : List Slot
    moved = set slots hole (slot_at slots k)

    hole_fits : hole < length slots
    hole_fits = rw w.width w.hole_lt

    moved_at : (q : ℕ) → slot_at moved q ≡ (if hole == q then slot_at slots k else slot_at slots q)
    moved_at q = slot_at-set slots hole q (slot_at slots k) hole_fits

    filled : (q : ℕ) → (hole == q) ≡ true → slot_at moved q ≡ slot_at slots k
    filled q e = moved_at q ∙ rw e refl

    rest_at : (q : ℕ) → (hole == q) ≡ false → slot_at moved q ≡ slot_at slots q
    rest_at q e = moved_at q ∙ rw e refl

    pub moved_used : (q : ℕ) → used_at moved q ≡ used_at slots q
    moved_used q = elim (Bool-cases (hole == q)) [
      | inl e ↦
          ap (λ s. s.used) (filled q e) ∙ uk ∙ sym w.hole_used ∙ ap (used_at slots) (==→eq hole q e)
      | inr e ↦ ap (λ s. s.used) (rest_at q e)
    ]

    k_apart : k ≢ hole
    k_apart e = omega (arith, apart, dist_self n hole, rw e at apart)

    moved-paths :
        (q x : ℕ)
        → q < n
        → x < n
        → q ≢ k
        → used_at moved q ≡ true
        → dist n (ideal n (key_at moved q)) x < dist n (ideal n (key_at moved q)) q
        → used_at moved x ≡ true
    moved-paths q x hq hx ne u l = elim (Bool-cases (hole == q)) [
      | inl e ↦
          let start = ideal n (key_at slots k) in
          let hs : start < n = ideal-lt n (key_at slots k) (omega (arith, hk)) in
          let l' : dist n start x < dist n start hole =
            rw (ap (λ s. s.key) (filled q e), sym (==→eq hole q e)) at l in
          let on = dist-passes n start hole k hs w.hole_lt hk far apart in
          moved_used x ∙ w.paths k x hk hx k_apart uk (omega (arith, l', on))
      | inr e ↦
          let l' : dist n (ideal n (key_at slots q)) x < dist n (ideal n (key_at slots q)) q =
            rw (ap (λ s. s.key) (rest_at q e)) at l in
          moved_used x
          ∙ w.paths q x hq hx (λ s. ne_of_== hole q e (sym s)) (sym (moved_used q) ∙ u) l'
    ]

    moved_unique :
        (p q : ℕ)
        → p < n
        → q < n
        → p ≢ k
        → q ≢ k
        → used_at moved p ≡ true
        → used_at moved q ≡ true
        → key_at moved p ≡ key_at moved q
        → p ≡ q
    moved_unique p q hp hq np nq up uq e = ground (
      arith,
      moved_at p,
      moved_at q,
      w.unique p q hp hq,
      w.unique p k hp hk,
      w.unique q k hq hk,
      w.unique k p hk hp,
      w.unique k q hk hq,
      k_apart,
      uk,
    )

    pub move-HasHole : HasHole n moved k k
    move-HasHole = record {
      width = length-set slots hole (slot_at slots k) ∙ w.width;
      hole_lt = hk;
      j_lt = hk;
      hole_used = moved_used k ∙ uk;
      j_used = moved_used k ∙ uk;
      paths = moved-paths;
      unique = moved_unique;
      stays = λ x hx l b. absurd (omega (arith, l, b, dist_self n k));
    }

    pub move-entries : entries moved ≡ entries slots
    move-entries =
        ground (arith, entries-set slots hole (slot_at slots k) hole_fits, w.hole_used, uk)

    -- The entry that moves is held as before.
    pub move-keeps : (key v : ℕ) → HoldsBut hole slots key v → HoldsBut k moved key v
    move-keeps key v (q, (hq, (ne, (uq, (kq, vq))))) =
        let len = length-set slots hole (slot_at slots k) in
        elim (Bool-cases (q == k)) [
          | inl e ↦
              let s = filled hole (==_self hole) in
              let same = sym (==→eq q k e) in
              (
                hole,
                (
                  rw len hole_fits,
                  (
                    (λ h. k_apart (sym h)),
                    (
                      ap (λ s. s.used) s ∙ uk,
                      (
                        ap (λ s. s.key) s ∙ ap (key_at slots) same ∙ kq,
                        ap (λ s. s.val) s ∙ ap (λ i. (slot_at slots i).val) same ∙ vq,
                      ),
                    ),
                  ),
                ),
              )
          | inr e ↦
              let s = rest_at q (ground (arith, ne)) in
              (
                q,
                (
                  rw len hq,
                  (
                    ne_of_== q k e,
                    (ap (λ s. s.used) s ∙ uq, (ap (λ s. s.key) s ∙ kq, ap (λ s. s.val) s ∙ vq)),
                  ),
                ),
              )
        ]

    pub move-adds : (key v : ℕ) → HoldsBut k moved key v → HoldsBut hole slots key v
    move-adds key v (q, (hq, (ne, (uq, (kq, vq))))) =
        let len = length-set slots hole (slot_at slots k) in
        elim (Bool-cases (hole == q)) [
          | inl e ↦
              let s = sym (filled q e) in
              (
                k,
                (rw w.width hk, (k_apart, (uk, (ap (λ s. s.key) s ∙ kq, ap (λ s. s.val) s ∙ vq)))),
              )
          | inr e ↦
              let s = sym (rest_at q e) in
              (
                q,
                (
                  rw len at hq,
                  (
                    (λ h. ne_of_== hole q e (sym h)),
                    (ap (λ s. s.used) s ∙ uq, (ap (λ s. s.key) s ∙ kq, ap (λ s. s.val) s ∙ vq)),
                  ),
                ),
              )
        ]

pub move-Vacates :
    (n : ℕ) (slots : List Slot) (hole j : ℕ) (w : HasHole n slots hole j)
    → (k : ℕ) → k < n
    → used_at slots k ≡ true
    → 0 < dist n hole k
    → dist n hole k ≤ dist n (ideal n (key_at slots k)) k
    → (new : List Slot) → Vacates (set slots hole (slot_at slots k)) k new
    → Vacates slots hole new
move-Vacates n slots hole j w k hk uk apart far new v = record {
  width = v.width ∙ length-set slots hole (slot_at slots k);
  probed = v.probed;
  kept = λ key val h. v.kept key val (move-keeps n slots hole j w k hk uk apart far key val h);
  others = λ key val h. move-adds n slots hole j w k hk uk apart far key val (v.others key val h);
  one_less = v.one_less ∙ move-entries n slots hole j w k hk uk apart far;
}
