-- ===== src/FlatMap/Erasing/Stopping.antt =====
-- The end of the backward shift of src/book/flat_map.hpp: the last hole becomes unused.
use nasdaq_matching_engine.Common.{
  ℕ, ◌+◌, ◌<◌, ◌≡◌, ◌≢◌, sym, ap, ◌∙◌, List, true, false, ◌==◌, length, arith, inl, inr, Bool-cases,
  ==→eq, leb, ==_self, length-set,
}
use nasdaq_matching_engine.FlatMap.{Slot, slot_at, ideal}
use nasdaq_matching_engine.FlatMap.Cyclic.{
  dist, dist-inj, ideal-lt, dist-zero, dist-through, dist-between,
}
use nasdaq_matching_engine.FlatMap.Probing.{used_at, key_at, IsProbed_lem, slot_at-set, entries-set}
use nasdaq_matching_engine.FlatMap.Erasing.{HasHole, vacate, Vacates}

module _ (n : ℕ) (slots : List Slot) (hole j : ℕ) (w : HasHole n slots hole j) where
  -- At a free slot behind `j` nothing is cut off: the hole lies on no path.
  module _ (k : ℕ) (hk : k < n) (uk : used_at slots k ≡ false)
      (next : dist n hole k ≡ dist n hole j + 1) where
    not_on_path :
        (q : ℕ)
        → q < n
        → q ≢ hole
        → used_at slots q ≡ true
        → ¬ (dist n (ideal n (key_at slots q)) hole < dist n (ideal n (key_at slots q)) q)
    not_on_path q hq ne uq l =
        let start = ideal n (key_at slots q) in
        let hs : start < n = ideal-lt n (key_at slots q) (omega (arith, hk)) in
        let through = dist-through n start hole q hs w.hole_lt hq l in
        let apart : 0 < dist n hole q = (elim (Bool-cases (dist n hole q == 0)) [
          | inl z ↦ absurd (ne (sym (dist-zero n hole q w.hole_lt hq (==→eq _ 0 z))))
          | inr z ↦ ground (arith, z)
        ]) in
        elim (Bool-cases (leb (dist n hole q) (dist n hole j))) [
          | inl b ↦
              let (_, near) = w.stays q hq apart (ground (arith, b)) in omega (arith, near, through)
          | inr b ↦ elim (Bool-cases (dist n hole q == dist n hole k)) [
            | inl s ↦ cc (uk, uq, dist-inj n hole q k w.hole_lt hq hk (==→eq _ _ s))
            | inr s ↦
                let past : dist n hole k < dist n hole q = ground (arith, b, s, next) in
                let on = dist-between n start hole q k hs w.hole_lt hq hk l past in
                cc (uk, w.paths q k hq hk ne uq on)
          ]
        ]

    abbrev vacated : List Slot
    vacated = vacate (slots, hole)

    hole_lt_length : hole < length slots
    hole_lt_length = rw w.width w.hole_lt

    vacated-width : length vacated ≡ n
    vacated-width = length-set slots hole _ ∙ w.width

    at_hole : used_at vacated hole ≡ false
    at_hole = ground (
      arith,
      slot_at-set slots hole hole (record (slot_at slots hole) { used = false }) hole_lt_length,
      ==_self hole,
    )

    at_rest : (q : ℕ) → q ≢ hole → slot_at vacated q ≡ slot_at slots q
    at_rest q ne = ground (
      arith,
      slot_at-set slots hole q (record (slot_at slots hole) { used = false }) hole_lt_length,
    )

    used_rest : (q : ℕ) → used_at vacated q ≡ true → q ≢ hole
    used_rest q u e = cc (u, e, at_hole)

    vacated-paths :
        (q x : ℕ)
        → q < n
        → x < n
        → used_at vacated q ≡ true
        → dist n (ideal n (key_at vacated q)) x < dist n (ideal n (key_at vacated q)) q
        → used_at vacated x ≡ true
    vacated-paths q x hq hx u l =
        let ne = used_rest q u in
        let same = at_rest q ne in
        let u' : used_at slots q ≡ true = ap (λ s. s.used) (sym same) ∙ u in
        let l' : dist n (ideal n (key_at slots q)) x < dist n (ideal n (key_at slots q)) q =
          rw (ap (λ s. s.key) same) at l in
        let off : x ≢ hole = (λ e. not_on_path q hq ne u' (rw e at l')) in
        ap (λ s. s.used) (at_rest x off) ∙ w.paths q x hq hx ne u' l'

    vacated_unique :
        (p q : ℕ)
        → p < n
        → q < n
        → used_at vacated p ≡ true
        → used_at vacated q ≡ true
        → key_at vacated p ≡ key_at vacated q
        → p ≡ q
    vacated_unique p q hp hq up uq k =
        let np = used_rest p up in
        let nq = used_rest q uq in
        w.unique p q hp hq np nq (ap (λ s. s.used) (sym (at_rest p np)) ∙ up)
          (ap (λ s. s.used) (sym (at_rest q nq)) ∙ uq)
          (ap (λ s. s.key) (sym (at_rest p np)) ∙ k ∙ ap (λ s. s.key) (at_rest q nq))

    pub vacate-Vacates : Vacates slots hole (vacate (slots, hole))
    vacate-Vacates = record {
      width = length-set slots hole _;
      probed = IsProbed_lem vacated n vacated-width vacated-paths vacated_unique;
      kept = λ key v (q, (hq, (ne, (uq, (kq, vq))))).
          let s = at_rest q ne in
          (
            q,
            (
              rw (length-set slots hole (record (slot_at slots hole) { used = false })) hq,
              (ap (λ s. s.used) s ∙ uq, (ap (λ s. s.key) s ∙ kq, ap (λ s. s.val) s ∙ vq)),
            ),
          );
      others = λ key v (q, (hq, (uq, (kq, vq)))).
          let ne = used_rest q uq in
          let s = sym (at_rest q ne) in
          (
            q,
            (
              rw (length-set slots hole (record (slot_at slots hole) { used = false })) at hq,
              (ne, (ap (λ s. s.used) s ∙ uq, (ap (λ s. s.key) s ∙ kq, ap (λ s. s.val) s ∙ vq))),
            ),
          );
      one_less = ground (
        arith,
        entries-set slots hole (record (slot_at slots hole) { used = false }) hole_lt_length,
        w.hole_used,
      );
    }
