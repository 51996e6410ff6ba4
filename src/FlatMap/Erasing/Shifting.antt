-- ===== src/FlatMap/Erasing/Shifting.antt =====
-- The loop of the backward shift of src/book/flat_map.hpp.
use nasdaq_matching_engine.Common.{
  ℕ, zero, suc, ◌+◌, ◌≤◌, ◌<◌, ◌≡◌, refl, ◌∙◌, List, true, false, ◌==◌, length, set, arith, inl,
  inr, Bool-cases, ==→eq,
}
use nasdaq_matching_engine.FlatMap.{Slot, slot_at, next_slot, ideal, shift_back, movable}
use nasdaq_matching_engine.FlatMap.Cyclic.{
  dist, dist-lt, dist-inj, dist_self, next_slot-lt, ideal-lt, dist-zero, movable_lem,
}
use nasdaq_matching_engine.FlatMap.Probing.{used_at, key_at, IsProbed, HasRoom}
use nasdaq_matching_engine.FlatMap.Erasing.Stopping.{vacate-Vacates}
use nasdaq_matching_engine.FlatMap.Erasing.Moving.{moved_used, move-HasHole, move-Vacates}
use nasdaq_matching_engine.FlatMap.Erasing.{HasHole, vacate, Vacates, hole-next, free-nearer}

module _ (n : ℕ) (slots : List Slot) (hole j : ℕ) (w : HasHole n slots hole j) where
  -- An entry behind `j` that is not movable stays.
  stay-HasHole :
      (k : ℕ)
      → k < n
      → used_at slots k ≡ true
      → dist n hole k ≡ dist n hole j + 1
      → dist n (ideal n (key_at slots k)) k < dist n hole k
      → HasHole n slots hole k
  stay-HasHole k hk uk next near = record {
    width = w.width;
    hole_lt = w.hole_lt;
    j_lt = hk;
    hole_used = w.hole_used;
    j_used = uk;
    paths = w.paths;
    unique = w.unique;
    stays = λ x hx l b. elim (Bool-cases (dist n hole x == dist n hole k)) [
      | inl e ↦ let same = dist-inj n hole x k w.hole_lt hx hk (==→eq _ _ e) in rw same (uk, near)
      | inr e ↦ w.stays x hx l (ground (arith, b, e, next))
    ];
  }

-- `shift_back` ends at a free slot, and loses no entry but that of the hole.
pub shift_back-Vacates :
    (rounds n : ℕ) (slots : List Slot) (hole j f : ℕ)
    → HasHole n slots hole j
    → f < n
    → used_at slots f ≡ false
    → dist n j f ≤ rounds
    → Vacates slots hole (vacate (shift_back rounds hole j slots))
unfolding shift_back
shift_back-Vacates zero n slots hole j f w hf uf fuel =
    absurd (cc (uf, w.j_used, dist-zero n j f w.j_lt hf (omega (arith, fuel))))
shift_back-Vacates (suc rounds) n slots hole j f w hf uf fuel =
    let k = next_slot n j in
    let hk = next_slot-lt n j w.j_lt in
    let next = hole-next n slots hole j w f hf uf in
    let nearer = free-nearer n slots hole j w f hf uf in
    let apart : 0 < dist n hole k = omega (arith, next) in
    let fuel' : dist n k f ≤ rounds = omega (arith, nearer, fuel) in
    rw w.width (elim (Bool-cases (used_at slots k)) [
      | inr uk ↦ rw uk (vacate-Vacates n slots hole j w k hk uk next)
      | inl uk ↦
          let start = ideal n (key_at slots k) in
          let hs : start < n = ideal-lt n (key_at slots k) (omega (arith, hk)) in
          let test = movable_lem n hole k start w.hole_lt hk hs apart in
          elim (Bool-cases (movable hole k start)) [
            | inl m ↦
                let far : dist n hole k ≤ dist n start k = ground (arith, test, m) in
                let uf' = moved_used n slots hole j w k hk uk apart far f ∙ uf in
                rw (uk, m)
                  (move-Vacates n slots hole j w k hk uk apart far _ (
                    shift_back-Vacates rounds n (set slots hole (slot_at slots k)) k k f
                      (move-HasHole n slots hole j w k hk uk apart far) hf uf' fuel'))
            | inr m ↦
                let near : dist n start k < dist n hole k = ground (arith, test, m) in
                rw (uk, m)
                  (shift_back-Vacates rounds n slots hole k f
                    (stay-HasHole n slots hole j w k hk uk next near) hf uf fuel')
          ]
    ])

-- The loop of `erase` from the slot of an entry.
pub erase-Vacates :
    (slots : List Slot) (i : ℕ)
    → IsProbed slots
    → HasRoom slots
    → i < length slots
    → used_at slots i ≡ true
    → Vacates slots i (vacate (shift_back (length slots) i i slots))
erase-Vacates slots i w (f, (hf, uf)) hi ui =
    let far = dist-lt (length slots) i f hi hf in
    shift_back-Vacates (length slots) (length slots) slots i i f
      (record {
        width = refl;
        hole_lt = hi;
        j_lt = hi;
        hole_used = ui;
        j_used = ui;
        paths = λ q x hq hx ne u l. w.paths q x hq hx u l;
        unique = λ p q hp hq np nq up uq e. w.unique p q hp hq up uq e;
        stays = λ x hx l b. absurd (omega (arith, l, b, dist_self (length slots) i));
      })
      hf uf (omega (arith, far))
