-- ===== src/FlatMap/Inserting.antt =====
-- The loop of `insert` in src/book/flat_map.hpp: one entry is written, the others stay.
use nasdaq_matching_engine.Common.{
  ℕ, zero, suc, ◌+◌, ◌≤◌, ◌<◌, ◌≡◌, ◌≢◌, ◌⊎◌, refl, sym, ap, ◌∙◌, List, true, false, ◌==◌,
  if◌then◌else◌, length, set, arith, inl, inr, Bool-cases, ==→eq, ne_of_==, ==_self, length-set,
}
use nasdaq_matching_engine.FlatMap.{
  Slot, slot_at, next_slot, ideal, FlatMap, insert_from, insert_plain,
}
use nasdaq_matching_engine.FlatMap.Cyclic.{dist, dist-lt, dist_self, dist-next_slot, next_slot-lt}
use nasdaq_matching_engine.FlatMap.Probing.{
  used_at, key_at, home, IsProbed, IsProbed_lem, HasRoom, Holds, slot_at-set, entries, entries-set,
}
use nasdaq_matching_engine.FlatMap.Finding.{
  start, Passed, start-lt, not_held, more_slots, Passed-next,
}

-- The table `new` holds `val` for `key`, and what `old` holds for the other keys.
pub record Writes (old : List Slot) (key val : ℕ) (new : List Slot) : Type 0 where
  pub width : length new ≡ length old
  pub probed : IsProbed new
  pub written : Holds new key val
  pub kept : (k v : ℕ) → k ≢ key → Holds old k v → Holds new k v
  pub others : (k v : ℕ) → k ≢ key → Holds new k v → Holds old k v

module _ (slots : List Slot) (w : IsProbed slots) (room : HasRoom slots) (key val i : ℕ)
    (h : i < length slots) where
  -- A write at `i` of the entry, where the keys of the other slots differ from it.
  module _
      (key_free : (q : ℕ)
        → q < length slots
        → q ≢ i
        → used_at slots q ≡ true
        → key_at slots q ≢ key)
      (path : (x : ℕ)
        → x < length slots
        → dist (length slots) (ideal (length slots) key) x
          < dist (length slots) (ideal (length slots) key) i
        → used_at slots x ≡ true)
      (was : (used_at slots i ≡ false) ⊎ (key_at slots i ≡ key)) where
    abbrev entry : Slot
    entry = record { key = key; val = val; used = true }

    abbrev written_slots : List Slot
    written_slots = set slots i entry

    at : (j : ℕ) → slot_at written_slots j ≡ (if i == j then entry else slot_at slots j)
    at j = slot_at-set slots i j entry h

    at_entry : (q : ℕ) → (i == q) ≡ true → slot_at written_slots q ≡ entry
    at_entry q e = at q ∙ rw e refl

    at_other : (q : ℕ) → (i == q) ≡ false → slot_at written_slots q ≡ slot_at slots q
    at_other q e = at q ∙ rw e refl

    used_more : (x : ℕ) → used_at slots x ≡ true → used_at written_slots x ≡ true
    used_more x u = ground (arith, at x)

    write-paths :
        (q x : ℕ)
        → q < length slots
        → x < length slots
        → used_at written_slots q ≡ true
        → dist (length slots) (ideal (length slots) (key_at written_slots q)) x
          < dist (length slots) (ideal (length slots) (key_at written_slots q)) q
        → used_at written_slots x ≡ true
    write-paths q x hq hx u l = elim (Bool-cases (i == q)) [
      | inl e ↦
          let same = ==→eq i q e in
          let k : key_at written_slots q ≡ key = ap (λ s. s.key) (at_entry q e) in
          let l' : dist (length slots) (ideal (length slots) key) x
              < dist (length slots) (ideal (length slots) key) i =
            rw (k, sym same) at l in
          used_more x (path x hx l')
      | inr e ↦
          let s = at_other q e in
          let u' : used_at slots q ≡ true = ap (λ s. s.used) (sym s) ∙ u in
          let k : key_at written_slots q ≡ key_at slots q = ap (λ s. s.key) s in
          let l' : dist (length slots) (home slots q) x < dist (length slots) (home slots q) q =
            rw k at l in
          used_more x (w.paths q x hq hx u' l')
    ]

    write_unique :
        (p q : ℕ)
        → p < length slots
        → q < length slots
        → used_at written_slots p ≡ true
        → used_at written_slots q ≡ true
        → key_at written_slots p ≡ key_at written_slots q
        → p ≡ q
    write_unique p q hp hq up uq k =
        ground (arith, at p, at q, key_free p hp, key_free q hq, w.unique p q hp hq)

    write-IsProbed : IsProbed written_slots
    write-IsProbed =
        IsProbed_lem written_slots (length slots) (length-set slots i entry) write-paths
          write_unique

    wide : (q : ℕ) → q < length slots → q < length written_slots
    wide q l = rw (length-set slots i entry) l

    write-Writes : Writes slots key val written_slots
    write-Writes = record {
      width = length-set slots i entry;
      probed = write-IsProbed;
      written =
          let s = at_entry i (==_self i) in
          (i, (wide i h, (ap (λ s. s.used) s, (ap (λ s. s.key) s, ap (λ s. s.val) s))));
      kept = λ k v n (q, (hq, (uq, (kq, vq)))).
          let s = at_other q (ground (arith, was, n, uq, kq)) in
          (
            q,
            (
              wide q hq,
              (ap (λ s. s.used) s ∙ uq, (ap (λ s. s.key) s ∙ kq, ap (λ s. s.val) s ∙ vq)),
            ),
          );
      others = λ k v n (q, (hq, (uq, (kq, vq)))).
          let s = at_other q (ground (arith, at q, n, kq)) in
          (
            q,
            (
              rw (length-set slots i entry) at hq,
              (
                ap (λ s. s.used) (sym s) ∙ uq,
                (ap (λ s. s.key) (sym s) ∙ kq, ap (λ s. s.val) (sym s) ∙ vq),
              ),
            ),
          );
    }

-- The same for the whole map, with its count.
pub record Inserts (m : FlatMap) (key val : ℕ) (m' : FlatMap) : Type 0 where
  pub writes : Writes m.slots key val m'.slots
  pub counted : m'.size + entries m.slots ≡ m.size + entries m'.slots
  pub one_more : entries m'.slots ≤ entries m.slots + 1

module _ (m : FlatMap) (w : IsProbed m.slots) (room : HasRoom m.slots) (key val : ℕ) where
  abbrev Before : ℕ → Type 0
  Before i = Passed m.slots w room key i

  fill-Inserts :
      (i : ℕ)
      → i < length m.slots
      → Before i
      → used_at m.slots i ≡ false
      → Inserts m key val (record {
        slots = set m.slots i (record { key = key; val = val; used = true });
        size = m.size + 1;
      })
  fill-Inserts i h p e =
      let count = entries-set m.slots i (record { key = key; val = val; used = true }) h in
      let more : entries (set m.slots i (record { key = key; val = val; used = true }))
          ≡ entries m.slots + 1 =
        ground (arith, count, e) in
      record {
        writes =
            write-Writes m.slots w room key val i h
              (λ q hq n u. not_held m.slots w room key i h p e q hq u) (λ x hx l. (p x hx l).0)
              (inl e);
        counted = omega (arith, more);
        one_more = omega (arith, more);
      }

  overwrite-Inserts :
      (i : ℕ)
      → i < length m.slots
      → Before i
      → used_at m.slots i ≡ true
      → key_at m.slots i ≡ key
      → Inserts m key val (record {
        slots = set m.slots i (record { key = key_at m.slots i; val = val; used = true });
        size = m.size;
      })
  overwrite-Inserts i h p e k =
      let count = entries-set m.slots i (record { key = key; val = val; used = true }) h in
      let more : entries (set m.slots i (record { key = key; val = val; used = true }))
          ≡ entries m.slots =
        ground (arith, count, e) in
      rw k (record {
        writes =
            write-Writes m.slots w room key val i h
              (λ q hq n u kq. n (w.unique q i hq h u e (kq ∙ sym k))) (λ x hx l. (p x hx l).0)
              (inr k);
        counted = omega (arith, more);
        one_more = omega (arith, more);
      })

  insert_from-Inserts :
      (n i : ℕ)
      → i < length m.slots
      → length m.slots ≤ dist (length m.slots) (start m.slots w room key) i + n
      → Before i
      → Inserts m key val (insert_from n key val i m)
  unfolding insert_from
  insert_from-Inserts zero i h f p = absurd (
      omega (
        arith,
        f,
        dist-lt (length m.slots) (start m.slots w room key) i (start-lt m.slots w room key) h,
      ))
  insert_from-Inserts (suc n) i h f p = elim (Bool-cases (used_at m.slots i)) [
    | inr e ↦ rw e (fill-Inserts i h p e)
    | inl e ↦ elim (Bool-cases (key_at m.slots i == key)) [
      | inl k ↦ rw (e, k) (overwrite-Inserts i h p e (==→eq _ _ k))
      | inr k ↦
          let begin = start-lt m.slots w room key in
          let fits = more_slots m.slots w room key i h p e in
          let step = dist-next_slot (length m.slots) (start m.slots w room key) i begin h fits in
          rw (e, k)
            (insert_from-Inserts n (next_slot (length m.slots) i)
              (next_slot-lt (length m.slots) i h) (omega (arith, f, step))
              (Passed-next m.slots w room key i h p e (ne_of_== _ _ k)))
    ]
  ]

  pub insert_plain-Inserts : Inserts m key val (insert_plain key val m)
  unfolding insert_plain
  insert_plain-Inserts =
      let begin = start-lt m.slots w room key in
      insert_from-Inserts (length m.slots) (start m.slots w room key) begin (omega arith) (λ x hx l.
        absurd (omega (arith, rw (dist_self (length m.slots) (start m.slots w room key)) at l)))
