-- ===== src/FlatMap/Finding.antt =====
-- `find_slot` of src/book/flat_map.hpp finds the entry of a key where there is one.
use nasdaq_matching_engine.Common.{
  ℕ, zero, suc, ◌+◌, ◌≤◌, ◌<◌, ◌≡◌, ◌≢◌, ◌⊎◌, refl, sym, ap, ◌∙◌, List, Option, none, some, true,
  false, ◌==◌, length, arith, inl, inr, Bool-cases, ==→eq, ltb, ltb→lt, ne_of_==, Option-cases,
}
use nasdaq_matching_engine.FlatMap.{Slot, slot_at, next_slot, ideal, find_from, find_slot, val_at}
use nasdaq_matching_engine.FlatMap.Cyclic.{
  dist, dist-lt, dist-inj, dist_self, dist-next_slot, next_slot-lt, ideal-lt,
}
use nasdaq_matching_engine.FlatMap.Probing.{used_at, key_at, home, IsProbed, HasRoom, Holds}

-- The outcome of a search: the slot of the key, or no slot that has it.
abbrev pub Finds : List Slot → ℕ → Option ℕ → Type 0
Finds slots key none = (q : ℕ) → q < length slots → used_at slots q ≡ true → key_at slots q ≢ key
Finds slots key (some p) = (p < length slots) × ((used_at slots p ≡ true) × (key_at slots p ≡ key))

module _ (slots : List Slot) (w : IsProbed slots) (room : HasRoom slots) (key : ℕ) where
  abbrev pub start : ℕ
  start = ideal (length slots) key

  -- The slots that the search has passed are used by other keys.
  abbrev pub Passed : ℕ → Type 0
  Passed i =
      (x : ℕ)
      → x < length slots
      → dist (length slots) start x < dist (length slots) start i
      → (used_at slots x ≡ true) × (key_at slots x ≢ key)

  pub start-lt : start < length slots
  start-lt = let (f, (h, e)) = room in ideal-lt (length slots) key (omega (arith, h))

  -- At an unused slot the key is nowhere.
  pub not_held :
      (i : ℕ)
      → i < length slots
      → Passed i
      → used_at slots i ≡ false
      → (q : ℕ) → q < length slots
      → used_at slots q ≡ true
      → key_at slots q ≢ key
  not_held i h p e q hq uq kq =
      let d = dist (length slots) start in
      let at_home : home slots q ≡ start = ap (ideal (length slots)) kq in
      elim (Bool-cases (ltb (d i) (d q))) [
        | inl l ↦
            let before : dist (length slots) (home slots q) i
                < dist (length slots) (home slots q) q =
              rw at_home (ltb→lt (d i) (d q) l) in
            cc (e, w.paths q i hq h uq before)
        | inr l ↦ elim (Bool-cases (d q == d i)) [
          | inl s ↦
              let same = dist-inj (length slots) start q i start-lt hq h (==→eq (d q) (d i) s) in
              cc (e, uq, same)
          | inr s ↦ (p q hq (ground (arith, l, s))).1 kq
        ]
      ]

  -- The search has a slot to go on to.
  pub more_slots :
      (i : ℕ)
      → i < length slots
      → Passed i
      → used_at slots i ≡ true
      → dist (length slots) start i + 1 < length slots
  more_slots i h p e =
      let (f, (hf, uf)) = room in
      let d = dist (length slots) start in
      elim (Bool-cases (ltb (d f) (d i))) [
        | inl l ↦ absurd (cc (uf, (p f hf (ltb→lt (d f) (d i) l)).0))
        | inr l ↦ elim (Bool-cases (d f == d i)) [
          | inl s ↦
              let same = dist-inj (length slots) start f i start-lt hf h (==→eq (d f) (d i) s) in
              absurd (cc (uf, e, same))
          | inr s ↦ ground (arith, l, s, dist-lt (length slots) start f start-lt hf)
        ]
      ]

  pub Passed-next :
      (i : ℕ)
      → i < length slots
      → Passed i
      → used_at slots i ≡ true
      → key_at slots i ≢ key
      → Passed (next_slot (length slots) i)
  Passed-next i h p e k x hx l =
      let d = dist (length slots) start in
      let step = dist-next_slot (length slots) start i start-lt h (more_slots i h p e) in
      elim (Bool-cases (d x == d i)) [
        | inl s ↦
            let same = dist-inj (length slots) start x i start-lt hx h (==→eq (d x) (d i) s) in
            rw same (e, k)
        | inr s ↦ let near : d x < d i + 1 = rw step at l in p x hx (ground (arith, near, s))
      ]

  find_from-Finds :
      (n i : ℕ)
      → i < length slots
      → length slots ≤ dist (length slots) start i + n
      → Passed i
      → Finds slots key (find_from n slots key i)
  unfolding find_from
  find_from-Finds zero i h f p = absurd (omega (arith, dist-lt (length slots) start i start-lt h))
  find_from-Finds (suc n) i h f p = elim (Bool-cases (used_at slots i)) [
    | inr e ↦ rw e (not_held i h p e)
    | inl e ↦ elim (Bool-cases (key_at slots i == key)) [
      | inl k ↦ rw (e, k) (h, (e, ==→eq _ _ k))
      | inr k ↦
          let step = dist-next_slot (length slots) start i start-lt h (more_slots i h p e) in
          rw (e, k)
            (find_from-Finds n (next_slot (length slots) i) (next_slot-lt (length slots) i h)
              (omega (arith, f, step)) (Passed-next i h p e (ne_of_== _ _ k)))
    ]
  ]

  -- `find_slot` finds the slot of a key, or none where the key is not in the table.
  pub find_slot-Finds : Finds slots key (find_slot slots key)
  unfolding find_slot
  find_slot-Finds =
      find_from-Finds (length slots) start start-lt (omega arith)
        (λ x hx l. absurd (omega (arith, rw (dist_self (length slots) start) at l)))

-- What `find` returns is the entry of the key.
module _ (slots : List Slot) (w : IsProbed slots) (room : HasRoom slots) (key : ℕ) where
  pub find-Holds : (val : ℕ) → Holds slots key val → val_at slots (find_slot slots key) ≡ some val
  unfolding val_at
  find-Holds val (p, (hp, (up, (kp, vp)))) =
      let f = find_slot-Finds slots w room key in
      elim (Option-cases (find_slot slots key)) [
        | inl e ↦
            let none_found : Finds slots key none = rw e at f in absurd (none_found p hp up kp)
        | inr (q, e) ↦
            let (hq, (uq, kq)) : Finds slots key (some q) = rw e at f in
            let same = w.unique q p hq hp uq up (kq ∙ sym kp) in rw (e, same, vp) refl
      ]

  pub find-absent : ((val : ℕ) → ¬ Holds slots key val) → val_at slots (find_slot slots key) ≡ none
  unfolding val_at
  find-absent h =
      let f = find_slot-Finds slots w room key in
      elim (Option-cases (find_slot slots key)) [
        | inl e ↦ rw e refl
        | inr (q, e) ↦
            let (hq, (uq, kq)) : Finds slots key (some q) = rw e at f in
            absurd (h (slot_at slots q).val (q, (hq, (uq, (kq, refl)))))
      ]

  pub Holds-or-absent : ((val : ℕ) × Holds slots key val) ⊎ ((val : ℕ) → ¬ Holds slots key val)
  Holds-or-absent =
      let f = find_slot-Finds slots w room key in
      elim (Option-cases (find_slot slots key)) [
        | inl e ↦
            let none_found : Finds slots key none = rw e at f in
            inr (λ val (p, (hp, (up, (kp, vp)))). none_found p hp up kp)
        | inr (q, e) ↦
            let (hq, (uq, kq)) : Finds slots key (some q) = rw e at f in
            inl ((slot_at slots q).val, (q, (hq, (uq, (kq, refl)))))
      ]

-- Two tables that hold the same entries for a key read the same.
pub find_congr :
    (s t : List Slot)
    → IsProbed s
    → HasRoom s
    → IsProbed t
    → HasRoom t
    → (key : ℕ) → ((val : ℕ) → Holds s key val → Holds t key val)
    → ((val : ℕ) → Holds t key val → Holds s key val)
    → val_at s (find_slot s key) ≡ val_at t (find_slot t key)
find_congr s t ws rs wt rt key f g = elim (Holds-or-absent s ws rs key) [
  | inl (val, h) ↦ find-Holds s ws rs key val h ∙ sym (find-Holds t wt rt key val (f val h))
  | inr missing ↦
      find-absent s ws rs key missing
      ∙ sym (find-absent t wt rt key (λ val h. missing val (g val h)))
]
