-- ===== src/FlatMap/Growing.antt =====
-- The rehashing of src/book/flat_map.hpp keeps every entry.
use nasdaq_matching_engine.Common.{
  ℕ, zero, suc, ◌+◌, ◌*◌, ◌≤◌, ◌<◌, ◌≡◌, ◌≢◌, ◌⊎◌, refl, sym, ap, ◌∙◌, List, [], ◌∷◌, true, false,
  ◌==◌, length, replicate, arith, inl, inr, Bool-cases, ==→eq, ne_of_==, length-replicate,
  get_or-replicate,
}
use nasdaq_matching_engine.FlatMap.{
  Slot, no_slot, slot_at, FlatMap, insert_plain, is_loaded, insert_all, grow, insert_within,
}
use nasdaq_matching_engine.FlatMap.Probing.{
  used_at, key_at, IsProbed, Holds, entries, room_of_entries,
}
use nasdaq_matching_engine.FlatMap.Inserting.{Inserts, insert_plain-Inserts}

-- A call of `insert` that does not grow.
abbrev pub IsPlain : (ℕ → ℕ → FlatMap → FlatMap) → Type 0
IsPlain put =
    (key val : ℕ) (m : FlatMap) → is_loaded m ≡ false → put key val m ≡ insert_plain key val m

pub insert_within-IsPlain : (depth : ℕ) → IsPlain (insert_within depth)
unfolding insert_within
insert_within-IsPlain zero key val m h = refl
insert_within-IsPlain (suc depth) key val m h = rw h refl

abbrev pub empty : ℕ → List Slot
empty n = replicate n no_slot

pub empty-unused : (n i : ℕ) → used_at (empty n) i ≡ false
empty-unused n i = ap (λ s. s.used) (get_or-replicate n i no_slot)

pub empty-IsProbed : (n : ℕ) → IsProbed (empty n)
empty-IsProbed n = record {
  paths = λ q x hq hx u l. cc (u, empty-unused n q);
  unique = λ p q hp hq up uq k. cc (up, empty-unused n p);
}

pub empty-holds_nothing : (n k v : ℕ) → ¬ Holds (empty n) k v
empty-holds_nothing n k v (p, (hp, (up, (kp, vp)))) = cc (up, empty-unused n p)

pub entries-empty : (n : ℕ) → entries (empty n) ≡ 0
entries-empty zero = refl
entries-empty (suc n) = omega (arith, entries-empty n)

-- Each key of the slots has one entry.
abbrev pub IsDistinct : List Slot → Type 0
IsDistinct ss =
    (p q : ℕ)
    → p < length ss
    → q < length ss
    → used_at ss p ≡ true
    → used_at ss q ≡ true
    → key_at ss p ≡ key_at ss q
    → p ≡ q

IsDistinct-tail : (s : Slot) (ss : List Slot) → IsDistinct (s ∷ ss) → IsDistinct ss
IsDistinct-tail s ss d p q hp hq up uq k =
    omega (arith, d (suc p) (suc q) (omega (arith, hp)) (omega (arith, hq)) up uq k)

first_alone :
    (s : Slot) (ss : List Slot)
    → IsDistinct (s ∷ ss)
    → s.used ≡ true
    → (k v : ℕ) → Holds ss k v
    → k ≢ s.key
first_alone s ss d u k v (q, (hq, (uq, (kq, vq)))) e =
    omega (arith, d 0 (suc q) (omega arith) (omega (arith, hq)) u uq (sym e ∙ sym kq))

later : (s : Slot) (ss : List Slot) (k v : ℕ) → Holds ss k v → Holds (s ∷ ss) k v
later s ss k v (q, (hq, (uq, (kq, vq)))) = (suc q, (omega (arith, hq), (uq, (kq, vq))))

-- An entry of a longer list is its first or a later one.
Holds-∷ :
    (s : Slot) (ss : List Slot) (k v : ℕ)
    → Holds (s ∷ ss) k v
    → ((s.used ≡ true) × ((s.key ≡ k) × (s.val ≡ v))) ⊎ Holds ss k v
Holds-∷ s ss k v (zero, (hq, r)) = inl r
Holds-∷ s ss k v (suc q, (hq, r)) = inr (q, (omega (arith, hq), r))

-- The table after `put` of the entries `ss`.
pub record Rehashes (m : FlatMap) (ss : List Slot) (m' : FlatMap) : Type 0 where
  pub width : length m'.slots ≡ length m.slots
  pub probed : IsProbed m'.slots
  pub counted : m'.size ≡ entries m'.slots
  pub room : entries m'.slots ≤ entries m.slots + entries ss
  pub old : (k v : ℕ) → Holds m.slots k v → Holds m'.slots k v
  pub new : (k v : ℕ) → Holds ss k v → Holds m'.slots k v
  pub others : (k v : ℕ) → Holds m'.slots k v → Holds m.slots k v ⊎ Holds ss k v

one_value :
    (slots : List Slot)
    → IsProbed slots
    → (k v v' : ℕ) → Holds slots k v
    → Holds slots k v'
    → v ≡ v'
one_value slots w k v v' (p, (hp, (up, (kp, vp)))) (q, (hq, (uq, (kq, vq)))) =
    let same = w.unique p q hp hq up uq (kp ∙ sym kq) in
    sym vp ∙ ap (λ i. (slot_at slots i).val) same ∙ vq

-- The first entry is written, the rest follows.
Rehashes-∷ :
    (m m₁ m' : FlatMap) (s : Slot) (ss : List Slot)
    → s.used ≡ true
    → ((k v v' : ℕ) → Holds m.slots k v → ¬ Holds (s ∷ ss) k v')
    → Inserts m s.key s.val m₁
    → Rehashes m₁ ss m'
    → Rehashes m (s ∷ ss) m'
Rehashes-∷ m m₁ m' s ss u apart i r =
    let here : Holds (s ∷ ss) s.key s.val = (0, (omega arith, (u, (refl, refl)))) in
    let clear : (k v : ℕ) → Holds m.slots k v → k ≢ s.key =
      (λ k v h e. apart k v s.val h (rw e here)) in
    record {
      width = r.width ∙ i.writes.width;
      probed = r.probed;
      counted = r.counted;
      room = ground (arith, r.room, i.one_more, u);
      old = λ k v h. r.old k v (i.writes.kept k v (clear k v h) h);
      new = λ k v h. elim (Holds-∷ s ss k v h) [
        | inl (_, (ks, vs)) ↦ r.old k v (rw (sym ks, sym vs) i.writes.written)
        | inr t ↦ r.new k v t
      ];
      others = λ k v h. elim (r.others k v h) [
        | inr t ↦ inr (later s ss k v t)
        | inl h₁ ↦ elim (Bool-cases (k == s.key)) [
          | inl e ↦
              let at_s : Holds m₁.slots s.key v = rw (==→eq k s.key e) at h₁ in
              let vs = one_value m₁.slots i.writes.probed s.key s.val v i.writes.written at_s in
              inr (0, (omega arith, (u, (sym (==→eq k s.key e), vs))))
          | inr e ↦ inl (i.writes.others k v (ne_of_== k s.key e) h₁)
        ]
      ];
    }

not_loaded : (m : FlatMap) → (m.size + 1) * 10 ≤ length m.slots * 7 → is_loaded m ≡ false
unfolding is_loaded
not_loaded m h = ground arith

-- The insertions of `grow` all find room and keep the entries there were.
pub insert_all-Rehashes :
    (put : ℕ → ℕ → FlatMap → FlatMap)
    → IsPlain put
    → (ss : List Slot) → IsDistinct ss
    → (m : FlatMap) → IsProbed m.slots
    → m.size ≡ entries m.slots
    → (entries m.slots + entries ss) * 10 ≤ length m.slots * 7
    → ((k v v' : ℕ) → Holds m.slots k v → ¬ Holds ss k v')
    → Rehashes m ss (insert_all put ss m)
unfolding insert_all
insert_all-Rehashes put plain [] d m w c l apart = record {
  width = refl;
  probed = w;
  counted = c;
  room = omega arith;
  old = λ k v h. h;
  new = λ k v (q, (hq, r)). absurd (omega (arith, hq));
  others = λ k v h. inl h;
}
insert_all-Rehashes put plain (s ∷ ss) d m w c l apart = elim (Bool-cases s.used) [
  | inr u ↦
      let skip =
        insert_all-Rehashes put plain ss (IsDistinct-tail s ss d) m w c (ground (arith, l, u))
          (λ k v v' h t. apart k v v' h (later s ss k v' t)) in
      let step : insert_all put (s ∷ ss) m ≡ insert_all put ss m = rw u refl in
      rw step (record {
        width = skip.width;
        probed = skip.probed;
        counted = skip.counted;
        room = ground (arith, skip.room, u);
        old = skip.old;
        new = λ k v h. elim (Holds-∷ s ss k v h) [
          | inl (us, _) ↦ absurd (cc (us, u))
          | inr t ↦ skip.new k v t
        ];
        others =
            λ k v h. elim (skip.others k v h) [ inl t ↦ inl t | inr t ↦ inr (later s ss k v t) ];
      })
  | inl u ↦
      let fits : entries m.slots < length m.slots = ground (arith, l, u) in
      let i = insert_plain-Inserts m w (room_of_entries m.slots fits) s.key s.val in
      let light : is_loaded m ≡ false = not_loaded m (ground (arith, l, u, c)) in
      let m₁ = insert_plain s.key s.val m in
      let c₁ : m₁.size ≡ entries m₁.slots = omega (arith, c, i.counted) in
      let l₁ : (entries m₁.slots + entries ss) * 10 ≤ length m₁.slots * 7 =
        rw i.writes.width (ground (arith, l, u, i.one_more)) in
      let apart₁ : (k v v' : ℕ) → Holds m₁.slots k v → ¬ Holds ss k v' = (λ k v v' h t.
        apart k v v' (i.writes.others k v (first_alone s ss d u k v' t) h) (later s ss k v' t)) in
      let rest =
        insert_all-Rehashes put plain ss (IsDistinct-tail s ss d) m₁ i.writes.probed c₁ l₁ apart₁ in
      let step : insert_all put (s ∷ ss) m ≡ insert_all put ss m₁ =
        rw (u, plain s.key s.val m light) refl in
      rw step (Rehashes-∷ m m₁ (insert_all put ss m₁) s ss u apart i rest)
]

-- `grow` keeps the entries of a table in which each key has one.
pub grow-Rehashes :
    (put : ℕ → ℕ → FlatMap → FlatMap)
    → IsPlain put
    → (m : FlatMap) → IsDistinct m.slots
    → entries m.slots * 10 ≤ length m.slots * 7
    → Rehashes (record { slots = empty (length m.slots * 2); size = 0 }) m.slots (grow put m)
unfolding grow
grow-Rehashes put plain m d l =
    let n = length m.slots * 2 in
    insert_all-Rehashes put plain m.slots d (record { slots = empty n; size = 0 })
      (empty-IsProbed n) (sym (entries-empty n))
      (rw (length-replicate n no_slot, entries-empty n) (omega (arith, l)))
      (λ k v v' h. absurd (empty-holds_nothing n k v h))
