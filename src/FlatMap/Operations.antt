-- ===== src/FlatMap/Operations.antt =====
-- Single calls of src/book/flat_map.hpp on a valid map: one `insert` and one `erase`.
use native.Mathlib.Numerals.{unary_clauses}
use nasdaq_matching_engine.Common.{
  ℕ, zero, suc, ◌+◌, ◌*◌, ◌^◌, ◌≤◌, ◌<◌, ◌≡◌, ◌≢◌, sym, ap, ◌∙◌, none, some, true, if◌then◌else◌,
  length, arith, inl, inr, Bool-cases, length-replicate, Option-cases,
}
use nasdaq_matching_engine.FlatMap.{
  no_slot, FlatMap, find_slot, is_loaded, grow, insert_within, insert, erase_at, erase_found, erase,
}
use nasdaq_matching_engine.FlatMap.Probing.{
  used_at, key_at, IsProbed, HasRoom, Holds, entries, room_of_entries,
}
use nasdaq_matching_engine.FlatMap.Finding.{Finds, find_slot-Finds}
use nasdaq_matching_engine.FlatMap.Inserting.{insert_plain-Inserts}
use nasdaq_matching_engine.FlatMap.Growing.{
  IsPlain, insert_within-IsPlain, empty-holds_nothing, entries-empty, grow-Rehashes,
}
use nasdaq_matching_engine.FlatMap.Erasing.Shifting.{erase-Vacates}

-- The size is a power of two, so `mask()` is its last bits, and the load is at most 70%.
pub record IsValid (m : FlatMap) : Type 0 where
  pub probed : IsProbed m.slots
  pub counted : m.size ≡ entries m.slots
  pub load : entries m.slots * 10 ≤ length m.slots * 7
  pub capacity : (b : ℕ) × (length m.slots ≡ 16 * 2 ^ b)

power_pos : (b : ℕ) → 0 < 2 ^ b
power_pos zero = omega arith
power_pos (suc b) = simp unary_clauses (omega (arith, power_pos b))

IsValid-wide : (m : FlatMap) → IsValid m → 16 ≤ length m.slots
IsValid-wide m w = let (b, e) = w.capacity in omega (arith, e, power_pos b)

pub IsValid-room : (m : FlatMap) → IsValid m → HasRoom m.slots
IsValid-room m w = room_of_entries m.slots (omega (arith, w.load, IsValid-wide m w))

-- `new` has room for one more entry, and holds what `old` holds.
record Prepares (old new : FlatMap) : Type 0 where
  pub valid : IsValid new
  light : (new.size + 1) * 10 ≤ length new.slots * 7
  pub kept : (k v : ℕ) → Holds old.slots k v → Holds new.slots k v
  pub others : (k v : ℕ) → Holds new.slots k v → Holds old.slots k v

grow-Prepares :
    (put : ℕ → ℕ → FlatMap → FlatMap)
    → IsPlain put
    → (m : FlatMap) → IsValid m
    → Prepares m (grow put m)
grow-Prepares put plain m w =
    let r = grow-Rehashes put plain m w.probed.unique w.load in
    let (b, e) = w.capacity in
    let n = length m.slots * 2 in
    let wide : length (grow put m).slots ≡ n = r.width ∙ length-replicate n no_slot in
    let room : entries (grow put m).slots ≤ entries m.slots =
      omega (arith, r.room, entries-empty n) in
    record {
      valid = record {
        probed = r.probed;
        counted = r.counted;
        load = omega (arith, wide, room, w.load);
        capacity = (suc b, wide ∙ simp unary_clauses (omega (arith, e)));
      };
      light = omega (arith, wide, room, w.load, r.counted, IsValid-wide m w);
      kept = r.new;
      others = λ k v h. elim (r.others k v h) [
        | inl t ↦ absurd (empty-holds_nothing n k v t)
        | inr t ↦ t
      ];
    }

prepare-Prepares :
    (put : ℕ → ℕ → FlatMap → FlatMap)
    → IsPlain put
    → (m : FlatMap) → IsValid m
    → Prepares m (if is_loaded m then grow put m else m)
unfolding is_loaded
prepare-Prepares put plain m w = elim (Bool-cases (is_loaded m)) [
  | inl e ↦ rw e (grow-Prepares put plain m w)
  | inr e ↦
      rw e (record { valid = w; light = ground (arith, e); kept = λ k v h. h; others = λ k v h. h })
]

-- `insert` writes one entry.
pub record Stores (m : FlatMap) (key val : ℕ) (m' : FlatMap) : Type 0 where
  pub valid : IsValid m'
  pub written : Holds m'.slots key val
  pub kept : (k v : ℕ) → k ≢ key → Holds m.slots k v → Holds m'.slots k v
  pub others : (k v : ℕ) → k ≢ key → Holds m'.slots k v → Holds m.slots k v

pub insert-Stores : (m : FlatMap) → IsValid m → (key val : ℕ) → Stores m key val (insert key val m)
unfolding insert insert_within
insert-Stores m w key val =
    let put = insert_within 1 in
    let p = prepare-Prepares put (insert_within-IsPlain 1) m w in
    let m₁ = if is_loaded m then grow put m else m in
    let i = insert_plain-Inserts m₁ p.valid.probed (IsValid-room m₁ p.valid) key val in
    record {
      valid = record {
        probed = i.writes.probed;
        counted = omega (arith, i.counted, p.valid.counted);
        load = omega (arith, i.one_more, p.valid.counted, p.light, i.writes.width);
        capacity = rw i.writes.width p.valid.capacity;
      };
      written = i.writes.written;
      kept = λ k v n h. i.writes.kept k v n (p.kept k v h);
      others = λ k v n h. p.others k v (i.writes.others k v n h);
    }

-- `erase` takes the entry of one key away.
pub record Removes (m : FlatMap) (key : ℕ) (m' : FlatMap) : Type 0 where
  pub valid : IsValid m'
  pub gone : (v : ℕ) → ¬ Holds m'.slots key v
  pub kept : (k v : ℕ) → k ≢ key → Holds m.slots k v → Holds m'.slots k v
  pub others : (k v : ℕ) → Holds m'.slots k v → Holds m.slots k v

erase_at-Removes :
    (m : FlatMap)
    → IsValid m
    → (key i : ℕ) → i < length m.slots
    → used_at m.slots i ≡ true
    → key_at m.slots i ≡ key
    → Removes m key (erase_at i m)
unfolding erase_at
erase_at-Removes m w key i hi ui ki =
    let v = erase-Vacates m.slots i w.probed (IsValid-room m w) hi ui in
    record {
      valid = record {
        probed = v.probed;
        counted = omega (arith, v.one_less, w.counted);
        load = omega (arith, v.one_less, v.width, w.load);
        capacity = rw v.width w.capacity;
      };
      gone = λ val h.
          let (q, (hq, (ne, (uq, (kq, vq))))) = v.others key val h in
          ne (w.probed.unique q i hq hi uq ui (kq ∙ sym ki));
      kept = λ k val n (q, (hq, (uq, (kq, vq)))).
          v.kept k val (q, (hq, ((λ e. n (sym kq ∙ ap (key_at m.slots) e ∙ ki)), (uq, (kq, vq)))));
      others = λ k val h. let (q, (hq, (ne, r))) = v.others k val h in (q, (hq, r));
    }

pub erase-Removes : (m : FlatMap) → IsValid m → (key : ℕ) → Removes m key (erase key m).1
unfolding erase erase_found
erase-Removes m w key =
    let f = find_slot-Finds m.slots w.probed (IsValid-room m w) key in
    elim (Option-cases (find_slot m.slots key)) [
      | inl e ↦
          let missing : Finds m.slots key none = rw e at f in
          rw e (record {
            valid = w;
            gone = λ v (q, (hq, (uq, (kq, vq)))). missing q hq uq kq;
            kept = λ k v n h. h;
            others = λ k v h. h;
          })
      | inr (i, e) ↦
          let (hi, (ui, ki)) : Finds m.slots key (some i) = rw e at f in
          rw e (erase_at-Removes m w key i hi ui ki)
    ]
