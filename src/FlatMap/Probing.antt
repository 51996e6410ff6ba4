-- ===== src/FlatMap/Probing.antt =====
-- What makes a table of src/book/flat_map.hpp readable: no gap between an entry and its home.
use nasdaq_matching_engine.Common.{
  ℕ, zero, suc, ◌+◌, ◌<◌, ◌≡◌, ◌≢◌, List, [], ◌∷◌, Bool, true, false, ◌==◌, if◌then◌else◌, length,
  set, arith, get_or-set, Bool-cases, inl, inr,
}
use nasdaq_matching_engine.FlatMap.{Slot, no_slot, slot_at, ideal}
use nasdaq_matching_engine.FlatMap.Cyclic.{dist}

abbrev pub used_at : List Slot → ℕ → Bool
used_at slots i = (slot_at slots i).used

abbrev pub key_at : List Slot → ℕ → ℕ
key_at slots i = (slot_at slots i).key

abbrev pub home : List Slot → ℕ → ℕ
home slots i = ideal (length slots) (key_at slots i)

-- Each entry is the only one with its key, and the slots from its home up to it are used.
pub record IsProbed (slots : List Slot) : Type 0 where
  pub paths :
      (q x : ℕ)
      → q < length slots
      → x < length slots
      → used_at slots q ≡ true
      → dist (length slots) (home slots q) x < dist (length slots) (home slots q) q
      → used_at slots x ≡ true
  pub unique :
      (p q : ℕ)
      → p < length slots
      → q < length slots
      → used_at slots p ≡ true
      → used_at slots q ≡ true
      → key_at slots p ≡ key_at slots q
      → p ≡ q

-- The same, with the table's size by another name.
pub IsProbed_lem :
    (slots : List Slot) (n : ℕ)
    → length slots ≡ n
    → ((q x : ℕ)
        → q < n
        → x < n
        → used_at slots q ≡ true
        → dist n (ideal n (key_at slots q)) x < dist n (ideal n (key_at slots q)) q
        → used_at slots x ≡ true)
    → ((p q : ℕ)
        → p < n
        → q < n
        → used_at slots p ≡ true
        → used_at slots q ≡ true
        → key_at slots p ≡ key_at slots q
        → p ≡ q)
    → IsProbed slots
IsProbed_lem slots n e f g = record { paths = rw e f; unique = rw e g }

-- Some slot is unused.
abbrev pub HasRoom : List Slot → Type 0
HasRoom slots = (f : ℕ) × ((f < length slots) × (used_at slots f ≡ false))

-- The entry of a key.
abbrev pub Holds : List Slot → ℕ → ℕ → Type 0
Holds slots key val =
    (p : ℕ) × ((p < length slots)
      × ((used_at slots p ≡ true) × ((key_at slots p ≡ key) × ((slot_at slots p).val ≡ val))))

-- The same for the slots other than `hole`.
abbrev pub HoldsBut : ℕ → List Slot → ℕ → ℕ → Type 0
HoldsBut hole slots key val =
    (p : ℕ) × ((p < length slots)
      × ((p ≢ hole)
          × ((used_at slots p ≡ true) × ((key_at slots p ≡ key) × ((slot_at slots p).val ≡ val)))))

pub slot_at-set :
    (slots : List Slot) (i j : ℕ) (s : Slot)
    → i < length slots
    → slot_at (set slots i s) j ≡ (if i == j then s else slot_at slots j)
slot_at-set slots i j s h = get_or-set slots i j s no_slot h

abbrev bit : Bool → ℕ
bit true = 1
bit false = 0

-- The number of entries.
abbrev pub entries : List Slot → ℕ
entries [] = 0
entries (s ∷ ss) = bit s.used + entries ss

pub entries-set :
    (slots : List Slot) (i : ℕ) (s : Slot)
    → i < length slots
    → entries (set slots i s) + bit (used_at slots i) ≡ entries slots + bit s.used
entries-set [] i s h = absurd (omega arith)
entries-set (t ∷ ts) zero s h = omega arith
entries-set (t ∷ ts) (suc i) s h = omega (arith, entries-set ts i s)

pub room_of_entries : (slots : List Slot) → entries slots < length slots → HasRoom slots
room_of_entries [] h = absurd (omega arith)
room_of_entries (s ∷ ss) h = elim (Bool-cases s.used) [
  | inr e ↦ (0, (omega arith, e))
  | inl e ↦
      let rest : entries ss < length ss = ground (arith, h, e) in
      let (f, (hf, uf)) = room_of_entries ss rest in (suc f, (omega arith, uf))
]
