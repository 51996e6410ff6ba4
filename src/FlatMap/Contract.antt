-- ===== src/FlatMap/Contract.antt =====
-- src/book/flat_map.hpp against a function from keys to optional values.
use nasdaq_matching_engine.Common.{
  ℕ, ◌+◌, ◌≡◌, refl, ap, ◌∙◌, List, [], ◌∷◌, Option, none, some, Bool, true, false, ◌==◌,
  if◌then◌else◌, arith, inl, inr, Bool-cases, ==→eq, ne_of_==, Option-cases,
}
use nasdaq_matching_engine.FlatMap.{
  FlatMap, find_slot, val_at, find, insert, erase_at, erase_found, erase, new_map,
}
use nasdaq_matching_engine.FlatMap.Probing.{Holds}
use nasdaq_matching_engine.FlatMap.Finding.{
  Finds, find_slot-Finds, find-Holds, find-absent, find_congr,
}
use nasdaq_matching_engine.FlatMap.Erasing.Shifting.{erase-Vacates}
use nasdaq_matching_engine.FlatMap.Capacity.{new_map-IsValid, find-new_map}
use nasdaq_matching_engine.FlatMap.Operations.{IsValid, IsValid-room, insert-Stores, erase-Removes}

-- Adds one entry or takes one away.
pub data MapCall : Type 0 where
  insert_call : (key val : ℕ) → MapCall
  erase_call : (key : ℕ) → MapCall

unfoldable pub call : MapCall → FlatMap → FlatMap
call (insert_call key val) m = insert key val m
call (erase_call key) m = (erase key m).1

unfoldable pub run : List MapCall → FlatMap → FlatMap
run [] m = m
run (c ∷ cs) m = run cs (call c m)

-- What a key stands for after the calls, `at` before them.
unfoldable pub lookup_after : List MapCall → ℕ → Option ℕ → Option ℕ
lookup_after [] k at = at
lookup_after (insert_call key val ∷ cs) k at = lookup_after cs k (if k == key then some val else at)
lookup_after (erase_call key ∷ cs) k at = lookup_after cs k (if k == key then none else at)

find-insert :
    (m : FlatMap)
    → IsValid m
    → (key val k : ℕ) → find k (insert key val m) ≡ (if k == key then some val else find k m)
unfolding find
find-insert m w key val k =
    let s = insert-Stores m w key val in
    let room = IsValid-room (insert key val m) s.valid in
    elim (Bool-cases (k == key)) [
      | inl e ↦
          let h : Holds (insert key val m).slots k val = rw (==→eq k key e) s.written in
          rw e (find-Holds _ s.valid.probed room k val h)
      | inr e ↦
          let n = ne_of_== k key e in
          rw e (
            find_congr _ _ s.valid.probed room w.probed (IsValid-room m w) k (λ v. s.others k v n)
              (λ v. s.kept k v n))
    ]

find-erase :
    (m : FlatMap)
    → IsValid m
    → (key k : ℕ) → find k (erase key m).1 ≡ (if k == key then none else find k m)
unfolding find
find-erase m w key k =
    let r = erase-Removes m w key in
    let room = IsValid-room (erase key m).1 r.valid in
    elim (Bool-cases (k == key)) [
      | inl e ↦ rw e (find-absent _ r.valid.probed room k (rw (==→eq k key e) r.gone))
      | inr e ↦
          let n = ne_of_== k key e in
          rw e (
            find_congr _ _ r.valid.probed room w.probed (IsValid-room m w) k (λ v. r.others k v)
              (λ v. r.kept k v n))
    ]

call-IsValid : (c : MapCall) (m : FlatMap) → IsValid m → IsValid (call c m)
unfolding call
call-IsValid (insert_call key val) m w = (insert-Stores m w key val).valid
call-IsValid (erase_call key) m w = (erase-Removes m w key).valid

pub run-IsValid : (cs : List MapCall) (m : FlatMap) → IsValid m → IsValid (run cs m)
unfolding run
run-IsValid [] m w = w
run-IsValid (c ∷ cs) m w = run-IsValid cs (call c m) (call-IsValid c m w)

pub run-find :
    (cs : List MapCall) (m : FlatMap)
    → IsValid m
    → (k : ℕ) → find k (run cs m) ≡ lookup_after cs k (find k m)
unfolding run call lookup_after
run-find [] m w k = refl
run-find (insert_call key val ∷ cs) m w k =
    rw⁻¹ (find-insert m w key val k)
      (run-find cs (insert key val m) (call-IsValid (insert_call key val) m w) k)
run-find (erase_call key ∷ cs) m w k =
    rw⁻¹ (find-erase m w key k) (run-find cs (erase key m).1 (call-IsValid (erase_call key) m w) k)

-- After any inserts and erases from the constructor on, the map has no gap on a probe path, one
-- entry for a key, its count right, a load of 70% at most and a power of two as its size.
pub calls-IsValid :
    (expected : ℕ) (m : FlatMap)
    → new_map expected ≡ some m
    → (cs : List MapCall) → IsValid (run cs m)
calls-IsValid expected m e cs = run-IsValid cs m (new_map-IsValid expected m e)

-- After any inserts and erases from the constructor on, `find` gives for each key the value of the
-- last insert, or none where no insert or a later erase of the key stands last.
pub calls-find :
    (expected : ℕ) (m : FlatMap)
    → new_map expected ≡ some m
    → (cs : List MapCall) (k : ℕ) → find k (run cs m) ≡ lookup_after cs k none
calls-find expected m e cs k =
    run-find cs m (new_map-IsValid expected m e) k
    ∙ ap (lookup_after cs k) (find-new_map expected m e k)

unfoldable pub is_found : Option ℕ → Bool
is_found none = false
is_found (some v) = true

-- `erase` returns whether `find` finds the key; the count falls by 1 then and stays otherwise.
pub erase_result :
    (m : FlatMap)
    → IsValid m
    → (key : ℕ)
    → ((erase key m).0 ≡ is_found (find key m))
      × ((erase key m).1.size + (if is_found (find key m) then 1 else 0) ≡ m.size)
unfolding erase erase_found erase_at find val_at is_found
erase_result m w key =
    let f = find_slot-Finds m.slots w.probed (IsValid-room m w) key in
    elim (Option-cases (find_slot m.slots key)) [
      | inl e ↦ rw e (refl, omega arith)
      | inr (i, e) ↦
          let (hi, (ui, ki)) : Finds m.slots key (some i) = rw e at f in
          let v = erase-Vacates m.slots i w.probed (IsValid-room m w) hi ui in
          rw e (refl, omega (arith, v.one_less, w.counted))
    ]
