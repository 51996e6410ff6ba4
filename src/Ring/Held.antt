-- ===== src/Ring/Held.antt =====
-- The elements between the two indices of src/common/spsc_ring.hpp, and the tests on the indices.
use nasdaq_matching_engine.Common.{
  ℕ, zero, suc, ◌+◌, ◌≤◌, ◌<◌, ◌≡◌, refl, sym, ap, ◌∙◌, false, List, [], ◌∷◌, ◌++◌, ◌==◌, length,
  set, arith, length-set, get_or-set, Bool-cases, inl, inr, ==→eq,
}
use nasdaq_matching_engine.FlatMap.{next_slot}
use nasdaq_matching_engine.FlatMap.Cyclic.{
  dist, dist-lt, dist-zero, dist_self, dist-from_next, next_slot-lt, next_slot_lem,
}
use nasdaq_matching_engine.Ring.{
  PushPhase, push_idle, push_tested, push_wrote, PopPhase, pop_idle, pop_tested, pop_read, Ring,
  slot,
}

-- The `n` elements from slot `i` on.
unfoldable pub elements : ℕ → ℕ → List ℕ → List ℕ
elements zero i buf = []
elements (suc n) i buf = slot buf i ∷ elements n (next_slot (length buf) i) buf

abbrev pub count : Ring → ℕ
count r = dist (length r.buf) r.head r.tail

-- The elements that the consumer has still to take.
abbrev pub held : Ring → List ℕ
held r = elements (count r) r.head r.buf

abbrev pub PushFits : PushPhase → Ring → Type 0
PushFits push_idle r = Unit
PushFits (push_tested w) r = count r + 1 < length r.buf
PushFits (push_wrote w) r = (count r + 1 < length r.buf) × (slot r.buf r.tail ≡ w)

abbrev pub PopFits : PopPhase → Ring → Type 0
PopFits pop_idle r = Unit
PopFits pop_tested r = 0 < count r
PopFits (pop_read w) r = (0 < count r) × (slot r.buf r.head ≡ w)

pub record IsValid (n : ℕ) (r : Ring) : Type 0 where
  pub width : length r.buf ≡ n
  pub head_lt : r.head < n
  pub tail_lt : r.tail < n
  pub push_fits : PushFits r.push_phase r
  pub pop_fits : PopFits r.pop_phase r
  -- Each element that was pushed was popped or is held, in the order of the pushes.
  pub in_order : r.pushed ≡ r.popped ++ held r

-- A write outside the elements.
pub elements-set :
    (n i t v : ℕ) (buf : List ℕ)
    → i < length buf
    → t < length buf
    → n ≤ dist (length buf) i t
    → elements n i (set buf t v) ≡ elements n i buf
unfolding elements
elements-set zero i t v buf hi ht h = refl
elements-set (suc n) i t v buf hi ht h =
    let away : 0 < dist (length buf) i t = omega (arith, h) in
    let next = dist-from_next (length buf) i t hi ht away in
    let other : (t == i) ≡ false = (elim (Bool-cases (t == i)) [
      | inl e ↦
          let same = dist_self (length buf) i in
          absurd (omega (arith, away, same, rw (==→eq t i e) at away))
      | inr e ↦ e
    ]) in
    let same : slot (set buf t v) i ≡ slot buf i = get_or-set buf t i v 0 ht ∙ rw other refl in
    rw (same, length-set buf t v)
      (ap (λ l. slot buf i ∷ l)
        (elements-set n (next_slot (length buf) i) t v buf (next_slot-lt (length buf) i hi) ht
          (omega (arith, next, h))))

-- One more element at the end.
pub elements-end :
    (n i t : ℕ) (buf : List ℕ)
    → i < length buf
    → t < length buf
    → n ≡ dist (length buf) i t
    → elements (suc n) i buf ≡ elements n i buf ++ slot buf t ∷ []
unfolding elements
elements-end zero i t buf hi ht h =
    let same = dist-zero (length buf) i t hi ht (sym h) in ap (λ k. slot buf k ∷ []) same
elements-end (suc n) i t buf hi ht h =
    let next = dist-from_next (length buf) i t hi ht (omega (arith, h)) in
    ap (λ l. slot buf i ∷ l)
      (elements-end n (next_slot (length buf) i) t buf (next_slot-lt (length buf) i hi) ht
        (omega (arith, next, h)))

pub first_element :
    (n i : ℕ) (buf : List ℕ) (x : ℕ)
    → slot buf i ≡ x
    → elements (suc n) i buf ≡ x ∷ elements n (next_slot (length buf) i) buf
unfolding elements
first_element n i buf x e = ap (λ k. k ∷ elements n (next_slot (length buf) i) buf) e

-- The test of `try_push` fails just where N - 1 elements are held.
pub full_lem : (n h t : ℕ) → h < n → t < n → (next_slot n t == h) ≡ (dist n h t + 1 == n)
full_lem n h t hh ht = ground (arith, next_slot_lem n t ht)

pub empty_lem : (n h t : ℕ) → h < n → t < n → (h == t) ≡ (dist n h t == 0)
empty_lem n h t hh ht = ground arith

pub room_left : (n h t : ℕ) → h < n → t < n → (next_slot n t == h) ≡ false → dist n h t + 1 < n
room_left n h t hh ht e = ground (arith, full_lem n h t hh ht, e, dist-lt n h t hh ht)
