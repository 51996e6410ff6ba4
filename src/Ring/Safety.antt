-- ===== src/Ring/Safety.antt =====
-- What the ring of src/common/spsc_ring.hpp holds under every interleaving.
use mathlib.Core.List.{append_assoc}
use nasdaq_matching_engine.Common.{
  ℕ, suc, ◌+◌, ◌<◌, ◌≡◌, refl, sym, ap, ◌∙◌, false, List, [], ◌∷◌, ◌++◌, ◌==◌, length, set, arith,
  length-set, get_or-set, replicate, length-replicate, Bool-cases, inl, inr, ==→eq,
}
use nasdaq_matching_engine.FlatMap.{next_slot}
use nasdaq_matching_engine.FlatMap.Cyclic.{
  dist, dist-lt, dist_self, dist-next_slot, dist-from_next, next_slot-lt,
}
use nasdaq_matching_engine.Ring.{
  PushPhase, push_idle, push_tested, push_wrote, PopPhase, pop_idle, pop_tested, pop_read, Ring,
  slot, push_step, pop_step, Turn, producer, consumer, step, run, new_ring,
}
use nasdaq_matching_engine.Ring.Held.{
  elements, count, held, PushFits, PopFits, IsValid, elements-set, elements-end, first_element,
  empty_lem, room_left,
}

module _ (n : ℕ) (r : Ring) (w : IsValid n r) where
  pub head_in : r.head < length r.buf
  head_in = rw w.width w.head_lt

  pub tail_in : r.tail < length r.buf
  tail_in = rw w.width w.tail_lt

  -- The two phases only speak of the count and of the slots at the two ends.
  PopFits-write :
      (p : PopPhase) (v : ℕ)
      → PopFits p r
      → count r + 1 < length r.buf
      → PopFits p (record r { buf = set r.buf r.tail v; push_phase = push_wrote v })
  PopFits-write pop_idle v h l = tt
  PopFits-write pop_tested v h l = rw (length-set r.buf r.tail v) h
  PopFits-write (pop_read x) v (h, e) l =
      let apart : (r.tail == r.head) ≡ false = (elim (Bool-cases (r.tail == r.head)) [
        | inl q ↦
            absurd
              (omega (arith, dist_self (length r.buf) r.head, h, rw (==→eq r.tail r.head q) at h))
        | inr q ↦ q
      ]) in
      rw (length-set r.buf r.tail v) (h, get_or-set r.buf r.tail r.head v 0 tail_in ∙ rw apart e)

  PopFits-more :
      (p : PopPhase) (q : List ℕ)
      → PopFits p r
      → count r + 1 < length r.buf
      → PopFits p
          (record r { tail = next_slot (length r.buf) r.tail; push_phase = push_idle; pushed = q })
  PopFits-more pop_idle q h l = tt
  PopFits-more pop_tested q h l =
      omega (arith, dist-next_slot (length r.buf) r.head r.tail head_in tail_in l)
  PopFits-more (pop_read x) q (h, e) l =
      (omega (arith, dist-next_slot (length r.buf) r.head r.tail head_in tail_in l), e)

  pub push_step-IsValid :
      (v : ℕ) (p : PushPhase) → p ≡ r.push_phase → PushFits p r → IsValid n (push_step v p r)
  unfolding push_step
  push_step-IsValid v push_idle e f =
      elim (Bool-cases (next_slot (length r.buf) r.tail == r.head)) [
        | inl q ↦ rw q w
        | inr q ↦ rw q (record {
          width = w.width;
          head_lt = w.head_lt;
          tail_lt = w.tail_lt;
          push_fits = room_left (length r.buf) r.head r.tail head_in tail_in q;
          pop_fits = same_pop r.pop_phase w.pop_fits;
          in_order = w.in_order;
        })
      ]
    where
      same_pop : (p : PopPhase) → PopFits p r → PopFits p (record r { push_phase = push_tested v })
      same_pop pop_idle h = tt
      same_pop pop_tested h = h
      same_pop (pop_read x) h = h
  push_step-IsValid v (push_tested x) e l =
      let wide = length-set r.buf r.tail x in
      record {
        width = wide ∙ w.width;
        head_lt = w.head_lt;
        tail_lt = w.tail_lt;
        push_fits = rw wide (l, get_or-set r.buf r.tail r.tail x 0 tail_in ∙ ground arith);
        pop_fits = PopFits-write r.pop_phase x w.pop_fits l;
        in_order =
            w.in_order
            ∙ ap (λ s. r.popped ++ s)
                (sym (elements-set (count r) r.head r.tail x r.buf head_in tail_in (omega arith))
                  ∙ ap (λ k. elements (dist k r.head r.tail) r.head (set r.buf r.tail x))
                      (sym wide));
      }
  push_step-IsValid v (push_wrote x) e (l, f) =
      let more : dist (length r.buf) r.head (next_slot (length r.buf) r.tail) ≡ suc (count r) =
        omega (arith, dist-next_slot (length r.buf) r.head r.tail head_in tail_in l) in
      let held_more : elements (dist (length r.buf) r.head (next_slot (length r.buf) r.tail)) r.head
            r.buf
          ≡ held r ++ x ∷ [] =
        ap (λ k. elements k r.head r.buf) more
        ∙ elements-end (count r) r.head r.tail r.buf head_in tail_in refl
        ∙ ap (λ k. held r ++ k ∷ []) f in
      record {
        width = w.width;
        head_lt = w.head_lt;
        tail_lt = omega (arith, next_slot-lt (length r.buf) r.tail tail_in, w.width);
        push_fits = tt;
        pop_fits = PopFits-more r.pop_phase (r.pushed ++ x ∷ []) w.pop_fits l;
        in_order =
            ap (λ l. l ++ x ∷ []) w.in_order
            ∙ append_assoc r.popped (held r) (x ∷ [])
            ∙ ap (λ l. r.popped ++ l) (sym held_more);
      }

  PushFits-read :
      (p : PushPhase) (q : PopPhase) → PushFits p r → PushFits p (record r { pop_phase = q })
  PushFits-read push_idle q h = tt
  PushFits-read (push_tested x) q h = h
  PushFits-read (push_wrote x) q h = h

  PushFits-less :
      (p : PushPhase) (q : List ℕ)
      → PushFits p r
      → 0 < count r
      → PushFits p
          (record r { head = next_slot (length r.buf) r.head; pop_phase = pop_idle; popped = q })
  PushFits-less push_idle q h l = tt
  PushFits-less (push_tested x) q h l =
      omega (arith, h, dist-from_next (length r.buf) r.head r.tail head_in tail_in l)
  PushFits-less (push_wrote x) q (h, e) l =
      (omega (arith, h, dist-from_next (length r.buf) r.head r.tail head_in tail_in l), e)

  pub pop_step-IsValid : (p : PopPhase) → PopFits p r → IsValid n (pop_step p r)
  unfolding pop_step
  pop_step-IsValid pop_idle f = elim (Bool-cases (r.head == r.tail)) [
    | inl q ↦ rw q w
    | inr q ↦ rw q (record {
      width = w.width;
      head_lt = w.head_lt;
      tail_lt = w.tail_lt;
      push_fits = PushFits-read r.push_phase pop_tested w.push_fits;
      pop_fits = ground (arith, empty_lem (length r.buf) r.head r.tail head_in tail_in, q);
      in_order = w.in_order;
    })
  ]
  pop_step-IsValid pop_tested l = record {
    width = w.width;
    head_lt = w.head_lt;
    tail_lt = w.tail_lt;
    push_fits = PushFits-read r.push_phase (pop_read (slot r.buf r.head)) w.push_fits;
    pop_fits = (l, refl);
    in_order = w.in_order;
  }
  pop_step-IsValid (pop_read x) (l, f) =
      let less : count r ≡ suc (dist (length r.buf) (next_slot (length r.buf) r.head) r.tail) =
        omega (arith, dist-from_next (length r.buf) r.head r.tail head_in tail_in l) in
      let held_less : held r
          ≡ x
            ∷ elements (dist (length r.buf) (next_slot (length r.buf) r.head) r.tail)
                (next_slot (length r.buf) r.head) r.buf =
        ap (λ k. elements k r.head r.buf) less ∙ first_element _ r.head r.buf x f in
      record {
        width = w.width;
        head_lt = omega (arith, next_slot-lt (length r.buf) r.head head_in, w.width);
        tail_lt = w.tail_lt;
        push_fits = PushFits-less r.push_phase (r.popped ++ x ∷ []) w.push_fits l;
        pop_fits = tt;
        in_order =
            w.in_order ∙ ap (λ l. r.popped ++ l) held_less ∙ sym (append_assoc r.popped (x ∷ []) _);
      }

pub step-IsValid : (n : ℕ) (t : Turn) (r : Ring) → IsValid n r → IsValid n (step t r)
unfolding step
step-IsValid n (producer v) r w = push_step-IsValid n r w v r.push_phase refl w.push_fits
step-IsValid n consumer r w = pop_step-IsValid n r w r.pop_phase w.pop_fits

pub run-IsValid : (n : ℕ) (ts : List Turn) (r : Ring) → IsValid n r → IsValid n (run ts r)
unfolding run
run-IsValid n [] r w = w
run-IsValid n (t ∷ ts) r w = run-IsValid n ts (step t r) (step-IsValid n t r w)

pub new_ring-IsValid : (n : ℕ) → 0 < n → IsValid n (new_ring n)
unfolding new_ring elements
new_ring-IsValid n h =
    let buf : List ℕ = replicate n 0 in
    record {
      width = length-replicate n 0;
      head_lt = h;
      tail_lt = h;
      push_fits = tt;
      pop_fits = tt;
      in_order = sym (ap (λ k. elements k 0 buf) (dist_self (length buf) 0));
    }

-- Under every schedule of the two threads' steps from the empty ring, the elements pushed are, in the
-- order of their pushes, those popped and those still held; at most N - 1 are held. N is above 0.
pub schedule-fifo :
    (n : ℕ)
    → 0 < n
    → (ts : List Turn)
    → ((run ts (new_ring n)).pushed ≡ (run ts (new_ring n)).popped ++ held (run ts (new_ring n)))
      × (count (run ts (new_ring n)) < n)
schedule-fifo n h ts =
    let w = run-IsValid n ts (new_ring n) (new_ring-IsValid n h) in
    let r = run ts (new_ring n) in
    (
      w.in_order,
      omega (arith, w.width, dist-lt (length r.buf) r.head r.tail (head_in n r w) (tail_in n r w)),
    )
