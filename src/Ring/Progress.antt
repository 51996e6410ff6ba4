-- ===== src/Ring/Progress.antt =====
-- The calls of src/common/spsc_ring.hpp end after three steps of their thread.
use nasdaq_matching_engine.Common.{
  ℕ, ◌<◌, ◌≡◌, refl, ap, ◌∙◌, false, List, [], ◌∷◌, ◌++◌, ◌==◌, length, arith, map, length-set,
  get_or-set, Bool-cases, inl, inr, ==→eq,
}
use nasdaq_matching_engine.FlatMap.{next_slot}
use nasdaq_matching_engine.FlatMap.Cyclic.{dist_self, dist-next_slot}
use nasdaq_matching_engine.Ring.{
  PushPhase, push_idle, push_tested, push_wrote, pop_idle, pop_tested, pop_read, Ring, slot,
  push_step, pop_step, producer, consumer, step, run,
}
use nasdaq_matching_engine.Ring.Held.{count, PushFits, IsValid, empty_lem}
use nasdaq_matching_engine.Ring.Safety.{head_in, tail_in, push_step-IsValid, step-IsValid}

-- What the consumer relies on while it has something to take.
record Keeps (r r' : Ring) : Type 0 where
  head : r'.head ≡ r.head
  popped : r'.popped ≡ r.popped
  phase : r'.pop_phase ≡ r.pop_phase
  front : slot r'.buf r'.head ≡ slot r.buf r.head
  busy : 0 < count r'

push_step-Keeps :
    (n v : ℕ) (r : Ring)
    → IsValid n r
    → 0 < count r
    → (p : PushPhase) → PushFits p r
    → Keeps r (push_step v p r)
unfolding push_step
push_step-Keeps n v r w b push_idle f =
    elim (Bool-cases (next_slot (length r.buf) r.tail == r.head)) [
      | inl q ↦ rw q (record { head = refl; popped = refl; phase = refl; front = refl; busy = b })
      | inr q ↦ rw q (record { head = refl; popped = refl; phase = refl; front = refl; busy = b })
    ]
push_step-Keeps n v r w b (push_tested x) f =
    let apart : (r.tail == r.head) ≡ false = (elim (Bool-cases (r.tail == r.head)) [
      | inl q ↦
          absurd
            (omega (arith, dist_self (length r.buf) r.head, b, rw (==→eq r.tail r.head q) at b))
      | inr q ↦ q
    ]) in
    record {
      head = refl;
      popped = refl;
      phase = refl;
      front = get_or-set r.buf r.tail r.head x 0 (tail_in n r w) ∙ rw apart refl;
      busy = rw (length-set r.buf r.tail x) b;
    }
push_step-Keeps n v r w b (push_wrote x) (l, f) = record {
  head = refl;
  popped = refl;
  phase = refl;
  front = refl;
  busy =
      omega (arith, dist-next_slot (length r.buf) r.head r.tail (head_in n r w) (tail_in n r w) l);
}

-- Turns of the producer alone.
abbrev pub pushing : List ℕ → Ring → Ring
pushing vs r = run (map producer vs) r

pushing-Keeps :
    (n : ℕ) (vs : List ℕ) (r : Ring)
    → IsValid n r
    → 0 < count r
    → IsValid n (pushing vs r) × Keeps r (pushing vs r)
unfolding run step
pushing-Keeps n [] r w b =
    (w, record { head = refl; popped = refl; phase = refl; front = refl; busy = b })
pushing-Keeps n (v ∷ vs) r w b =
    let k = push_step-Keeps n v r w b r.push_phase w.push_fits in
    let w₁ = push_step-IsValid n r w v r.push_phase refl w.push_fits in
    let (w', ks) = pushing-Keeps n vs (push_step v r.push_phase r) w₁ k.busy in
    (
      w',
      record {
        head = ks.head ∙ k.head;
        popped = ks.popped ∙ k.popped;
        phase = ks.phase ∙ k.phase;
        front = ks.front ∙ k.front;
        busy = ks.busy;
      },
    )

-- Three turns of the consumer, with turns of the producer in between.
abbrev pub pop_call : List ℕ → List ℕ → Ring → Ring
pop_call us vs r = step consumer (pushing vs (step consumer (pushing us (step consumer r))))

turn_tested :
    (n : ℕ) (r : Ring)
    → IsValid n r
    → r.pop_phase ≡ pop_idle
    → 0 < count r
    → step consumer r ≡ record r { pop_phase = pop_tested }
unfolding step pop_step
turn_tested n r w idle b =
    let busy : (r.head == r.tail) ≡ false =
      ground (arith, empty_lem (length r.buf) r.head r.tail (head_in n r w) (tail_in n r w), b) in
    rw idle (rw busy refl)

turn_read :
    (r : Ring)
    → r.pop_phase ≡ pop_tested
    → step consumer r ≡ record r { pop_phase = pop_read (slot r.buf r.head) }
unfolding step pop_step
turn_read r e = rw e refl

turn_done :
    (r : Ring) (x : ℕ)
    → r.pop_phase ≡ pop_read x
    → ((step consumer r).popped ≡ r.popped ++ x ∷ []) × ((step consumer r).pop_phase ≡ pop_idle)
unfolding step pop_step
turn_done r x e = rw e (refl, refl)

-- `try_pop` on a ring that holds an element returns the oldest one after three steps, whatever steps
-- the producer takes between them. No other call of the consumer is under way.
pub try_pop_ends :
    (n : ℕ) (r : Ring)
    → IsValid n r
    → r.pop_phase ≡ pop_idle
    → 0 < count r
    → (us vs : List ℕ)
    → ((pop_call us vs r).popped ≡ r.popped ++ slot r.buf r.head ∷ [])
      × ((pop_call us vs r).pop_phase ≡ pop_idle)
try_pop_ends n r w idle b us vs =
    let r₁ : Ring = record r { pop_phase = pop_tested } in
    let first : step consumer r ≡ r₁ = turn_tested n r w idle b in
    let w₁ : IsValid n r₁ = rw first at (step-IsValid n consumer r w) in
    let (w₂, k₂) = pushing-Keeps n us r₁ w₁ b in
    let r₂ = pushing us r₁ in
    let x = slot r.buf r.head in
    let r₃ : Ring = record r₂ { pop_phase = pop_read (slot r₂.buf r₂.head) } in
    let second : step consumer r₂ ≡ r₃ = turn_read r₂ k₂.phase in
    let w₃ : IsValid n r₃ = rw second at (step-IsValid n consumer r₂ w₂) in
    let (w₄, k₄) = pushing-Keeps n vs r₃ w₃ k₂.busy in
    let (e, i) = turn_done (pushing vs r₃) (slot r₂.buf r₂.head) k₄.phase in
    rw (first, second)
      (
        e
            ∙ ap (λ l. l ++ slot r₂.buf r₂.head ∷ []) (k₄.popped ∙ k₂.popped)
            ∙ ap (λ y. r.popped ++ y ∷ []) k₂.front,
        i,
      )
