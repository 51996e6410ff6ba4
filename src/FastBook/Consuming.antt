-- ===== src/FastBook/Consuming.antt =====
-- `consume_level` of src/book/fast_book.cpp against the scan of a list of orders.
use nasdaq_matching_engine.Common.{
  ℕ, zero, suc, ◌-◌, ◌≤◌, ◌≡◌, refl, sym, ap, ◌∙◌, true, false, not, ◌&&◌, List, [], ◌∷◌, ◌==◌, ltb,
  if◌then◌else◌, length, arith, All, length-set, Bool-cases, inl, inr, ==→eq,
}
use nasdaq_matching_engine.Types.{Price, OrderId, Side}
use nasdaq_matching_engine.Book.{Order, crosses, Fill, execute, exec_qty, left_open}
use nasdaq_matching_engine.Book.Priority.{take_front}
use nasdaq_matching_engine.FastBook.{nil}
use nasdaq_matching_engine.FastBook.Pool.{cell}
use nasdaq_matching_engine.FastBook.Chains.{IsDistinct, IsChain, cell-set}
use nasdaq_matching_engine.FastBook.Links.{core}
use nasdaq_matching_engine.FastBook.Matching.{Consumed, drop_head, consume_head, consume_level}
use nasdaq_matching_engine.FastBook.Executing.{
  orders, erase_each, IsRun-relink, Consumes, consume_level-stop, stopped-Consumes,
  take_front-no_qty, after_exec, used_up, consume_head-drop_head, consume_head-after_exec, changed,
  exec-cells, exec-IsChain, exec-fill, dropped_one, drop-cells, drop-ids, drop-width, drop-IsChain,
  drop-others, orders-same, prices-same, ids-same,
}

module _ (id : OrderId) (side : Side) (limit price : Price)
    (within : crosses side limit price ≡ true) where
  -- The scan against the first order.
  take_front-first :
      (o : Order) (os : List Order) (f : Fill)
      → (f.qty == 0) ≡ false
      → o.price ≡ price
      → take_front id side limit (o ∷ os) f ≡ (
          if o.open_qty - exec_qty f.qty o.open_qty == 0
          then take_front id side limit os (execute id side o f)
          else (left_open f o ∷ os, execute id side o f))
  unfolding take_front
  take_front-first o os f q p =
      let crossed : crosses side limit o.price ≡ true = ap (crosses side limit) p ∙ within in
      rw q (rw crossed refl)

  module _ (c : Consumed) (x : ℕ) (xs : List ℕ) (d : IsDistinct (x ∷ xs))
      (ch : IsChain c.pool c.level (x ∷ xs)) (px : (cell c.pool x).price ≡ price)
      (busy : (c.fill.qty == 0) ≡ false) where
    drop-Consumes :
        (c' : Consumed)
        → used_up id side limit price within x c ≡ true
        → Consumes id side limit xs (dropped_one id side limit price within c x xs d ch px) c'
        → Consumes id side limit (x ∷ xs) c c'
    unfolding drop_head
    drop-Consumes c' u r =
        let c₁ = dropped_one id side limit price within c x xs d ch px in
        let cells₁ = drop-cells id side limit price within c x xs d ch px in
        let rest = orders-same c.pool c₁.pool x cells₁ xs d.0 in
        record {
          dropped = x ∷ r.dropped;
          left = r.left;
          split = ap (λ l. x ∷ l) r.split;
          chain = r.chain;
          taken =
              take_front-first (core (cell c.pool x)) (orders c.pool xs) c.fill busy px
              ∙ rw u refl
              ∙ ap (λ f. take_front id side limit (orders c.pool xs) f)
                  (sym (exec-fill id side limit price within c x xs d ch px))
              ∙ ap (λ os. take_front id side limit os c₁.fill) (sym rest)
              ∙ r.taken;
          freed = r.freed;
          erased =
              r.erased
              ∙ ap (λ is. erase_each is c₁.index)
                  (ids-same c.pool c₁.pool (drop-ids id side limit price within c x xs d ch px)
                    r.dropped);
          width = r.width ∙ drop-width id side limit price within c x xs d ch px;
          cells = λ k (n, m). r.cells k m ∙ cells₁ k n;
          others = λ zs (h, hs) q i m stop t.
              r.others zs hs q i m stop
                (drop-others id side limit price within c x xs d ch px zs (h, hs) q i m stop t);
        }

    partial-Consumes :
        used_up id side limit price within x c ≡ false
        → Consumes id side limit (x ∷ xs) c (after_exec id side limit price within x c)
    partial-Consumes u =
        let c₁ = after_exec id side limit price within x c in
        let fits = ch.0.1.0 in
        let o = changed id side limit price within c x xs d ch px in
        let rest =
          orders-same c.pool c₁.pool x (exec-cells id side limit price within c x xs d ch px) xs
            d.0 in
        let here : cell c₁.pool x ≡ o = ground (arith, cell-set c.pool x x o fits) in
        record {
          dropped = [];
          left = x ∷ xs;
          split = refl;
          chain = exec-IsChain id side limit price within c x xs d ch px;
          taken =
              take_front-first (core (cell c.pool x)) (orders c.pool xs) c.fill busy px
              ∙ rw u refl
              ∙ ap (λ f. (core o ∷ orders c.pool xs, f))
                  (sym (exec-fill id side limit price within c x xs d ch px))
              ∙ ap (λ os. (os, c₁.fill))
                  (sym (ap (λ k. core k ∷ orders c₁.pool xs) here ∙ ap (λ os. core o ∷ os) rest));
          freed = refl;
          erased = refl;
          width = length-set c.pool x o;
          cells = λ k (n, m). exec-cells id side limit price within c x xs d ch px k n;
          others = λ zs h q i m stop t. IsRun-relink c.pool x o fits refl refl zs q i m stop t;
        }

    -- A partial execution leaves no quantity.
    partial-done :
        used_up id side limit price within x c ≡ false
        → (ltb 0 (after_exec id side limit price within x c).fill.qty && not (c.level.head == nil))
          ≡ false
    unfolding execute
    partial-done u = ground (arith, u)

  consume_level-go :
      (n : ℕ) (c : Consumed)
      → (ltb 0 c.fill.qty && not (c.level.head == nil)) ≡ true
      → consume_level (suc n) id side price c
        ≡ consume_level n id side price (consume_head id side price c)
  unfolding consume_level
  consume_level-go n c h = rw h refl

  -- `consume_level`, with a round for each order of the level, trades as the contract's scan of the
  -- orders does: it leaves the orders and the fill of the scan, with the links of a level, and the
  -- orders that are used up leave the index and go to the free list. Other levels keep their orders.
  -- The orders of the level are distinct pool indices at the level's price, which the limit crosses.
  pub consume_level-Consumes :
      (n : ℕ) (c : Consumed) (xs : List ℕ)
      → length xs ≤ n
      → IsDistinct xs
      → All (λ k. (cell c.pool k).price ≡ price) xs
      → IsChain c.pool c.level xs
      → Consumes id side limit xs c (consume_level n id side price c)
  consume_level-Consumes n c [] l d a ch =
      let none_left : (ltb 0 c.fill.qty && not (c.level.head == nil)) ≡ false =
        ground (arith, ch.0) in
      rw (consume_level-stop id side limit price within n c none_left)
        (stopped-Consumes id side limit price within c [] ch (unfold take_front in refl))
  consume_level-Consumes zero c (x ∷ xs) l d a ch = absurd (omega (arith, l))
  consume_level-Consumes (suc n) c (x ∷ xs) l (m, d) (p, a) ch =
      elim (Bool-cases (c.fill.qty == 0)) [
        | inl q ↦
            let no_qty : (ltb 0 c.fill.qty && not (c.level.head == nil)) ≡ false =
              ground (arith, q) in
            rw (consume_level-stop id side limit price within (suc n) c no_qty) (
              stopped-Consumes id side limit price within c (x ∷ xs) ch
                (take_front-no_qty id side limit price within _ c.fill (==→eq _ 0 q)))
        | inr q ↦
            let going : (ltb 0 c.fill.qty && not (c.level.head == nil)) ≡ true =
              ground (arith, q, ch.0.0, ch.0.1.1.0) in
            elim (Bool-cases (used_up id side limit price within x c)) [
              | inl u ↦
                  let c₁ = dropped_one id side limit price within c x xs (m, d) ch p in
                  let a₁ =
                    prices-same price c.pool c₁.pool x
                      (drop-cells id side limit price within c x xs (m, d) ch p) xs m a in
                  let ch₁ = drop-IsChain id side limit price within c x xs (m, d) ch p in
                  let step : consume_level (suc n) id side price c
                      ≡ consume_level n id side price c₁ =
                    consume_level-go n c going
                    ∙ ap (consume_level n id side price)
                        (consume_head-drop_head id side limit price within c x ch.0.0 u) in
                  rw step (
                    drop-Consumes c x xs (m, d) ch p q (consume_level n id side price c₁) u
                      (consume_level-Consumes n c₁ xs (omega (arith, l)) d a₁ ch₁))
              | inr u ↦
                  let c₁ = after_exec id side limit price within x c in
                  let step : consume_level (suc n) id side price c ≡ c₁ =
                    consume_level-go n c going
                    ∙ ap (consume_level n id side price)
                        (consume_head-after_exec id side limit price within c x ch.0.0 u)
                    ∙ consume_level-stop id side limit price within n c₁
                        (partial-done c x xs (m, d) ch p q u) in
                  rw step (partial-Consumes c x xs (m, d) ch p q u)
            ]
      ]
