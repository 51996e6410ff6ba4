-- ===== src/Book/Reference/PairCancel.antt =====
-- `remove` and the reduction of src/book/order_book.cpp under the invariant of `IsPair`.
use nasdaq_matching_engine.Common.{
  ◌-◌, ◌<◌, ◌≡◌, refl, sym, ap, ◌∙◌, List, [], ◌∷◌, arith, ◌==◌, ==→eq, if◌then◌else◌, inl, inr,
  Bool-cases, none, some,
}
use nasdaq_matching_engine.Common.Int.{eq?}
use nasdaq_matching_engine.Common.Maps.{find, erase, find-erase}
use nasdaq_matching_engine.Types.{Price, Qty, OrderId, Side}
use nasdaq_matching_engine.Book.{Order}
use nasdaq_matching_engine.Book.Priority.{locate, remove, reduce}
use nasdaq_matching_engine.Book.Priority.Orders.{
  count, count-locate, count-remove, count-remove_self, count-reduce, locate-remove_ne,
}
use nasdaq_matching_engine.Book.Reference.{Level, Index, erase_from, reduce_at}
use nasdaq_matching_engine.Book.Reference.Tracking.{handle_in-none}
use nasdaq_matching_engine.Book.Reference.Erasing.{
  erase_from-remove, erase_from-AreLevels, erase_from-IsSorted, erase_from_here,
}
use nasdaq_matching_engine.Book.Reference.Reducing.{
  reduce_at-reduce, reduce_at-AreLevels, reduce_at-IsSorted,
}
use nasdaq_matching_engine.Book.Reference.Pair.{AllClear, IsPair}
use nasdaq_matching_engine.Book.Reference.Valid.{flatten, handle_in}

erase_from-AllClear :
    (s : Side) (opp : List Level) (id : OrderId) (q : Qty) (p : Price) (ls : List Level)
    → AllClear s ls opp
    → AllClear s (erase_from id q p ls) opp
unfolding erase_from
erase_from-AllClear s opp id q p [] a = a
erase_from-AllClear s opp id q p (l ∷ ls) (a, as') = elim (Bool-cases (eq? l.price p)) [
  | inl e ↦ erase_from_here (λ r. AllClear s r opp) id q p l ls e (λ _. as') (λ _. (a, as'))
  | inr e ↦ rw e (a, erase_from-AllClear s opp id q p ls as')
]

reduce_at-AllClear :
    (s : Side) (opp : List Level) (id : OrderId) (keep gone : Qty) (p : Price) (ls : List Level)
    → AllClear s ls opp
    → AllClear s (reduce_at id keep gone p ls) opp
unfolding reduce_at
reduce_at-AllClear s opp id keep gone p [] a = a
reduce_at-AllClear s opp id keep gone p (l ∷ ls) (a, as') = elim (Bool-cases (eq? l.price p)) [
  | inl e ↦ rw e (a, as')
  | inr e ↦ rw e (a, reduce_at-AllClear s opp id keep gone p ls as')
]

handle_in-reduce :
    (k id : OrderId) (keep : Qty) (xs ys : List Order)
    → handle_in k (reduce id keep xs) ys ≡ handle_in k xs ys
unfolding reduce locate
handle_in-reduce k id keep [] ys = refl
handle_in-reduce k id keep (x ∷ xs) ys = ground (arith, handle_in-reduce k id keep xs ys)

module _ (s : Side) (own opp : List Level) (index : Index) (id : OrderId) (o : Order)
    (v : IsPair s own opp index) (here : locate id (flatten own) ≡ some o) where
  tracked_erase :
      (k : OrderId)
      → (if id == k then none else find k index)
        ≡ handle_in k (remove id (flatten own)) (flatten opp)
  tracked_erase k = elim (Bool-cases (id == k)) [
    | inl q ↦
        rw (q, ← ==→eq id k q)
          (sym (
            handle_in-none id (remove id (flatten own)) (flatten opp) (
              omega (
                arith,
                v.distinct id,
                count-locate id (flatten own) here,
                count-remove_self id (flatten own),
              ))))
    | inr q ↦ rw q (ground (arith, v.tracked k, locate-remove_ne k id (flatten own) q))
  ]

  pub erase_from-IsPair : IsPair s (erase_from id o.open_qty o.price own) opp (erase id index)
  erase_from-IsPair = record {
    own_levels = erase_from-AreLevels s id own o v.own_levels v.own_sorted here;
    opp_levels = v.opp_levels;
    own_sorted = erase_from-IsSorted s id o.open_qty o.price own v.own_sorted;
    opp_sorted = v.opp_sorted;
    distinct = λ k. omega (
      arith,
      v.distinct k,
      ap (count k) (erase_from-remove s id own o v.own_levels v.own_sorted here),
      count-remove k id (flatten own),
    );
    tracked = λ k.
        find-erase k id index
        ∙ rw (erase_from-remove s id own o v.own_levels v.own_sorted here) (tracked_erase k);
    clear = erase_from-AllClear s opp id o.open_qty o.price own v.clear;
  }

  pub reduce_at-IsPair :
      (keep : Qty)
      → 0 < keep
      → keep < o.open_qty
      → IsPair s (reduce_at id keep (o.open_qty - keep) o.price own) opp index
  reduce_at-IsPair keep h k = record {
    own_levels = reduce_at-AreLevels s id keep own o h k v.own_levels v.own_sorted here;
    opp_levels = v.opp_levels;
    own_sorted = reduce_at-IsSorted s id keep (o.open_qty - keep) o.price own v.own_sorted;
    opp_sorted = v.opp_sorted;
    distinct = λ j.
        omega (arith, v.distinct j, ap (count j) (flat keep), count-reduce j id keep (flatten own));
    tracked = λ j.
        rw (flat keep) (v.tracked j ∙ sym (handle_in-reduce j id keep (flatten own) (flatten opp)));
    clear = reduce_at-AllClear s opp id keep (o.open_qty - keep) o.price own v.clear;
  }
    where
      flat :
          (keep : Qty)
          → flatten (reduce_at id keep (o.open_qty - keep) o.price own)
            ≡ reduce id keep (flatten own)
      flat keep =
          reduce_at-reduce s id keep (o.open_qty - keep) own o v.own_levels v.own_sorted here
