-- ===== src/Book/Reference/Pair.antt =====
-- One invariant for the two sides of the book of src/book/order_book.cpp, seen from the side of an
-- incoming order: its own side and the opposite one, with the index.
use nasdaq_matching_engine.Common.{
  ◌+◌, ◌≤◌, ◌<◌, ◌≡◌, refl, sym, ap, ◌∙◌, true, false, List, [], ◌∷◌, arith, ◌==◌, ==→eq,
  if◌then◌else◌, All, ◌⊎◌, inl, inr, Bool-cases, none, some,
}
use nasdaq_matching_engine.Common.Int.{eq?}
use nasdaq_matching_engine.Common.Maps.{find, emplace, find-emplace}
use nasdaq_matching_engine.Types.{Price, OrderId, Side, buy, sell}
use nasdaq_matching_engine.Book.{Order, crosses, better, opposite, Fill}
use nasdaq_matching_engine.Book.Priority.{insert}
use nasdaq_matching_engine.Book.Priority.Orders.{
  count, locate_of_count, count_of_locate, count-insert, count-take_front, locate-insert_ne,
  locate-insert_self,
}
use nasdaq_matching_engine.Book.Reference.{Level, Index, match_levels, push_back, push_order}
use nasdaq_matching_engine.Book.Reference.Cases.{match_levels_cases}
use nasdaq_matching_engine.Book.Reference.Matching.{match_levels-take_front}
use nasdaq_matching_engine.Book.Reference.Tracking.{match_levels-Tracks}
use nasdaq_matching_engine.Book.Reference.Levels.{
  match_levels-AreLevels, match_levels-IsSorted, consume_level-price,
}
use nasdaq_matching_engine.Book.Reference.Insertion.{
  push_order-insert, push_order-AreLevels, push_order-IsSorted,
}
use nasdaq_matching_engine.Book.Reference.Valid.{
  flatten, AreLevels, IsSorted, handle_of, handle_in, Tracks, AreDistinct,
}

-- No level of the opposite side is crossed by the price.
abbrev pub Clear : Side → Price → List Level → Type 0
Clear s p ls = All (λ l. crosses s p l.price ≡ false) ls

abbrev pub AllClear : Side → List Level → List Level → Type 0
AllClear s own opp = All (λ l. Clear s l.price opp) own

pub record IsPair (s : Side) (own opp : List Level) (index : Index) : Type 0 where
  pub own_levels : AreLevels s own
  pub opp_levels : AreLevels (opposite s) opp
  pub own_sorted : IsSorted s own
  pub opp_sorted : IsSorted (opposite s) opp
  pub distinct : AreDistinct (flatten own) (flatten opp)
  pub tracked : Tracks index (flatten own) (flatten opp)
  pub clear : AllClear s own opp

crosses_flip : (s : Side) (p q : Price) → crosses s p q ≡ crosses (opposite s) q p
crosses_flip buy p q = refl
crosses_flip sell p q = refl

pub opposite_twice : (s : Side) → opposite (opposite s) ≡ s
opposite_twice buy = refl
opposite_twice sell = refl

AllClear-nil : (s : Side) (own : List Level) → AllClear s own []
AllClear-nil s [] = tt
AllClear-nil s (l ∷ ls) = (tt, AllClear-nil s ls)

AllClear-cons :
    (s : Side) (m : Level) (own opp : List Level)
    → Clear (opposite s) m.price own
    → AllClear s own opp
    → AllClear s own (m ∷ opp)
AllClear-cons s m [] opp h a = tt
AllClear-cons s m (l ∷ ls) opp (h, hs) (a, as') =
    ((crosses_flip s l.price m.price ∙ h, a), AllClear-cons s m ls opp hs as')

Clear-head :
    (s : Side) (m : Level) (own opp : List Level)
    → AllClear s own (m ∷ opp)
    → Clear (opposite s) m.price own
Clear-head s m [] opp a = tt
Clear-head s m (l ∷ ls) opp ((a, _), as') =
    (sym (crosses_flip s l.price m.price) ∙ a, Clear-head s m ls opp as')

AllClear-tail :
    (s : Side) (m : Level) (own opp : List Level) → AllClear s own (m ∷ opp) → AllClear s own opp
AllClear-tail s m [] opp a = tt
AllClear-tail s m (l ∷ ls) opp ((_, a), as') = (a, AllClear-tail s m ls opp as')

AllClear-flip :
    (s : Side) (own opp : List Level) → AllClear s own opp → AllClear (opposite s) opp own
AllClear-flip s own [] a = tt
AllClear-flip s own (m ∷ opp) a =
    (Clear-head s m own opp a, AllClear-flip s own opp (AllClear-tail s m own opp a))

handle_in-swap :
    (k : OrderId) (xs ys : List Order)
    → count k xs + count k ys ≤ 1
    → handle_in k xs ys ≡ handle_in k ys xs
handle_in-swap k xs ys h = elim (zero_or k xs ys h) [
  | inl z ↦ ground (arith, locate_of_count k xs z)
  | inr z ↦ ground (arith, locate_of_count k ys z)
]
  where
    zero_or :
        (k : OrderId) (xs ys : List Order)
        → count k xs + count k ys ≤ 1
        → (count k xs ≡ 0) ⊎ (count k ys ≡ 0)
    zero_or k xs ys h = ground arith

pub IsPair-flip :
    (s : Side) (own opp : List Level) (index : Index)
    → IsPair s own opp index
    → IsPair (opposite s) opp own index
IsPair-flip s own opp index v = record {
  own_levels = v.opp_levels;
  opp_levels = rw (opposite_twice s) v.own_levels;
  own_sorted = v.opp_sorted;
  opp_sorted = rw (opposite_twice s) v.own_sorted;
  distinct = λ k. omega (arith, v.distinct k);
  tracked = λ k. v.tracked k ∙ handle_in-swap k (flatten own) (flatten opp) (v.distinct k);
  clear = AllClear-flip s own opp v.clear;
}

match_levels-AllClear :
    (s : Side) (own : List Level) (id : OrderId) (side : Side) (limit : Price) (ls : List Level)
    (index : Index) (f : Fill)
    → AllClear s ls own
    → AllClear s (match_levels id side limit ls index f).book own
match_levels-AllClear s own id side limit [] index f a = unfold match_levels in a
match_levels-AllClear s own id side limit (l ∷ ls) index f (a, as') =
    match_levels_cases (λ m. AllClear s m.book own) id side limit l ls index f (λ _. (a, as'))
      (λ _ _. match_levels-AllClear s own id side limit ls _ _ as')
      (λ _ _. (rw (consume_level-price id side l.price l.total l.orders index f) a, as'))

-- The sweep over a side, here called the pair's own, keeps the invariant.
pub match_levels-IsPair :
    (s : Side) (own opp : List Level) (index : Index) (id : OrderId) (side : Side) (limit : Price)
    (f : Fill)
    → IsPair s own opp index
    → let m = match_levels id side limit own index f in IsPair s m.book opp m.index
match_levels-IsPair s own opp index id side limit f v = record {
  own_levels = match_levels-AreLevels id side s limit own index f v.own_levels;
  opp_levels = v.opp_levels;
  own_sorted = match_levels-IsSorted id side s limit own index f v.own_sorted;
  opp_sorted = v.opp_sorted;
  distinct = λ k. omega (
    arith,
    v.distinct k,
    ap (λ p. count k p.0) (match_levels-take_front id side s limit own index f v.own_levels),
    count-take_front k id side limit (flatten own) f,
  );
  tracked = match_levels-Tracks id side limit own (flatten opp) index f v.distinct v.tracked;
  clear = match_levels-AllClear s opp id side limit own index f v.clear;
}

pub not_found :
    (k : OrderId) (xs ys : List Order) → handle_in k xs ys ≡ none → count k xs + count k ys ≡ 0
not_found k xs ys h =
    omega (arith, count_of_locate k xs (ground arith), count_of_locate k ys (ground arith))

push-Clear :
    (s : Side) (o : Order) (opp : List Level) (l : Level) (ls : List Level)
    → Clear s o.price opp
    → Clear s l.price opp
    → AllClear s ls opp
    → AllClear s (push_order s o ls) opp
    → AllClear s (push_order s o (l ∷ ls)) opp
unfolding push_order push_back
push-Clear s o opp l ls h a as' ih = elim (Bool-cases (better s o.price l.price)) [
  | inl b ↦ rw b (h, (a, as'))
  | inr b ↦ elim (Bool-cases (eq? l.price o.price)) [
    | inl q ↦ rw (b, q) (a, as')
    | inr q ↦ rw (b, q) (a, ih)
  ]
]

push_order-AllClear :
    (s : Side) (o : Order) (opp ls : List Level)
    → Clear s o.price opp
    → AllClear s ls opp
    → AllClear s (push_order s o ls) opp
push_order-AllClear s o opp [] h a = unfold push_order push_back in (h, tt)
push_order-AllClear s o opp (l ∷ ls) h (a, as') =
    push-Clear s o opp l ls h a as' (push_order-AllClear s o opp ls h as')

-- `rest` keeps the invariant, where the id is new and the price crosses nothing.
pub push_order-IsPair :
    (s : Side) (own opp : List Level) (index : Index) (o : Order)
    → o.side ≡ s
    → 0 < o.open_qty
    → find o.id index ≡ none
    → Clear s o.price opp
    → IsPair s own opp index
    → IsPair s (push_order s o own) opp (emplace o.id (handle_of o) index)
push_order-IsPair s own opp index o e h new c v = record {
  own_levels = push_order-AreLevels s o own e h v.own_levels;
  opp_levels = v.opp_levels;
  own_sorted = push_order-IsSorted s o own v.own_sorted;
  opp_sorted = v.opp_sorted;
  distinct = λ k. distinct_push k (Bool-cases (o.id == k));
  tracked = λ k.
      find-emplace k o.id (handle_of o) index new
      ∙ rw flat (tracked_push k (Bool-cases (o.id == k)));
  clear = push_order-AllClear s o opp own c v.clear;
}
  where
    flat : flatten (push_order s o own) ≡ insert s o (flatten own)
    flat = push_order-insert s o own v.own_levels v.own_sorted

    absent : count o.id (flatten own) + count o.id (flatten opp) ≡ 0
    absent = not_found o.id (flatten own) (flatten opp) (sym (v.tracked o.id) ∙ new)

    distinct_push :
        (k : OrderId)
        → ((o.id == k) ≡ true) ⊎ ((o.id == k) ≡ false)
        → count k (flatten (push_order s o own)) + count k (flatten opp) ≤ 1
    distinct_push k (inl q) = ground (
      arith,
      absent,
      ap (count k) flat,
      count-insert k s o (flatten own),
      ==→eq o.id k q,
      ap (λ j. count j (flatten own)) (==→eq o.id k q),
      ap (λ j. count j (flatten opp)) (==→eq o.id k q),
    )
    distinct_push k (inr q) =
        ground (arith, v.distinct k, ap (count k) flat, count-insert k s o (flatten own))

    tracked_push :
        (k : OrderId)
        → ((o.id == k) ≡ true) ⊎ ((o.id == k) ≡ false)
        → (if o.id == k then some (handle_of o) else find k index)
          ≡ handle_in k (insert s o (flatten own)) (flatten opp)
    tracked_push k (inl q) =
        rw (q, ← ==→eq o.id k q)
          (ground (
            arith,
            locate-insert_self s o (flatten own)
                (locate_of_count o.id (flatten own) (omega (arith, absent))),
          ))
    tracked_push k (inr q) =
        rw q (ground (arith, v.tracked k, locate-insert_ne k s o (flatten own) q))
