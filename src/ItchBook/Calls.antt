-- ===== src/ItchBook/Calls.antt =====
-- Every call of the reference book, told to the client's book of src/client/itch_book.cpp.
use nasdaq_matching_engine.Common.{
  ℕ, ◌-◌, ◌<◌, ◌≡◌, refl, ap, true, false, ◌||◌, List, [], ◌∷◌, ◌++◌, none, some, ◌==◌, leb, ltb,
  arith, Bool-cases, inl, inr,
}
use nasdaq_matching_engine.Common.Int.{le?, pos}
use nasdaq_matching_engine.Common.Words.{word32}
use nasdaq_matching_engine.Common.Maps.{find, contains}
use nasdaq_matching_engine.Types.{Price, Qty, OrderId, Side, buy, sell}
use nasdaq_matching_engine.Book.{added, canceled, replaced, Order, opposite}
use nasdaq_matching_engine.Book.Priority.{locate}
use nasdaq_matching_engine.Book.Reference.{
  OrderBook, side_of, with_side, erase_from, reduce_at, match_side, rest, emit, enter, add, remove,
  cancel, cancel_order, would_cross, replace, replace_order, replace_found,
}
use nasdaq_matching_engine.Book.Reference.Valid.{flatten, handle_of, IsValid}
use nasdaq_matching_engine.Book.Reference.Sides.{emit-IsValid}
use nasdaq_matching_engine.Book.Reference.Entering.{enter-IsValid}
use nasdaq_matching_engine.Book.Reference.Cancelling.{
  Found, lookup_cases, remove-IsValid, cancel-Found,
}
use nasdaq_matching_engine.Book.Reference.Replacing.{
  rest-IsValid, replace_found_lem, new_after_remove,
}
use nasdaq_matching_engine.Book.Reference.Adding.{contains_not}
use nasdaq_matching_engine.ItchBook.{ItchBookBuilder}
use nasdaq_matching_engine.ItchBook.Replay.{
  Stamp, tell, tell_all, erase_from-AreSides, reduce_at-AreSides,
}
use nasdaq_matching_engine.ItchBook.Books.{
  Mirrors, Shows-flip, AreSides-own, Shows-own, Mirrors-own, deleted-Shows, canceled-Shows,
  replaced-Shows,
}
use nasdaq_matching_engine.ItchBook.Following.{
  Told, nothing-Told, one-Told, Told-trans, match_side-Told, match_side-IsValid, match_side-new,
  no_order, rest-Told,
}
use nasdaq_matching_engine.ItchBook.Outcomes.{
  enter-rests, enter-done, log-with_side, cancel-missing, replace-missing, none_both,
  unemit-IsValid,
}

module _ (stamp : Stamp) (symbol : List ℕ) where
  enter-Told :
      (id : OrderId) (s : Side) (price : Price) (qty : Qty) (r : OrderBook) (b : ItchBookBuilder)
      → IsValid r
      → find id r.index ≡ none
      → qty < word32
      → Mirrors symbol r b
      → Told stamp symbol r (enter id s price qty r).1 b
  enter-Told id s price qty r b v n k m =
      let r₁ = (match_side id s price qty r).1 in
      let left = qty - (match_side id s price qty r).0.filled in
      let t = match_side-Told stamp symbol id s price qty r b v m in
      let v₁ = match_side-IsValid stamp symbol id s price qty r v in
      let n₁ = match_side-new stamp symbol id s price qty r v n in
      elim (Bool-cases (ltb 0 left)) [
        | inl e ↦
            let result : (enter id s price qty r).1
                ≡ emit (added id s price left) (rest id s price left r₁) =
              enter-rests id s price qty r e in
            let v₂ : IsValid (emit (added id s price left) (rest id s price left r₁)) =
              rw result at (enter-IsValid id s price qty r v n k) in
            rw result (
              Told-trans stamp symbol r r₁ _ b t (
                rest-Told stamp symbol id s price left r₁ (tell_all stamp symbol t.events b) v₁
                  (unemit-IsValid _ _ v₂) n₁ t.mirrors))
        | inr e ↦ rw (enter-done id s price qty r e) t
      ]

  remove-Told :
      (id : OrderId) (o : Order) (r : OrderBook) (b : ItchBookBuilder)
      → IsValid r
      → Found id r o
      → Mirrors symbol r b
      → Told stamp symbol r (emit (canceled id o.open_qty true) (remove id (handle_of o) o r)) b
  unfolding remove emit
  remove-Told id o r b v f m =
      let own = side_of o.side r in
      let opp = side_of (opposite o.side) r in
      let w = AreSides-own o.side r v in
      let e = canceled id o.open_qty true in
      let sh =
        deleted-Shows stamp symbol o.side own opp b w (Shows-own symbol o.side r b v.distinct m) id
          o o.open_qty refl f.here in
      let ls = erase_from id o.open_qty o.price own in
      one-Told stamp symbol e r _ b (ap (λ l. l ++ e ∷ []) (log-with_side o.side ls r)) (
        Mirrors-own symbol o.side ls r (tell stamp symbol e b)
          (erase_from-AreSides o.side own opp id o w f.here) sh)

  reduce-Told :
      (id : OrderId) (keep : Qty) (o : Order) (r : OrderBook) (b : ItchBookBuilder)
      → IsValid r
      → Found id r o
      → 0 < keep
      → keep < o.open_qty
      → Mirrors symbol r b
      → Told stamp symbol r
          (emit
            (canceled id (o.open_qty - keep) false)
            (with_side o.side (reduce_at id keep (o.open_qty - keep) o.price (side_of o.side r)) r))
          b
  unfolding emit
  reduce-Told id keep o r b v f h l m =
      let own = side_of o.side r in
      let opp = side_of (opposite o.side) r in
      let w = AreSides-own o.side r v in
      let e = canceled id (o.open_qty - keep) false in
      let sh =
        canceled-Shows stamp symbol o.side own opp b w (Shows-own symbol o.side r b v.distinct m) id
          o keep h l f.here in
      let ls = reduce_at id keep (o.open_qty - keep) o.price own in
      one-Told stamp symbol e r _ b (ap (λ l. l ++ e ∷ []) (log-with_side o.side ls r)) (
        Mirrors-own symbol o.side ls r (tell stamp symbol e b)
          (reduce_at-AreSides o.side own opp id keep o h l w f.here) sh)

  pub cancel-Told :
      (id : OrderId) (keep : Qty) (r : OrderBook) (b : ItchBookBuilder)
      → IsValid r
      → Mirrors symbol r b
      → Told stamp symbol r (cancel id keep r).1 b
  unfolding cancel_order
  cancel-Told id keep r b v m = elim (lookup_cases id r v) [
    | inl (n, i) ↦ rw (cancel-missing id keep r i) (nothing-Told stamp symbol r b m)
    | inr (o, f) ↦ rw (cancel-Found id keep r o f) (elim (Bool-cases (leb o.open_qty keep)) [
      | inl l ↦ rw (cancel_order, l) (nothing-Told stamp symbol r b m)
      | inr l ↦ elim (Bool-cases (keep == 0)) [
        | inl z ↦ rw (cancel_order, l) (rw z (remove-Told id o r b v f m))
        | inr z ↦
            rw (cancel_order, l)
              (rw z (reduce-Told id keep o r b v f (ground (arith, z)) (ground (arith, l)) m))
      ]
    ])
  ]

  pub add-Told :
      (id : OrderId) (s : Side) (price : Price) (qty : Qty) (r : OrderBook) (b : ItchBookBuilder)
      → IsValid r
      → qty < word32
      → Mirrors symbol r b
      → Told stamp symbol r (add id s price qty r).1 b
  unfolding add
  add-Told id s price qty r b v k m = elim (Bool-cases (le? price (pos 0))) [
    | inl p ↦ rw (add, p) (nothing-Told stamp symbol r b m)
    | inr p ↦ elim (Bool-cases (qty == 0)) [
      | inl q ↦ rw (add, p) (rw q (nothing-Told stamp symbol r b m))
      | inr q ↦ elim (Bool-cases (contains id r.index)) [
        | inl c ↦ rw (add, p) (rw q (rw c (nothing-Told stamp symbol r b m)))
        | inr c ↦
            rw (add, p) (rw q (rw c (enter-Told id s price qty r b v (contains_not id r c) k m)))
      ]
    ]
  ]

  -- A replacement that rests.
  replaced-Told :
      (old new : OrderId) (s : Side) (price : Price) (qty : Qty) (o : Order) (r : OrderBook)
      (b : ItchBookBuilder)
      → IsValid r
      → o.side ≡ s
      → locate old (flatten (side_of s r)) ≡ some o
      → IsValid (remove old (record { side = s; price = o.price }) o r)
      → find new (remove old (record { side = s; price = o.price }) o r).index ≡ none
      → IsValid (rest new s price qty (remove old (record { side = s; price = o.price }) o r))
      → Mirrors symbol r b
      → Told stamp symbol r
          (emit
            (replaced old new s price qty)
            (rest new s price qty (remove old (record { side = s; price = o.price }) o r)))
          b
  unfolding remove rest emit
  replaced-Told old new buy price qty o r b v side e v₁ n v₂ m =
      one-Told stamp symbol (replaced old new buy price qty) r _ b refl (
        replaced-Shows stamp symbol buy r.bids r.asks b (AreSides-own buy r v) m old new o price qty
          side e (no_order stamp symbol new _ v₁ n))
  replaced-Told old new sell price qty o r b v side e v₁ n v₂ m =
      let sh =
        replaced-Shows stamp symbol sell r.asks r.bids b (AreSides-own sell r v)
          (Shows-own symbol sell r b v.distinct m) old new o price qty side e
          (none_both (locate new (flatten r.bids))
            (locate new (flatten (erase_from old o.open_qty o.price r.asks)))
            (no_order stamp symbol new _ v₁ n)) in
      one-Told stamp symbol (replaced old new sell price qty) r _ b refl
        (Shows-flip symbol sell _ r.bids _ (AreSides-own sell _ v₂).distinct sh)

  replace_order-Told :
      (old new : OrderId) (price : Price) (qty : Qty) (o : Order) (r : OrderBook)
      (b : ItchBookBuilder)
      → IsValid r
      → Found old r o
      → find new (remove old (handle_of o) o r).index ≡ none
      → 0 < qty
      → qty < word32
      → Mirrors symbol r b
      → Told stamp symbol r
          (replace_order old new o.side o.open_qty price qty (remove old (handle_of o) o r))
          b
  unfolding replace_order
  replace_order-Told old new price qty o r b v f n h k m =
      let r₁ = remove old (handle_of o) o r in
      let v₁ = remove-IsValid old r o v f in
      elim (Bool-cases (would_cross o.side price r₁)) [
        | inl c ↦
            let e = canceled old o.open_qty true in
            let t = remove-Told old o r b v f m in
            rw c (
              Told-trans stamp symbol r (emit e r₁) _ b t (
                enter-Told new o.side price qty (emit e r₁) (tell_all stamp symbol t.events b)
                  (emit-IsValid e r₁ v₁) (unfold emit in n) k t.mirrors))
        | inr c ↦ rw c (
            replaced-Told old new o.side price qty o r b v refl f.here v₁ n
              (rest-IsValid new o.side price qty r₁ v₁ n h c) m)
      ]

  pub replace-Told :
      (old new : OrderId) (price : Price) (qty : Qty) (r : OrderBook) (b : ItchBookBuilder)
      → IsValid r
      → qty < word32
      → Mirrors symbol r b
      → Told stamp symbol r (replace old new price qty r).1 b
  unfolding replace_found
  replace-Told old new price qty r b v k m = elim (lookup_cases old r v) [
    | inl (n, i) ↦ rw (replace-missing old new price qty r i) (nothing-Told stamp symbol r b m)
    | inr (o, f) ↦
        rw (replace_found_lem old new price qty r o f)
          (elim (Bool-cases (new == old || contains new r.index || le? price (pos 0) || qty == 0)) [
            | inl e ↦ rw e (nothing-Told stamp symbol r b m)
            | inr e ↦ rw e (
                replace_order-Told old new price qty o r b v f
                  (new_after_remove old new o r (contains_not new r (ground (arith, e))))
                  (ground (arith, e)) k m)
          ])
  ]
