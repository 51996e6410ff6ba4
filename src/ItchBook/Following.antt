-- ===== src/ItchBook/Following.antt =====
-- The calls of the reference book, told to the client's book of src/client/itch_book.cpp.
use mathlib.Core.List.{append_assoc, append-nil}
use nasdaq_matching_engine.Common.{
  ℕ, ◌≡◌, refl, sym, ap, ◌∙◌, List, [], ◌∷◌, ◌++◌, none, some, inl, inr, Option-cases,
}
use nasdaq_matching_engine.Common.Maps.{find}
use nasdaq_matching_engine.Types.{Price, Qty, OrderId, Side, buy, sell}
use nasdaq_matching_engine.Book.{Event, added}
use nasdaq_matching_engine.Book.Priority.{locate, or_else}
use nasdaq_matching_engine.Book.Reference.{OrderBook, match_side, rest, emit}
use nasdaq_matching_engine.Book.Reference.Valid.{flatten, handle_in, handle_of, IsValid}
use nasdaq_matching_engine.Book.Reference.Sides.{IsPair-of, IsValid-of}
use nasdaq_matching_engine.Book.Reference.Entering.{start_fill, matched-IsPair, still_new}
use nasdaq_matching_engine.ItchBook.{ItchBookBuilder}
use nasdaq_matching_engine.ItchBook.Steps.{entry_of}
use nasdaq_matching_engine.ItchBook.Replay.{Stamp, tell, tell_all}
use nasdaq_matching_engine.ItchBook.Matching.{match_levels-Follows, tell_all-append}
use nasdaq_matching_engine.ItchBook.Books.{
  Mirrors, Shows-flip, AreSides-own, Shows-own, added-Shows,
}

module _ (stamp : Stamp) (symbol : List ℕ) where
  -- The events that a call added to the log lead the client's book after it.
  pub record Told (r r' : OrderBook) (b : ItchBookBuilder) : Type 0 where
    pub events : List Event
    pub logged : r'.log ≡ r.log ++ events
    pub mirrors : Mirrors symbol r' (tell_all stamp symbol events b)

  pub nothing-Told : (r : OrderBook) (b : ItchBookBuilder) → Mirrors symbol r b → Told r r b
  unfolding tell_all
  nothing-Told r b m = record { events = []; logged = sym (append-nil r.log); mirrors = m }

  pub one-Told :
      (e : Event) (r r' : OrderBook) (b : ItchBookBuilder)
      → r'.log ≡ r.log ++ e ∷ []
      → Mirrors symbol r' (tell stamp symbol e b)
      → Told r r' b
  unfolding tell_all
  one-Told e r r' b l m = record { events = e ∷ []; logged = l; mirrors = m }

  pub Told-trans :
      (r r₁ r₂ : OrderBook) (b : ItchBookBuilder)
      → (t : Told r r₁ b) → Told r₁ r₂ (tell_all stamp symbol t.events b)
      → Told r r₂ b
  Told-trans r r₁ r₂ b t u = record {
    events = t.events ++ u.events;
    logged = u.logged ∙ ap (λ l. l ++ u.events) t.logged ∙ append_assoc r.log t.events u.events;
    mirrors = rw (tell_all-append stamp symbol t.events u.events b) u.mirrors;
  }

  pub match_side-Told :
      (id : OrderId) (s : Side) (limit : Price) (qty : Qty) (r : OrderBook) (b : ItchBookBuilder)
      → IsValid r
      → Mirrors symbol r b
      → Told r (match_side id s limit qty r).1 b
  unfolding match_side
  match_side-Told id buy limit qty r b v m =
      let f =
        match_levels-Follows stamp symbol sell r.bids id buy limit r.asks r.index (start_fill qty r)
          b (AreSides-own sell r v) (Shows-own symbol sell r b v.distinct m) in
      record {
        events = f.events;
        logged = f.logged;
        mirrors = Shows-flip symbol sell _ r.bids _ f.sides.distinct f.shows;
      }
  match_side-Told id sell limit qty r b v m =
      let f =
        match_levels-Follows stamp symbol buy r.asks id sell limit r.bids r.index (start_fill qty r)
          b (AreSides-own buy r v) m in
      record { events = f.events; logged = f.logged; mirrors = f.shows }

  pub match_side-IsValid :
      (id : OrderId) (s : Side) (limit : Price) (qty : Qty) (r : OrderBook)
      → IsValid r
      → IsValid (match_side id s limit qty r).1
  unfolding match_side
  match_side-IsValid id buy limit qty r v =
      IsValid-of buy _ (
        matched-IsPair id buy limit qty r.bids r.asks r.index (start_fill qty r)
          (IsPair-of buy r v))
  match_side-IsValid id sell limit qty r v = IsValid-of sell _ (
      matched-IsPair id sell limit qty r.asks r.bids r.index (start_fill qty r)
        (IsPair-of sell r v))

  pub match_side-new :
      (id : OrderId) (s : Side) (limit : Price) (qty : Qty) (r : OrderBook)
      → IsValid r
      → find id r.index ≡ none
      → find id (match_side id s limit qty r).1.index ≡ none
  unfolding match_side
  match_side-new id buy limit qty r v n =
      still_new id buy limit qty r.bids r.asks r.index (start_fill qty r) (IsPair-of buy r v) n
  match_side-new id sell limit qty r v n =
      still_new id sell limit qty r.asks r.bids r.index (start_fill qty r) (IsPair-of sell r v) n

  -- An id that the index does not find has no order.
  pub no_order :
      (id : OrderId) (r : OrderBook)
      → IsValid r
      → find id r.index ≡ none
      → or_else (locate id (flatten r.bids)) (locate id (flatten r.asks)) ≡ none
  no_order id r v n =
      elim (Option-cases (or_else (locate id (flatten r.bids)) (locate id (flatten r.asks)))) [
        | inl e ↦ e
        | inr (o, e) ↦
            let there : handle_in id (flatten r.bids) (flatten r.asks) ≡ some (handle_of o) =
              rw (handle_in, e) refl in
            cc (v.tracked id, n, there)
      ]

  pub rest-Told :
      (id : OrderId) (s : Side) (price : Price) (q : Qty) (r : OrderBook) (b : ItchBookBuilder)
      → IsValid r
      → IsValid (rest id s price q r)
      → find id r.index ≡ none
      → Mirrors symbol r b
      → Told r (emit (added id s price q) (rest id s price q r)) b
  unfolding rest emit
  rest-Told id buy price q r b v v' n m = one-Told (added id buy price q) r _ b refl (
      added-Shows stamp symbol buy r.bids r.asks b (AreSides-own buy r v) m id price q
        (m.entries id ∙ ap (entry_of symbol) (no_order id r v n)))
  rest-Told id sell price q r b v v' n m =
      let sh =
        added-Shows stamp symbol sell r.asks r.bids b (AreSides-own sell r v)
          (Shows-own symbol sell r b v.distinct m) id price q
          (m.entries id ∙ ap (entry_of symbol) (no_order id r v n)) in
      one-Told (added id sell price q) r _ b refl
        (Shows-flip symbol sell _ r.bids _ (AreSides-own sell _ v').distinct sh)
