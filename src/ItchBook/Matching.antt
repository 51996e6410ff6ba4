-- ===== src/ItchBook/Matching.antt =====
-- The executions of a sweep, told to the client's book of src/client/itch_book.cpp.
use mathlib.Core.List.{append_assoc, append-nil}
use nasdaq_matching_engine.Common.{
  ℕ, ◌-◌, ◌<◌, ◌≡◌, refl, sym, ap, ◌∙◌, List, [], ◌∷◌, ◌++◌, some, ◌==◌, arith, Bool-cases, inl,
  inr, ==_self,
}
use nasdaq_matching_engine.Common.Words.{sub32}
use nasdaq_matching_engine.Common.Maps.{erase}
use nasdaq_matching_engine.Types.{Price, Qty, OrderId, Side}
use nasdaq_matching_engine.Book.{Event, executed, Order, Fill, execute, exec_qty, left_open}
use nasdaq_matching_engine.Book.Priority.{locate}
use nasdaq_matching_engine.Book.Reference.{Level, Index, erase_from, consume_level, match_levels}
use nasdaq_matching_engine.Book.Reference.Cases.{match_levels_cases}
use nasdaq_matching_engine.Book.Reference.Valid.{flatten}
use nasdaq_matching_engine.ItchBook.{ItchBookBuilder}
use nasdaq_matching_engine.ItchBook.Steps.{Shows, AreSides}
use nasdaq_matching_engine.ItchBook.Replay.{
  Stamp, tell, tell_all, erase_from-AreSides, reduce_at-AreSides, executed-gone, executed-less,
}
use nasdaq_matching_engine.ItchBook.Rounds.{
  drop_empty, erase_first, reduce_first, consume_level-next, consume_level-part, consume_level-stop,
  consume_level-none,
}

-- From a book that shows a side, the events logged since lead to one that shows the side as it is now.
pub record Follows (stamp : Stamp) (symbol : List ℕ) (s : Side) (opp : List Level)
    (b : ItchBookBuilder) (log log' : List Event) (ls : List Level) : Type 0 where
  pub events : List Event
  pub logged : log' ≡ log ++ events
  pub shows : Shows symbol s ls opp (tell_all stamp symbol events b)
  pub sides : AreSides s ls opp

-- The first order of the first level, used up or not.
module _ (stamp : Stamp) (symbol : List ℕ) (s : Side) (opp : List Level) (id : OrderId)
    (side : Side) where
  abbrev event_of : Order → Fill → Event
  event_of o f = executed o.id id side o.price (exec_qty f.qty o.open_qty) f.next_match_id

  log-execute : (o : Order) (f : Fill) → (execute id side o f).log ≡ f.log ++ event_of o f ∷ []
  unfolding execute
  log-execute o f = refl

  nothing-Follows :
      (b : ItchBookBuilder) (log : List Event) (ls : List Level)
      → AreSides s ls opp
      → Shows symbol s ls opp b
      → Follows stamp symbol s opp b log log ls
  unfolding tell_all
  nothing-Follows b log ls w sh = record {
    events = [];
    logged = sym (append-nil log);
    shows = sh;
    sides = w;
  }

  -- One more event in front.
  event-Follows :
      (e : Event) (b : ItchBookBuilder) (log log₁ log' : List Event) (ls : List Level)
      → log₁ ≡ log ++ e ∷ []
      → Follows stamp symbol s opp (tell stamp symbol e b) log₁ log' ls
      → Follows stamp symbol s opp b log log' ls
  unfolding tell_all
  event-Follows e b log log₁ log' ls g r = record {
    events = e ∷ r.events;
    logged = r.logged ∙ ap (λ l. l ++ r.events) g ∙ append_assoc log (e ∷ []) r.events;
    shows = r.shows;
    sides = r.sides;
  }

  module _ (p : Price) (ls : List Level) where
    abbrev level : Qty → List Order → Level
    level total os = record { price = p; total = total; orders = os }

    located :
        (o : Order) (os : List Order) (total : Qty)
        → locate o.id (flatten (level total (o ∷ os) ∷ ls)) ≡ some o
    unfolding locate
    located o os total = rw (==_self o.id) refl

    consume_level-Follows :
        (os : List Order) (total : Qty) (index : Index) (f : Fill) (b : ItchBookBuilder)
        → AreSides s (drop_empty (level total os) ls) opp
        → Shows symbol s (drop_empty (level total os) ls) opp b
        → let r = consume_level id side p total os index f in
          Follows stamp symbol s opp b f.log r.fill.log (drop_empty r.book ls)
    consume_level-Follows [] total index f b w sh =
        rw (consume_level-none id side p total index f) (nothing-Follows b f.log ls w sh)
    consume_level-Follows (o ∷ os) total index f b w sh =
        let (price, sided, some_open) = w.levels.0.fits.0 in
        let q = exec_qty f.qty o.open_qty in
        let e = event_of o f in
        let here = located o os total in
        elim (Bool-cases (f.qty == 0)) [
          | inl z ↦
              rw (consume_level-stop id side p total o os index f z)
                (nothing-Follows b f.log (level total (o ∷ os) ∷ ls) w sh)
          | inr z ↦ elim (Bool-cases ((left_open f o).open_qty == 0)) [
            | inl u ↦
                let all : q ≡ o.open_qty = ground (arith, u) in
                let first : erase_from o.id o.open_qty o.price (level total (o ∷ os) ∷ ls)
                    ≡ drop_empty (level (sub32 total q) os) ls =
                  erase_first o os p total ls price
                  ∙ ap (λ x. drop_empty (level (sub32 total x) os) ls) (sym all) in
                let sh₁ =
                  executed-gone stamp symbol s (level total (o ∷ os) ∷ ls) opp b w sh o.id id side
                    o.price q f.next_match_id o sided here (omega (arith, all)) in
                let w₁ = erase_from-AreSides s (level total (o ∷ os) ∷ ls) opp o.id o w here in
                rw (consume_level-next id side p total o os index f z u) (
                  event-Follows e b f.log (execute id side o f).log _ _ (log-execute o f) (
                    (consume_level-Follows os (sub32 total q) (erase o.id index)
                      (execute id side o f) (tell stamp symbol e b) (rw first at w₁)
                      (rw first at sh₁))))
            | inr u ↦
                let less : q < o.open_qty = ground (arith, u) in
                let some_taken : 0 < q = ground (arith, z, some_open) in
                let first = reduce_first o os p total ls (o.open_qty - q) q price in
                let sh₁ =
                  executed-less stamp symbol s (level total (o ∷ os) ∷ ls) opp b w sh o.id id side
                    o.price q f.next_match_id o here less in
                let back : o.open_qty - (o.open_qty - q) ≡ q = omega (arith, less) in
                let w₁ =
                  reduce_at-AreSides s (level total (o ∷ os) ∷ ls) opp o.id (o.open_qty - q) o
                    (omega (arith, less)) (omega (arith, some_taken, less)) w here in
                rw (consume_level-part id side p total o os index f z u) (
                  event-Follows e b f.log (execute id side o f).log _ _ (log-execute o f) (
                    nothing-Follows (tell stamp symbol e b) (execute id side o f).log _
                      (rw first at (rw back at w₁)) (rw first at sh₁)))
          ]
        ]

pub tell_all-append :
    (stamp : Stamp) (symbol : List ℕ) (es fs : List Event) (b : ItchBookBuilder)
    → tell_all stamp symbol (es ++ fs) b ≡ tell_all stamp symbol fs (tell_all stamp symbol es b)
unfolding tell_all
tell_all-append stamp symbol [] fs b = refl
tell_all-append stamp symbol (e ∷ es) fs b =
    tell_all-append stamp symbol es fs (tell stamp symbol e b)

pub Follows-trans :
    (stamp : Stamp) (symbol : List ℕ) (s : Side) (opp : List Level) (b : ItchBookBuilder)
    (log log₁ log₂ : List Event) (ls₁ ls₂ : List Level)
    → (f : Follows stamp symbol s opp b log log₁ ls₁)
    → Follows stamp symbol s opp (tell_all stamp symbol f.events b) log₁ log₂ ls₂
    → Follows stamp symbol s opp b log log₂ ls₂
Follows-trans stamp symbol s opp b log log₁ log₂ ls₁ ls₂ f g = record {
  events = f.events ++ g.events;
  logged = g.logged ∙ ap (λ l. l ++ g.events) f.logged ∙ append_assoc log f.events g.events;
  shows = rw (tell_all-append stamp symbol f.events g.events b) g.shows;
  sides = g.sides;
}

-- The events of a sweep lead the client's book to what the sweep leaves.
pub match_levels-Follows :
    (stamp : Stamp) (symbol : List ℕ) (s : Side) (opp : List Level) (id : OrderId) (side : Side)
    (limit : Price)
    → (ls : List Level) (index : Index) (f : Fill) (b : ItchBookBuilder) → AreSides s ls opp
    → Shows symbol s ls opp b
    → let r = match_levels id side limit ls index f in
      Follows stamp symbol s opp b f.log r.fill.log r.book
match_levels-Follows stamp symbol s opp id side limit [] index f b w sh =
    unfold match_levels in nothing-Follows stamp symbol s opp id side b f.log [] w sh
match_levels-Follows stamp symbol s opp id side limit (l ∷ ls) index f b w sh =
    let c = consume_level id side l.price l.total l.orders index f in
    let whole : drop_empty l ls ≡ l ∷ ls = rw w.levels.0.occupied refl in
    let g =
      consume_level-Follows stamp symbol s opp id side l.price ls l.orders l.total index f b
        (rw whole w) (rw whole sh) in
    match_levels_cases (λ m. Follows stamp symbol s opp b f.log m.fill.log m.book) id side limit l
      ls index f (λ _. nothing-Follows stamp symbol s opp id side b f.log (l ∷ ls) w sh)
      (λ _ z.
        let gone : drop_empty c.book ls ≡ ls = rw z refl in
        let g' : Follows stamp symbol s opp b f.log c.fill.log ls = rw gone at g in
        Follows-trans stamp symbol s opp b f.log c.fill.log _ ls _ g' (
          match_levels-Follows stamp symbol s opp id side limit ls c.index c.fill
            (tell_all stamp symbol g'.events b) g'.sides g'.shows))
      (λ _ z. let left : drop_empty c.book ls ≡ c.book ∷ ls = rw z refl in rw left at g)
