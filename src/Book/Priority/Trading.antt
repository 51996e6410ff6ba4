-- ===== src/Book/Priority/Trading.antt =====
-- Price-time priority as a relation: which trades an incoming order makes against a list of orders, and
-- what is left. The relation names neither `crosses` nor `execute`.
use nasdaq_matching_engine.Common.{
  ℕ, ◌-◌, ◌+◌, ◌%◌, ◌^◌, ◌≤◌, ◌<◌, ◌≡◌, ◌⊎◌, inl, inr, refl, sym, ◌∙◌, true, false, List, [], ◌∷◌,
  ◌++◌, arith, ◌==◌, ltb, Bool-cases,
}
use nasdaq_matching_engine.Common.Int.{◌≤ℤ◌, ◌<ℤ◌}
use nasdaq_matching_engine.Common.Words.{add64}
use mathlib.Core.List.{append_assoc, append-nil}
use nasdaq_matching_engine.Types.{Price, Qty, OrderId, Side, buy, sell}
use nasdaq_matching_engine.Book.{Event, executed, Order, crosses, Fill, execute, left_open}
use nasdaq_matching_engine.Book.Priority.{take_front}

-- A buyer pays the limit at most, a seller gets it at least.
abbrev pub Within : Side → Price → Price → Type 0
Within buy limit p = p ≤ℤ limit
Within sell limit p = limit ≤ℤ p

abbrev pub Beyond : Side → Price → Price → Type 0
Beyond buy limit p = limit <ℤ p
Beyond sell limit p = p <ℤ limit

pub record Outcome : Type 0 where
  pub events : List Event
  pub orders : List Order
  pub qty : Qty
  pub next_match_id : ℕ

-- The first order is not worked on, nor any behind it.
pub record Stops (s : Side) (limit : Price) (o : Order) (os : List Order) (qty : Qty) (n : ℕ)
    (r : Outcome) : Type 0 where
  pub why : (qty ≡ 0) ⊎ Beyond s limit o.price
  pub result : r ≡ record { events = []; orders = o ∷ os; qty = qty; next_match_id = n }

-- The first order has more than is asked for: it keeps its place and the rest of its shares.
pub record FillsPart (id : OrderId) (s : Side) (limit : Price) (o : Order) (os : List Order)
    (qty : Qty) (n : ℕ) (r : Outcome) : Type 0 where
  pub asked : 0 < qty
  pub within : Within s limit o.price
  pub fewer : qty < o.open_qty
  pub result : r ≡ record {
    events = executed o.id id s o.price qty n ∷ [];
    orders = record o { open_qty = o.open_qty - qty } ∷ os;
    qty = 0;
    next_match_id = (n + 1) % 2 ^ 64;
  }

-- An order trades against the orders from the front on: it stops where nothing is left of it or the
-- price is beyond its limit; each order is used up before the next one; a trade has the resting
-- order's id and price, the shares that both have, and the next match number.
pub Trades : OrderId → Side → Price → List Order → Qty → ℕ → Outcome → Type 0
Trades id s limit [] qty n r = r ≡ record { events = []; orders = []; qty = qty; next_match_id = n }
Trades id s limit (o ∷ os) qty n r =
    Stops s limit o os qty n r
    ⊎ (FillsPart id s limit o os qty n r
        ⊎ ((0 < qty)
            × Within s limit o.price
            × (o.open_qty ≤ qty)
            × (rest : List Event) × (r.events ≡ executed o.id id s o.price o.open_qty n ∷ rest)
            × Trades id s limit os (qty - o.open_qty) ((n + 1) % 2 ^ 64)
                (record r { events = rest })))

crosses-Within :
    (s : Side) (limit p : Price)
    → ((crosses s limit p ≡ true) × Within s limit p)
      ⊎ ((crosses s limit p ≡ false) × Beyond s limit p)
crosses-Within buy limit p = elim (Bool-cases (crosses buy limit p)) [
  | inl e ↦ inl (e, ground (arith, e))
  | inr e ↦ inr (e, ground (arith, e))
]
crosses-Within sell limit p = elim (Bool-cases (crosses sell limit p)) [
  | inl e ↦ inl (e, ground (arith, e))
  | inr e ↦ inr (e, ground (arith, e))
]

-- What a scan from `f` to `g` logged, as an outcome.
abbrev pub LogsTrades : OrderId → Side → Price → List Order → Fill → List Order × Fill → Type 0
LogsTrades id s limit os f (os', g) =
    (es : List Event) × (g.log ≡ f.log ++ es)
    × Trades id s limit os f.qty f.next_match_id
        (record { events = es; orders = os'; qty = g.qty; next_match_id = g.next_match_id })

stops_here :
    (id : OrderId) (s : Side) (limit : Price) (o : Order) (os : List Order) (f : Fill)
    → (f.qty ≡ 0) ⊎ Beyond s limit o.price
    → LogsTrades id s limit (o ∷ os) f (o ∷ os, f)
unfolding Trades
stops_here id s limit o os f y =
    ([], sym (append-nil f.log), inl (record { why = y; result = refl }))

fills_part :
    (id : OrderId) (s : Side) (limit : Price) (o : Order) (os : List Order) (f : Fill)
    → 0 < f.qty
    → Within s limit o.price
    → f.qty < o.open_qty
    → LogsTrades id s limit (o ∷ os) f (left_open f o ∷ os, execute id s o f)
unfolding Trades execute add64
fills_part id s limit o os f a w l = (
  executed o.id id s o.price f.qty f.next_match_id ∷ [],
  ground (arith, l),
  inr (inl (record { asked = a; within = w; fewer = l; result = ground (arith, l) })),
)

uses_up :
    (id : OrderId) (s : Side) (limit : Price) (o : Order) (os : List Order) (f : Fill)
    → 0 < f.qty
    → Within s limit o.price
    → o.open_qty ≤ f.qty
    → (t : List Order × Fill) → LogsTrades id s limit os (execute id s o f) t
    → LogsTrades id s limit (o ∷ os) f t
unfolding Trades execute add64
uses_up id s limit o os f a w l (os', g) (es, logged, t) =
    let event = executed o.id id s o.price o.open_qty f.next_match_id in
    let whole : ltb f.qty o.open_qty ≡ false = ground (arith, l) in
    (
      event ∷ es,
      rw whole at logged ∙ append_assoc f.log (event ∷ []) es,
      inr (inr (a, w, l, es, refl, rw whole at t)),
    )

-- The scan of the contract makes these trades.
pub take_front-LogsTrades :
    (id : OrderId) (s : Side) (limit : Price) (os : List Order) (f : Fill)
    → LogsTrades id s limit os f (take_front id s limit os f)
unfolding take_front Trades
take_front-LogsTrades id s limit [] f = ([], sym (append-nil f.log), refl)
take_front-LogsTrades id s limit (o ∷ os) f = elim (Bool-cases (f.qty == 0)) [
  | inl z ↦ rw z (stops_here id s limit o os f (inl (ground (arith, z))))
  | inr z ↦ elim (crosses-Within s limit o.price) [
    | inr (e, y) ↦ rw (z, e) (stops_here id s limit o os f (inr y))
    | inl (e, w) ↦ elim (Bool-cases ((left_open f o).open_qty == 0)) [
      | inl g ↦
          rw (z, e, g)
            (uses_up id s limit o os f (ground (arith, z)) w (ground (arith, g))
              (take_front id s limit os (execute id s o f))
              (take_front-LogsTrades id s limit os (execute id s o f)))
      | inr g ↦
          rw (z, e, g) (fills_part id s limit o os f (ground (arith, z)) w (ground (arith, g)))
    ]
  ]
]
