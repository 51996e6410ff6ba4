-- ===== src/Engine/Listening.antt =====
-- The listener calls of src/engine/engine.cpp leave the tokens that were used as they are.
use nasdaq_matching_engine.Common.{
  ℕ, ◌≡◌, refl, ◌∙◌, List, [], ◌∷◌, Bool, true, false, Option, none, some, ◌==◌, if◌then◌else◌,
  Bool-cases, inl, inr,
}
use nasdaq_matching_engine.Common.Maps.{find}
use nasdaq_matching_engine.Common.Words.{sub32}
use nasdaq_matching_engine.Types.{Price, Qty, OrderId}
use nasdaq_matching_engine.Book.{Event}
use nasdaq_matching_engine.Book
use nasdaq_matching_engine.Engine.{OrderInfo, Engine, Key, respond, publish}
use nasdaq_matching_engine.Engine.Events.{
  drop_order, lower_open, reduce_found, reduce_open, notify, notify_canceled, on_event, on_events,
  settle,
}

module _ {B : Type 0} where
  pub if-used :
      (b : Bool) (x y : Engine B) (used : List Key)
      → x.used_tokens ≡ used
      → y.used_tokens ≡ used
      → (if b then x else y).used_tokens ≡ used
  if-used true x y used h k = h
  if-used false x y used h k = k

  reduce_found-used :
      (id : OrderId) (by_ : Qty) (o : Option OrderInfo) (e : Engine B)
      → (reduce_found id by_ o e).used_tokens ≡ e.used_tokens
  unfolding reduce_found lower_open drop_order
  reduce_found-used id by_ none e = refl
  reduce_found-used id by_ (some info) e = elim (Bool-cases (sub32 info.open_qty by_ == 0)) [
    | inl h ↦ rw h refl
    | inr h ↦ rw h refl
  ]

  lower_open-used :
      (id : OrderId) (by_ : Qty) (o : Option OrderInfo) (e : Engine B)
      → (lower_open id by_ o e).used_tokens ≡ e.used_tokens
  unfolding lower_open
  lower_open-used id by_ none e = refl
  lower_open-used id by_ (some info) e = refl

  reduce_open-used :
      (id : OrderId) (by_ : Qty) (e : Engine B) → (reduce_open id by_ e).used_tokens ≡ e.used_tokens
  unfolding reduce_open
  reduce_open-used id by_ e = reduce_found-used id by_ (find id e.orders) e

  notify-used :
      (o : Option OrderInfo) (q : Qty) (price : Price) (match_id liquidity : ℕ) (e : Engine B)
      → (notify o q price match_id liquidity e).used_tokens ≡ e.used_tokens
  unfolding notify respond
  notify-used none q price match_id liquidity e = refl
  notify-used (some info) q price match_id liquidity e = refl

  notify_canceled-used :
      (o : Option OrderInfo) (q : Qty) (e : Engine B)
      → (notify_canceled o q e).used_tokens ≡ e.used_tokens
  unfolding notify_canceled respond
  notify_canceled-used none q e = refl
  notify_canceled-used (some info) q e = refl

  on_event-used : (ev : Event) (e : Engine B) → (on_event ev e).used_tokens ≡ e.used_tokens
  unfolding on_event publish
  on_event-used (Book.added id side price q) e = refl
  on_event-used (Book.executed resting aggressor side price q match_id) e =
      let e1 = publish (Book.executed resting aggressor side price q match_id) e in
      let o2 = find resting e1.orders in
      let e2 = notify o2 q price match_id b'A' e1 in
      let o3 = find aggressor e2.orders in
      let e3 = notify o3 q price match_id b'R' e2 in
      reduce_open-used aggressor q (reduce_open resting q e3)
      ∙ reduce_open-used resting q e3
      ∙ notify-used o3 q price match_id b'R' e2
      ∙ notify-used o2 q price match_id b'A' e1
  on_event-used (Book.canceled id q removed) e =
      let e1 = publish (Book.canceled id q removed) e in
      let e2 : Engine B =
        if e1.suppress_ouch_cancel then e1 else notify_canceled (find id e1.orders) q e1 in
      let same : e2.used_tokens ≡ e.used_tokens =
        if-used e1.suppress_ouch_cancel e1 (notify_canceled (find id e1.orders) q e1) e.used_tokens
          refl (notify_canceled-used (find id e1.orders) q e1) in
      if-used removed (reduce_open id q e2) (lower_open id q (find id e2.orders) e2) e.used_tokens
        (reduce_open-used id q e2 ∙ same) (lower_open-used id q (find id e2.orders) e2 ∙ same)
  on_event-used (Book.replaced old_id new_id side price q) e = refl

  on_events-used : (evs : List Event) (e : Engine B) → (on_events evs e).used_tokens ≡ e.used_tokens
  unfolding on_events
  on_events-used [] e = refl
  on_events-used (ev ∷ evs) e = on_events-used evs (on_event ev e) ∙ on_event-used ev e

  pub settle-used :
      (symbol : List ℕ) (r : List Event × B) (e : Engine B)
      → (settle symbol r e).used_tokens ≡ e.used_tokens
  unfolding settle
  settle-used symbol (evs, b) e = on_events-used evs _
