-- ===== src/Engine/Tokens.antt =====
-- What `used_tokens_` of src/engine/engine.cpp is for: tokens that come a second time.
use nasdaq_matching_engine.Common.{
  ℕ, ◌≡◌, ◌⊎◌, ◌<◌, refl, ◌∙◌, List, [], ◌∷◌, Bool, true, false, Option, none, some, not, ◌&&◌,
  ◌||◌, ltb, ◌==◌, if◌then◌else◌, Bool-cases, inl, inr, arith,
}
use nasdaq_matching_engine.Common.Int.{pos, le?, eq?, ◌<ℤ◌}
use nasdaq_matching_engine.Common.Maps.{find}
use nasdaq_matching_engine.Common.Words.{sub32}
use nasdaq_matching_engine.Types.{Qty, OrderId}
use nasdaq_matching_engine.Ouch.{market_price, tif_ioc}
use nasdaq_matching_engine.Ouch.Inbound.{EnterOrder, ReplaceOrder}
use nasdaq_matching_engine.Gateway.{Inbound, enter, cancel, replace, Command}
use nasdaq_matching_engine.Engine.{
  BookOps, OrderInfo, Engine, Key, key, find_key, has_key, same_key, same_chars, token_used,
  respond, reject,
}
use nasdaq_matching_engine.Engine.Events.{
  drop_order, settle, cancel_unrested, side_of_char, max_price,
}
use nasdaq_matching_engine.Engine.Handling.{
  register, book_for, accepted_for, trade_order, cancel_remainder, handle_enter, cancel_found,
  cancel_live, handle_cancel, replace_found, replace_live, handle_replace, handle, process,
}
use nasdaq_matching_engine.Engine.Listening.{if-used, settle-used}

module _ {B : Type 0} (ops : BookOps B) where
  cancel_remainder-used :
      (client : ℕ) (ref : OrderId) (t : List ℕ) (shares filled : Qty) (e : Engine B)
      → (cancel_remainder ops client ref t shares filled e).used_tokens ≡ e.used_tokens
  unfolding cancel_remainder cancel_unrested drop_order respond
  cancel_remainder-used client ref t shares filled e =
      if-used (ltb 0 (sub32 shares filled))
        (cancel_unrested client ref t (sub32 shares filled) b'I' e) e e.used_tokens refl refl

  trade_order-used :
      (client : ℕ) (ref : OrderId) (m : EnterOrder) (e : Engine B)
      → (trade_order ops client ref m e).used_tokens ≡ e.used_tokens
  unfolding trade_order cancel_unrested drop_order respond
  trade_order-used client ref m e =
      let limit =
        if eq? m.price market_price
        then (if m.side == b'B' then max_price else pos 1)
        else m.price in
      let side = side_of_char m.side in
      let book = book_for ops m.stock e in
      let (filled, swept) = ops.execute_ioc ref side limit m.shares book in
      let added = ops.add ref side m.price m.shares book in
      let now_or_never = eq? m.price market_price || (m.tif == tif_ioc) in
      let too_few = ltb 0 m.min_qty && ltb (ops.matchable side limit book) m.min_qty in
      let killed = cancel_unrested client ref m.token m.shares b'D' e in
      let gone = cancel_remainder ops client ref m.token m.shares filled (settle m.stock swept e) in
      let rested = settle m.stock added e in
      if-used too_few killed (if now_or_never then gone else rested) e.used_tokens refl (
        if-used now_or_never gone rested e.used_tokens
          (cancel_remainder-used client ref m.token m.shares filled (settle m.stock swept e)
            ∙ settle-used m.stock swept e)
          (settle-used m.stock added e))

  cancel_found-used :
      (ref : OrderId) (q : Qty) (o : Option OrderInfo) (e : Engine B)
      → (cancel_found ops ref q o e).used_tokens ≡ e.used_tokens
  unfolding cancel_found
  cancel_found-used ref q none e = refl
  cancel_found-used ref q (some info) e =
      settle-used info.symbol (ops.cancel ref q (book_for ops info.symbol e))
        (record e { current_symbol = info.symbol })

  cancel_live-used :
      (q : Qty) (o : Option OrderId) (e : Engine B)
      → (cancel_live ops q o e).used_tokens ≡ e.used_tokens
  unfolding cancel_live
  cancel_live-used q none e = refl
  cancel_live-used q (some ref) e = cancel_found-used ref q (find ref e.orders) e

  -- The state keeps the key or gets a new one in front of it.
  if-kept :
      (k : Key) (b : Bool) (x y : Engine B)
      → has_key k x.used_tokens ≡ true
      → has_key k y.used_tokens ≡ true
      → has_key k (if b then x else y).used_tokens ≡ true
  if-kept k true x y h i = h
  if-kept k false x y h i = i

  has_key-kept : (k j : Key) (ks : List Key) → has_key k ks ≡ true → has_key k (j ∷ ks) ≡ true
  has_key-kept k j ks h = elim (Bool-cases (same_key k j)) [ inl e ↦ rw e refl | inr e ↦ rw e h ]

  handle_enter-kept :
      (k : Key) (client : ℕ) (m : EnterOrder) (e : Engine B)
      → has_key k e.used_tokens ≡ true
      → has_key k (handle_enter ops client m e).used_tokens ≡ true
  unfolding handle_enter register respond reject
  handle_enter-kept k client m e h =
      let e1 = register ops client m.token m.stock (side_of_char m.side) m.shares e in
      let e2 = respond client (accepted_for ops e.next_ref m e1.now) e1 in
      let t = trade_order ops client e.next_ref m e2 in
      let no = λ (reason : ℕ). reject client m.token reason e in
      let kept : has_key k t.used_tokens ≡ true =
        rw (trade_order-used client e.next_ref m e2)
          (has_key-kept k (key client m.token) e.used_tokens h) in
      let bad_side = not (m.side == b'B') && not (m.side == b'S') in
      let s : Engine B = if bad_side then no b'S' else t in
      let z : Engine B = if m.shares == 0 then no b'Z' else s in
      let bad_price = not (eq? m.price market_price) && le? m.price (pos 0) in
      let x : Engine B = if bad_price then no b'X' else z in
      if-kept k (token_used client m.token e) (no b'T') x h (
        if-kept k bad_price (no b'X') z h
          (if-kept k (m.shares == 0) (no b'Z') s h (if-kept k bad_side (no b'S') t h kept)))

  replace_found-kept :
      (k : Key) (client : ℕ) (m : ReplaceOrder) (old_ref : OrderId) (o : Option OrderInfo)
      (e : Engine B)
      → has_key k e.used_tokens ≡ true
      → has_key k (replace_found ops client m old_ref o e).used_tokens ≡ true
  unfolding replace_found register respond
  replace_found-kept k client m old_ref none e h = h
  replace_found-kept k client m old_ref (some info) e h =
      rw (settle-used info.symbol _ _)
        (has_key-kept k (key client m.replacement_token) e.used_tokens h)

  replace_live-kept :
      (k : Key) (client : ℕ) (m : ReplaceOrder) (o : Option OrderId) (e : Engine B)
      → has_key k e.used_tokens ≡ true
      → has_key k (replace_live ops client m o e).used_tokens ≡ true
  unfolding replace_live
  replace_live-kept k client m none e h = h
  replace_live-kept k client m (some old_ref) e h =
      let done = replace_found ops client m old_ref (find old_ref e.orders) e in
      let bad = le? m.price (pos 0) || (m.shares == 0) in
      if-kept k (token_used client m.replacement_token e) e (if bad then e else done) h
        (if-kept k bad e done h (replace_found-kept k client m old_ref (find old_ref e.orders) e h))

  handle-kept :
      (k : Key) (client : ℕ) (m : Inbound) (e : Engine B)
      → has_key k e.used_tokens ≡ true
      → has_key k (handle ops client m e).used_tokens ≡ true
  unfolding handle handle_cancel handle_replace
  handle-kept k client (enter m) e h = handle_enter-kept k client m e h
  handle-kept k client (cancel m) e h =
      rw (cancel_live-used m.shares (find_key (key client m.token) e.live_tokens) e) h
  handle-kept k client (replace m) e h =
      replace_live-kept k client m (find_key (key client m.existing_token) e.live_tokens) e h

  -- Commands as they come, each with the time that the clock shows.
  unfoldable pub process_all : List (ℕ × Command) → Engine B → Engine B
  process_all [] e = e
  process_all ((now, cmd) ∷ cmds) e = process_all cmds (process ops now cmd e)

  process_all-kept :
      (k : Key) (cmds : List (ℕ × Command)) (e : Engine B)
      → has_key k e.used_tokens ≡ true
      → has_key k (process_all cmds e).used_tokens ≡ true
  unfolding process_all process
  process_all-kept k [] e h = h
  process_all-kept k ((now, cmd) ∷ cmds) e h =
      process_all-kept k cmds (process ops now cmd e)
        (handle-kept k cmd.client_id cmd.msg (record e { now = now }) h)

  -- The checks that an order must pass.
  pub record IsAcceptable (client : ℕ) (m : EnterOrder) (e : Engine B) : Type 0 where
    pub fresh : token_used client m.token e ≡ false
    pub priced : (m.price ≡ market_price) ⊎ (pos 0 <ℤ m.price)
    pub sized : 0 < m.shares
    pub sided : (m.side ≡ b'B') ⊎ (m.side ≡ b'S')

  same_chars_self : (s : List ℕ) → same_chars s s ≡ true
  same_chars_self [] = refl
  same_chars_self (c ∷ cs) = ground (arith, same_chars_self cs)

  same_key_self : (k : Key) → same_key k k ≡ true
  same_key_self (c, t) = ground (arith, same_chars_self t)

  accepted-used :
      (client : ℕ) (m : EnterOrder) (e : Engine B)
      → IsAcceptable client m e
      → has_key (key client m.token) (handle_enter ops client m e).used_tokens ≡ true
  unfolding handle_enter register respond
  accepted-used client m e w =
      let k = key client m.token in
      let e1 = register ops client m.token m.stock (side_of_char m.side) m.shares e in
      let e2 = respond client (accepted_for ops e.next_ref m e1.now) e1 in
      let price_ok : (not (eq? m.price market_price) && le? m.price (pos 0)) ≡ false =
        ground (arith, w.priced) in
      let shares_ok : (m.shares == 0) ≡ false = ground (arith, w.sized) in
      let side_ok : (not (m.side == b'B') && not (m.side == b'S')) ≡ false =
        ground (arith, w.sided) in
      rw
        (
          w.fresh,
          price_ok,
          shares_ok,
          side_ok,
          trade_order-used client e.next_ref m e2,
          same_key_self k,
        )
        refl

  -- Once an order has passed the checks, every later order of the same client with that token,
  -- whatever commands came between, is answered by a Rejected of reason 'T' and changes nothing else.
  pub handle_enter-twice :
      (client : ℕ) (m again : EnterOrder) (e : Engine B) (cmds : List (ℕ × Command))
      → IsAcceptable client m e
      → again.token ≡ m.token
      → let later = process_all cmds (handle_enter ops client m e) in
        handle_enter ops client again later ≡ reject client again.token b'T' later
  unfolding handle_enter
  handle_enter-twice client m again e cmds w same =
      let later = process_all cmds (handle_enter ops client m e) in
      let known : token_used client again.token later ≡ true =
        unfold token_used in
        rw same (
          process_all-kept (key client m.token) cmds (handle_enter ops client m e)
            (accepted-used client m e w)) in
      rw known refl
