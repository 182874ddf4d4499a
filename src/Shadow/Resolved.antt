-- ===== src/Shadow/Resolved.antt =====
-- src/coinpilot/hft_shadow.py: what `_resolve_pending` leaves as it was.
use mathlib.Core.Path.{subst}
use ai_coin_trading.Prelude.{
  ℕ, ◌-◌, String, ◌≡◌, refl, ◌⊎◌, inl, inr, Bool, false, ◌&&◌, Option, List, arith, str_eq, ltb,
  Bool-cases, Option-cases,
}
use ai_coin_trading.Arith.{Arith}
use ai_coin_trading.Depth.{PublicOrderBook}
use ai_coin_trading.Depth.Sweep.{VisibleDepthExecution, sweep_visible_depth}
use ai_coin_trading.Shadow.Ledger.{
  find_row, update_rows, is_decision, is_pending_of, expired, is_pending_order, expire_order,
}
use ai_coin_trading.Shadow.Orders.{
  taker_order, completed, fill_order_row, expire_resolved, expire_stale, resolve_order,
  resolve_pending,
}
use ai_coin_trading.Shadow.Rows.{ShadowState, DecisionRow, OrderRow}
use ai_coin_trading.Shadow.Same.{is_pending}
use ai_coin_trading.Shadow.Settle.{ShadowConfig, Work, settle_buy, settle_sell, settle_fill}
use ai_coin_trading.Shadow.Types.{
  TerminalReason, connection_boundary_expiry, no_fresh_book, BookKey, FillKey, done, from_depth,
  >>=-done,
}

module _ {F : Type 0} where
  -- A change after which an order waits no longer.
  abbrev pub Ends : (OrderRow F → OrderRow F) → Type 0
  Ends change = (o : OrderRow F) → is_pending (change o).order_status ≡ false

  pub record Resolved (w w' : Work F) : Type 0 where
    pub lifecycle : w'.state.lifecycle_status ≡ w.state.lifecycle_status
    pub halt_kept : w'.state.halt_reason ≡ w.state.halt_reason
    pub seen : w'.state.warmup_books_seen ≡ w.state.warmup_books_seen
    pub run : w'.state.state_run ≡ w.state.state_run
    pub decisions : w'.ledger.decisions ≡ w.ledger.decisions
    pub states : w'.ledger.states ≡ w.ledger.states
    pub orders :
        (w'.ledger.orders ≡ w.ledger.orders)
        ⊎ ((test : OrderRow F → Bool) × (change : OrderRow F → OrderRow F) × Ends change
            × (w'.ledger.orders ≡ update_rows test change w.ledger.orders))

module _ {F : Type 0} ⦃a : Arith F⦄ where
  Resolved-refl : (w : Work F) → Resolved w w
  Resolved-refl w = record {
    lifecycle = refl;
    halt_kept = refl;
    seen = refl;
    run = refl;
    decisions = refl;
    states = refl;
    orders = inl refl;
  }

  -- The account keeps all but its money when a fill is settled.
  settle_fill_rest :
      (config : ShadowConfig F) (e : VisibleDepthExecution F) (s s' : ShadowState F)
      → settle_fill config e s ≡ done s'
      → (s'.lifecycle_status ≡ s.lifecycle_status)
        × (s'.halt_reason ≡ s.halt_reason)
        × (s'.warmup_books_seen ≡ s.warmup_books_seen)
        × (s'.state_run ≡ s.state_run)
  unfolding settle_fill settle_buy settle_sell
  settle_fill_rest config e s s' h = ground arith

module _ {F : Type 0} ⦃a : Arith F⦄ (config : ShadowConfig F) (run : String)
    (book : PublicOrderBook F) (wall : ℕ) where
  completed-Ends : (e : VisibleDepthExecution F) → Ends (completed e wall)
  completed-Ends e o = ground arith

  expired-Ends : (why : TerminalReason) → Ends {F = F} (expired why wall)
  expired-Ends why o = refl

  expire_order-orders :
      (key : BookKey) (why : TerminalReason) (rows rows' : List (OrderRow F))
      → expire_order key why wall rows ≡ done rows'
      → rows' ≡ update_rows (is_pending_order key) (expired why wall) rows
  unfolding expire_order
  expire_order-orders key why rows rows' h = ground arith

  fill_order_row-Resolved :
      (o : OrderRow F) (d : DecisionRow F) (w w' : Work F) (res : Option BookKey)
      (fill : Option FillKey)
      → fill_order_row config run book wall o d w ≡ done (w', res, fill)
      → Resolved w w'
  unfolding fill_order_row
  fill_order_row-Resolved o d w w' res fill h =
      let (e, swept, after) =
        >>=-done
          (from_depth (sweep_visible_depth book (taker_order o d book) config.shadow_fee_rate)) _
          h in
      let (s, settled, rest) = >>=-done (settle_fill config e w.state) _ after in
      let same : w'.state ≡ s = ground arith in
      let facts = settle_fill_rest config e w.state s settled in
      record {
        lifecycle = rw same facts.0;
        halt_kept = rw same facts.1;
        seen = rw same facts.2;
        run = rw same facts.3;
        decisions = ground arith;
        states = ground arith;
        orders =
            inr (is_pending_order o.order_key, completed e wall, completed-Ends e, ground arith);
      }

  expire_resolved-Resolved :
      (why : TerminalReason) (o : OrderRow F) (w w' : Work F) (res : Option BookKey)
      (fill : Option FillKey)
      → expire_resolved why wall o w ≡ done (w', res, fill)
      → Resolved w w'
  unfolding expire_resolved
  expire_resolved-Resolved why o w w' res fill h =
      let (rows, ends, rest) = >>=-done (expire_order o.order_key why wall w.ledger.orders) _ h in
      let same = expire_order-orders o.order_key why w.ledger.orders rows ends in
      record {
        lifecycle = ground arith;
        halt_kept = ground arith;
        seen = ground arith;
        run = ground arith;
        decisions = ground arith;
        states = ground arith;
        orders =
            inr (is_pending_order o.order_key, expired why wall, expired-Ends why, ground arith);
      }

  expire_stale-Resolved :
      (o : OrderRow F) (w w' : Work F) (res : Option BookKey) (fill : Option FillKey)
      → expire_stale run book wall o w ≡ done (w', res, fill)
      → Resolved w w'
  unfolding expire_stale
  expire_stale-Resolved o w w' res fill h =
      let (rows, ends, rest) =
        >>=-done (expire_order o.order_key no_fresh_book wall w.ledger.orders) _ h in
      let same = expire_order-orders o.order_key no_fresh_book w.ledger.orders rows ends in
      record {
        lifecycle = ground arith;
        halt_kept = ground arith;
        seen = ground arith;
        run = ground arith;
        decisions = ground arith;
        states = ground arith;
        orders = inr (
          is_pending_order o.order_key,
          expired no_fresh_book wall,
          expired-Ends no_fresh_book,
          ground arith,
        );
      }

  resolve_order-Resolved :
      (o : OrderRow F) (d : DecisionRow F) (w w' : Work F) (res : Option BookKey)
      (fill : Option FillKey)
      → resolve_order config run book wall o d w ≡ done (w', res, fill)
      → Resolved w w'
  unfolding resolve_order
  resolve_order-Resolved o d w w' res fill h =
      elim (Bool-cases (
        str_eq o.order_key.key_capture book.capture_id
        && str_eq o.order_key.key_connection book.connection_id)) [
          | inr apart ↦
              expire_resolved-Resolved connection_boundary_expiry o w w' res fill
                (ground (arith, apart))
          | inl here ↦ elim (Bool-cases (ltb book.received_monotonic_ns o.due_monotonic_ns)) [
            | inl early ↦
                let same : w ≡ w' = ground (arith, here, early) in
                subst (Resolved w) same (Resolved-refl w)
            | inr due ↦
                elim (Bool-cases (
                  ltb config.shadow_max_gap_ns (book.received_monotonic_ns - o.due_monotonic_ns))) [
                    | inl late ↦
                        expire_stale-Resolved o w w' res fill (ground (arith, here, due, late))
                    | inr fresh ↦
                        fill_order_row-Resolved o d w w' res fill (ground (arith, here, due, fresh))
                  ]
          ]
        ]

  pub resolve_pending-Resolved :
      (w w' : Work F) (res : Option BookKey) (fill : Option FillKey)
      → resolve_pending config run book wall w ≡ done (w', res, fill)
      → Resolved w w'
  unfolding resolve_pending
  resolve_pending-Resolved w w' res fill h =
      elim (Option-cases (find_row (is_pending_of run) w.ledger.orders)) [
        | inl idle ↦
            let same : w ≡ w' = ground (arith, idle) in subst (Resolved w) same (Resolved-refl w)
        | inr (o, found) ↦
            elim (Option-cases (find_row (is_decision o.order_key) w.ledger.decisions)) [
              | inl lone ↦
                  let same : w ≡ w' = ground (arith, found, lone) in
                  subst (Resolved w) same (Resolved-refl w)
              | inr (d, decided) ↦
                  resolve_order-Resolved o d w w' res fill (ground (arith, found, decided))
            ]
      ]
