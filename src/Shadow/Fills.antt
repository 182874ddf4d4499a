-- ===== src/Shadow/Fills.antt =====
-- src/coinpilot/hft_shadow.py: which order `_resolve_pending` fills.
use ai_coin_trading.Prelude.{
  ℕ, ◌-◌, ◌≤◌, String, ◌≡◌, inl, inr, true, Option, none, some, arith, eq_iff, Option-cases,
}
use ai_coin_trading.Arith.{Arith}
use ai_coin_trading.Depth.{PublicOrderBook}
use ai_coin_trading.Shadow.Ledger.{find_row, is_decision, is_pending_of}
use ai_coin_trading.Shadow.Orders.{
  fill_order_row, expire_resolved, expire_stale, resolve_order, resolve_pending,
}
use ai_coin_trading.Shadow.Rows.{DecisionRow, OrderRow}
use ai_coin_trading.Shadow.Same.{is_pending}
use ai_coin_trading.Shadow.Settle.{ShadowConfig, Work, key_of}
use ai_coin_trading.Shadow.Tables.{find_row_test}
use ai_coin_trading.Shadow.Types.{
  TerminalReason, connection_boundary_expiry, BookKey, FillKey, done,
}

module _ {F : Type 0} ⦃a : Arith F⦄ where
  -- The order was decided on this connection, its latency has passed, and the book is not stale.
  pub record IsDue (config : ShadowConfig F) (book : PublicOrderBook F) (o : OrderRow F)
      : Type 0 where
    pub waiting : is_pending o.order_status ≡ true
    pub capture : o.order_key.key_capture ≡ book.capture_id
    pub connection : o.order_key.key_connection ≡ book.connection_id
    pub due : o.due_monotonic_ns ≤ book.received_monotonic_ns
    pub fresh : book.received_monotonic_ns - o.due_monotonic_ns ≤ config.shadow_max_gap_ns

module _ {F : Type 0} ⦃a : Arith F⦄ (config : ShadowConfig F) (run : String)
    (book : PublicOrderBook F) (wall : ℕ) where
  fill_order_row_fill :
      (o : OrderRow F) (d : DecisionRow F) (w w' : Work F) (res : Option BookKey)
      (fill : Option FillKey)
      → fill_order_row config run book wall o d w ≡ done (w', res, fill)
      → fill ≡ some (record { fill_order = o.order_key; fill_book = key_of run book })
  unfolding fill_order_row
  fill_order_row_fill o d w w' res fill h = ground arith

  expire_resolved_fill :
      (why : TerminalReason) (o : OrderRow F) (w w' : Work F) (res : Option BookKey)
      (fill : Option FillKey)
      → expire_resolved why wall o w ≡ done (w', res, fill)
      → fill ≡ none
  unfolding expire_resolved
  expire_resolved_fill why o w w' res fill h = ground arith

  expire_stale_fill :
      (o : OrderRow F) (w w' : Work F) (res : Option BookKey) (fill : Option FillKey)
      → expire_stale run book wall o w ≡ done (w', res, fill)
      → fill ≡ none
  unfolding expire_stale
  expire_stale_fill o w w' res fill h = ground arith

  resolve_order_fill :
      (o : OrderRow F) (d : DecisionRow F) (w w' : Work F) (res : Option BookKey) (f : FillKey)
      → is_pending o.order_status ≡ true
      → resolve_order config run book wall o d w ≡ done (w', res, some f)
      → IsDue config book o × (f.fill_order ≡ o.order_key)
  unfolding resolve_order
  resolve_order_fill o d w w' res f waiting h =
      let filled = fill_order_row_fill o d w w' res (some f) in
      let boundary = expire_resolved_fill connection_boundary_expiry o w w' res (some f) in
      let stale = expire_stale_fill o w w' res (some f) in
      (
        record {
          waiting = waiting;
          capture = (eq_iff o.order_key.key_capture book.capture_id).0 (ground (arith, boundary));
          connection =
              (eq_iff o.order_key.key_connection book.connection_id).0 (ground (arith, boundary));
          due = ground (arith, boundary);
          fresh = ground (arith, boundary, stale);
        },
        ground (arith, boundary, stale, filled),
      )

  -- What `resolve_pending` fills is a due order of the run.
  pub resolve_pending_fill :
      (w w' : Work F) (res : Option BookKey) (f : FillKey)
      → resolve_pending config run book wall w ≡ done (w', res, some f)
      → (o : OrderRow F) × (find_row (is_pending_of run) w.ledger.orders ≡ some o)
        × IsDue config book o
        × (f.fill_order ≡ o.order_key)
  unfolding resolve_pending
  resolve_pending_fill w w' res f h =
      elim (Option-cases (find_row (is_pending_of run) w.ledger.orders)) [
        | inl idle ↦ absurd (ground (arith, idle))
        | inr (o, found) ↦
            elim (Option-cases (find_row (is_decision o.order_key) w.ledger.decisions)) [
              | inl lone ↦ absurd (ground (arith, found, lone))
              | inr (d, decided) ↦
                  let waits = find_row_test (is_pending_of run) w.ledger.orders o found in
                  let (due, same) =
                    resolve_order_fill o d w w' res f (ground (arith, waits.0))
                      (ground (arith, found, decided)) in
                  (o, found, due, same)
            ]
      ]
