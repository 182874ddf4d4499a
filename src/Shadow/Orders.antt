-- ===== src/Shadow/Orders.antt =====
-- src/coinpilot/hft_shadow.py: `_resolve_pending`, which fills or expires the order that waits.
use ai_coin_trading.Prelude.{
  ℕ, ◌-◌, String, Bool, not, ◌&&◌, ◌||◌, Option, none, some, str_eq, ltb, if◌then◌else◌,
}
use ai_coin_trading.Arith.{Arith, ◌<?◌, ◌≤?◌, zero_f}
use ai_coin_trading.Depth.{PublicOrderBook, IndependentTakerOrder}
use ai_coin_trading.Depth.Sweep.{VisibleDepthExecution, sweep_visible_depth}
use ai_coin_trading.Outbox.{info, warning}
use ai_coin_trading.Shadow.Ledger.{
  find_row, update_rows, insert_exact, is_decision, is_pending_of, is_pending_order, expire_order,
  alert,
}
use ai_coin_trading.Shadow.Rows.{
  Notice, DecisionRow, OrderRow, FillRow, stale_payload, fill_payload,
}
use ai_coin_trading.Shadow.Same.{same_key, same_fill_key, same_fill}
use ai_coin_trading.Shadow.Settle.{ShadowConfig, Work, key_of, settle_fill}
use ai_coin_trading.Shadow.Types.{
  ◌>>=◌, Step, ◌>>◌, TerminalReason, order_filled, remainder_cancelled, connection_boundary_expiry,
  no_fresh_book, filled_order, partial_order, BookKey, FillKey, stale_alert, fill_alert,
  check_failed, not_strict_json, done, ensure, from_depth,
}

module _ {F : Type 0} ⦃a : Arith F⦄ where
  -- The order as the sweep takes it; the sweep only passes the order's id on.
  abbrev pub taker_order : OrderRow F → DecisionRow F → PublicOrderBook F → IndependentTakerOrder F
  taker_order o d book = record {
    order_id = "order";
    order_capture_id = book.capture_id;
    order_connection_id = book.connection_id;
    order_market = book.market;
    side = o.order_side;
    decision_book_ordinal = o.order_key.key_ordinal;
    decision_monotonic_ns = d.decision_monotonic_ns;
    base_quantity = o.requested_base;
    quote_notional = o.requested_quote;
  }

  abbrev pub completed : VisibleDepthExecution F → ℕ → OrderRow F → OrderRow F
  completed e wall o = record o {
    order_status = if e.fully_filled then filled_order else partial_order;
    remaining_base = e.unfilled_base;
    remaining_quote = e.unfilled_quote;
    terminal_reason = some (if e.fully_filled then order_filled else remainder_cancelled);
    order_completed = some wall;
  }

  abbrev fill_row : BookKey → BookKey → PublicOrderBook F → VisibleDepthExecution F → ℕ → FillRow F
  fill_row order key book e wall = record {
    fill_key = record { fill_order = order; fill_book = key };
    fill_monotonic_ns = book.received_monotonic_ns;
    fill_wall_ns = book.received_wall_ns;
    fill_side = e.execution_side;
    fill_base = e.filled_base;
    fill_quote = e.filled_quote;
    fill_fee = e.fee_quote;
    fill_vwap = e.vwap_price;
    fill_levels = e.levels_consumed;
    fill_complete = e.fully_filled;
    fill_created = wall;
  }

  -- The CHECKs of `shadow_fills`, and its UNIQUE columns.
  abbrev fill_fits : FillRow F → Bool
  fill_fits f =
      (zero_f <? f.fill_base)
      && (zero_f <? f.fill_quote)
      && (zero_f ≤? f.fill_fee)
      && (zero_f <? f.fill_vwap)
      && ltb 0 f.fill_levels

  abbrev pub is_fill : FillKey → FillRow F → Bool
  is_fill key f = same_fill_key f.fill_key key

  abbrev conflicts_fill : FillKey → FillRow F → Bool
  conflicts_fill key f = is_fill key f || same_key f.fill_key.fill_order key.fill_order

  -- `canonical_json` takes finite numbers only.
  abbrev fill_is_json : FillRow F → Bool
  fill_is_json f =
      a.finite f.fill_base && a.finite f.fill_quote && a.finite f.fill_fee && a.finite f.fill_vwap

  abbrev fill_notice : String → FillRow F → Notice F
  fill_notice run f = record {
    alert_key = fill_alert f.fill_key;
    notice_run = run;
    severity = info;
    payload = fill_payload f;
    created_wall_ns = f.fill_created;
  }

  -- The execution of a due order, with its rows and its alert.
  unfoldable pub fill_order_row :
      ShadowConfig F
      → String
      → PublicOrderBook F
      → ℕ
      → OrderRow F
      → DecisionRow F
      → Work F
      → Step (Work F × Option BookKey × Option FillKey)
  fill_order_row config run book wall o d w = do
    e ← from_depth (sweep_visible_depth book (taker_order o d book) config.shadow_fee_rate)
    s ← settle_fill config e w.state
    ensure ((zero_f ≤? e.unfilled_base) && (zero_f ≤? e.unfilled_quote)) check_failed
    let row = fill_row o.order_key (key_of run book) book e wall
    fills ←
        insert_exact (fill_fits row) (conflicts_fill row.fill_key) (is_fill row.fill_key)
          (same_fill row) row w.ledger.fills
    ensure (fill_is_json row) not_strict_json
    l ← alert (fill_notice run row) (record w.ledger {
      orders = update_rows (is_pending_order o.order_key) (completed e wall) w.ledger.orders;
      fills = fills;
    })
    done (record { ledger = l; state = s }, some o.order_key, some row.fill_key)

  abbrev stale_notice : String → BookKey → ℕ → ℕ → Notice F
  stale_notice run key lateness wall = record {
    alert_key = stale_alert key;
    notice_run = run;
    severity = warning;
    payload = stale_payload lateness;
    created_wall_ns = wall;
  }

  unfoldable pub expire_resolved :
      TerminalReason → ℕ → OrderRow F → Work F → Step (Work F × Option BookKey × Option FillKey)
  expire_resolved why wall o w = do
    orders ← expire_order o.order_key why wall w.ledger.orders
    done (record w { ledger = record w.ledger { orders = orders } }, some o.order_key, none)

  -- The order that no fresh book met, with its alert.
  unfoldable pub expire_stale :
      String
      → PublicOrderBook F
      → ℕ
      → OrderRow F
      → Work F
      → Step (Work F × Option BookKey × Option FillKey)
  expire_stale run book wall o w = do
    orders ← expire_order o.order_key no_fresh_book wall w.ledger.orders
    let lateness = book.received_monotonic_ns - o.due_monotonic_ns
    l ← alert (stale_notice run o.order_key lateness wall) (record w.ledger { orders = orders })
    done (record w { ledger = l }, some o.order_key, none)

  unfoldable pub resolve_order :
      ShadowConfig F
      → String
      → PublicOrderBook F
      → ℕ
      → OrderRow F
      → DecisionRow F
      → Work F
      → Step (Work F × Option BookKey × Option FillKey)
  resolve_order config run book wall o d w =
      if not (
        str_eq o.order_key.key_capture book.capture_id
        && str_eq o.order_key.key_connection book.connection_id)
      then expire_resolved connection_boundary_expiry wall o w
      else if ltb book.received_monotonic_ns o.due_monotonic_ns
      then done (w, none, none)
      else if ltb config.shadow_max_gap_ns (book.received_monotonic_ns - o.due_monotonic_ns)
      then expire_stale run book wall o w
      else fill_order_row config run book wall o d w

  -- `_resolve_pending`: the order that waits, joined with its decision.
  unfoldable pub resolve_pending :
      ShadowConfig F
      → String
      → PublicOrderBook F
      → ℕ
      → Work F
      → Step (Work F × Option BookKey × Option FillKey)
  resolve_pending config run book wall w = elim (find_row (is_pending_of run) w.ledger.orders) [
    | none ↦ done (w, none, none)
    | some o ↦ elim (find_row (is_decision o.order_key) w.ledger.decisions) [
      | none ↦ done (w, none, none)
      | some d ↦ resolve_order config run book wall o d w
    ]
  ]
