-- ===== src/Shadow/Sampling.antt =====
-- src/coinpilot/hft_shadow.py: the valuation of the account at a book, and the samples of equity and
-- health that `process_book` takes.
use ai_coin_trading.Prelude.{
  ℕ, ◌+◌, String, Bool, true, ◌&&◌, ◌||◌, Option, none, some, List, [], ◌∷◌, str_eq, ltb, leb,
  if◌then◌else◌, is_some,
}
use ai_coin_trading.Arith.{Arith, ◌⊕◌, ◌⊖◌, ◌⊘◌, ◌≤?◌, zero_f, one_f, max_f}
use ai_coin_trading.Depth.{PublicOrderBook, sell_order, IndependentTakerOrder}
use ai_coin_trading.Depth.Sweep.{best_of, sweep_visible_depth}
use ai_coin_trading.Shadow.Ledger.{insert_exact}
use ai_coin_trading.Shadow.Rows.{ShadowState, EquityRow, feed_details, HealthRow, Ledger}
use ai_coin_trading.Shadow.Same.{same_key, same_health_key, same_health, same_equity}
use ai_coin_trading.Shadow.Settle.{ShadowConfig, key_of}
use ai_coin_trading.Shadow.Types.{
  ◌>>=◌, Step, ContinuityReason, healthy, degraded, BookKey, HealthKey, feed_health, done,
  from_depth,
}

-- The greatest time of the rows that a query selects, its `MAX`.
unfoldable pub latest : {R : Type 0} → (R → Bool) → (R → ℕ) → List R → Option ℕ
latest test time [] = none
latest test time (row ∷ rows) =
    let rest = latest test time rows in
    if test row
    then elim rest [
      | none ↦ some (time row)
      | some t ↦ some (if ltb t (time row) then time row else t)
    ]
    else rest

-- No sample yet, or one that is at least an interval old.
abbrev is_sample_due : Option ℕ → ℕ → ℕ → Bool
is_sample_due none interval now = true
is_sample_due (some sampled) interval now = leb (sampled + interval) now

abbrev feed_component : String
feed_component = "market_feed"

abbrev is_feed_health : String → HealthRow → Bool
is_feed_health run h = str_eq h.health_run run && str_eq h.health_component feed_component

abbrev is_health : HealthKey → HealthRow → Bool
is_health key h = same_health_key h.health_key key

abbrev pub insert_health : HealthRow → List HealthRow → Step (List HealthRow)
insert_health row =
    insert_exact true (is_health row.health_key) (is_health row.health_key) (same_health row) row

-- The equity with the bid and the covered part that value it.
pub record Mark (F : Type 0) : Type 0 where
  pub mark_equity : F
  mark_bid : Option F
  mark_covered : F

module _ {F : Type 0} ⦃a : Arith F⦄ where
  abbrev mark_order : ShadowState F → PublicOrderBook F → IndependentTakerOrder F
  mark_order s book = record {
    order_id = "mark";
    order_capture_id = book.capture_id;
    order_connection_id = book.connection_id;
    order_market = book.market;
    side = sell_order;
    decision_book_ordinal = book.ordinal;
    decision_monotonic_ns = book.received_monotonic_ns;
    base_quantity = some s.base_quantity;
    quote_notional = none;
  }

  -- `_liquidation_equity`
  unfoldable pub liquidation_equity :
      ShadowConfig F → ShadowState F → PublicOrderBook F → Step (Mark F)
  liquidation_equity config s book =
      if s.base_quantity ≤? config.position_epsilon
      then done (record { mark_equity = s.cash_quote; mark_bid = none; mark_covered = zero_f })
      else from_depth (sweep_visible_depth book (mark_order s book) config.shadow_fee_rate) >>= λ e.
          done (record {
            mark_equity = max_f zero_f (s.cash_quote ⊕ e.cash_flow_quote);
            mark_bid = best_of book.bids;
            mark_covered = e.filled_base;
          })

  abbrev pub drawdown_of : F → F → F
  drawdown_of peak equity = if peak ≤? zero_f then zero_f else max_f zero_f (one_f ⊖ equity ⊘ peak)

  abbrev equity_row : String → PublicOrderBook F → ℕ → Mark F → ShadowState F → EquityRow F
  equity_row run book wall mark s = record {
    equity_key = key_of run book;
    equity_monotonic_ns = book.received_monotonic_ns;
    equity_wall_ns = book.received_wall_ns;
    equity_cash = s.cash_quote;
    equity_base = s.base_quantity;
    liquidation_bid = mark.mark_bid;
    covered_base = mark.mark_covered;
    equity_quote = mark.mark_equity;
    equity_peak = s.peak_equity_quote;
    equity_drawdown = drawdown_of s.peak_equity_quote mark.mark_equity;
    equity_created = wall;
  }

  -- The CHECKs of `shadow_equity`.
  abbrev equity_fits : EquityRow F → Bool
  equity_fits e =
      (zero_f ≤? e.equity_cash)
      && (zero_f ≤? e.equity_base)
      && (zero_f ≤? e.covered_base)
      && (zero_f ≤? e.equity_quote)
      && (zero_f ≤? e.equity_peak)
      && (zero_f ≤? e.equity_drawdown)
      && (e.equity_drawdown ≤? one_f)

  abbrev is_equity : BookKey → EquityRow F → Bool
  is_equity key e = same_key e.equity_key key

  abbrev is_equity_of : String → EquityRow F → Bool
  is_equity_of run e = str_eq e.equity_key.key_run run

  unfoldable pub sample_equity :
      ShadowConfig F
      → String
      → PublicOrderBook F
      → ℕ
      → Bool
      → Mark F
      → ShadowState F
      → Ledger F
      → Step (Ledger F)
  sample_equity config run book wall force mark s l =
      let sampled = latest (is_equity_of run) (λ e. e.equity_monotonic_ns) l.equity in
      let row = equity_row run book wall mark s in
      if force || is_sample_due sampled config.equity_sample_interval_ns book.received_monotonic_ns
      then (insert_exact (equity_fits row) (is_equity row.equity_key) (is_equity row.equity_key)
            (same_equity row) row l.equity
          >>= λ equity. done (record l { equity = equity }))
      else done l

  abbrev feed_row : String → PublicOrderBook F → ℕ → Option ContinuityReason → HealthRow
  feed_row run book wall broken = record {
    health_key = feed_health (key_of run book);
    health_run = run;
    health_component = feed_component;
    health_status = if is_some broken then degraded else healthy;
    observed_wall_ns = wall;
    details = feed_details book.received_monotonic_ns broken;
  }

  unfoldable pub sample_health :
      ShadowConfig F
      → String
      → PublicOrderBook F
      → ℕ
      → Option ContinuityReason
      → Ledger F
      → Step (Ledger F)
  sample_health config run book wall broken l =
      let sampled = latest (is_feed_health run) (λ h. h.observed_wall_ns) l.health in
      if is_some broken || is_sample_due sampled config.health_sample_interval_ns wall
      then (insert_health (feed_row run book wall broken) l.health >>= λ health.
          done (record l { health = health }))
      else done l
