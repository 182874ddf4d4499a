-- ===== src/Paper/Blocks.antt =====
-- src/coinpilot/paper.py, the blocks of `process_snapshot` that check the ticker and that trade.
use ai_coin_trading.Prelude.{
  ◌>>=◌, ℕ, ◌+◌, ◌-◌, ◌*◌, String, Bool, true, false, not, ◌&&◌, ◌||◌, Option, none, some, [], ◌∷◌,
  ◌++◌, str_eq, ltb, ◌==◌, if◌then◌else◌, Error, ticker_market_mismatch, ticker_predates_candle,
  no_exchange_trade_after_close, ticker_stale, ticker_rewinds_time, ticker_rewinds_exchange_time,
  older_than_state, Result, ok, raised,
}
use ai_coin_trading.Arith.{Arith, ◌≤?◌, zero_f, usable}
use ai_coin_trading.Broker.{
  RiskConfig, halted, Reason, PortfolioState, Fill, Trade, no_signal, buy, sell_all,
}
use ai_coin_trading.Engine.Blocks.{stop_price, stop_reason}
use ai_coin_trading.Engine.Types.{
  ModelConfig, Signal, minutes, is_active, is_probability, is_expected_return, has_come, is_held,
  halt_now, is_at_most, is_at_least,
}
use ai_coin_trading.Paper.Types.{
  market_data_gap, fill, entry_rejected, AppConfig, MarketTicker, Decision, paper_initialized,
  model_not_ready, stale_signal, Snapshot, Flags, plain, SnapshotStep, seconds, signal_time_of,
  should_trade, rewinds, noted,
}
use ai_coin_trading.Risk.{accepted, rejected, size_entry}

module _ {F : Type 0} ⦃a : Arith F⦄ where
  -- The checks before anything is written; each leaves the account as it is.
  unfoldable pub check_ticker :
      AppConfig F → MarketTicker F → Decision F → PortfolioState F → Option Error
  check_ticker config ticker d s =
      let signal_time = signal_time_of config d in
      if not (str_eq ticker.market s.market)
      then some ticker_market_mismatch
      else if ltb ticker.observed_at signal_time
      then some ticker_predates_candle
      else if ltb ticker.exchange_timestamp signal_time
      then some no_exchange_trade_after_close
      else if ltb (ticker.observed_at + seconds 5) ticker.exchange_timestamp
          || ltb (ticker.exchange_timestamp + seconds config.paper.max_ticker_age_seconds)
              ticker.observed_at
      then some ticker_stale
      else if rewinds s.updated_at ticker.observed_at
      then some ticker_rewinds_time
      else if rewinds s.last_ticker_exchange_time ticker.exchange_timestamp
      then some ticker_rewinds_exchange_time
      else none

  abbrev pub begun : PortfolioState F → Snapshot F
  begun s = record { state = s; events = []; trades = []; exited = false; stop_triggered = false }

  -- `_clear_pending_signal` and the halt that goes with it.
  abbrev pub halt_and_clear : PortfolioState F → PortfolioState F
  halt_and_clear s = record s { pending = no_signal; halt_state = halt_now s }

  -- The next bar has closed: the decision may be missing or late.
  unfoldable pub take_new_bar :
      AppConfig F → MarketTicker F → Decision F → PortfolioState F → Flags × Snapshot F
  take_new_bar config ticker d s =
      let signal_time = signal_time_of config d in
      let delay = ticker.observed_at - signal_time in
      if not d.model_ready
      then (
        record plain { new_bar = true; not_ready = true },
        noted ticker.observed_at (model_not_ready signal_time d.model_error)
            (begun (halt_and_clear s)),
      )
      else if ltb (seconds config.paper.max_signal_delay_seconds) delay
      then (
        record plain { new_bar = true; stale = true },
        noted ticker.observed_at
            (stale_signal signal_time delay config.paper.max_signal_delay_seconds)
            (begun (halt_and_clear s)),
      )
      else (record plain { new_bar = true }, begun s)

  unfoldable pub arrive :
      AppConfig F
      → MarketTicker F
      → Decision F
      → PortfolioState F
      → Result (PortfolioState F) (Flags × Snapshot F)
  arrive config ticker d s = elim s.last_bar_time [
    | none ↦ ok (
      record plain { initialized = true },
      noted ticker.observed_at (paper_initialized d.bar_time) (begun s),
    )
    | some prior_bar ↦
        if ltb d.bar_time prior_bar
        then raised older_than_state s
        else if ltb (minutes config.interval_minutes) (d.bar_time - prior_bar)
        then ok (
          record plain { data_gap = true },
          noted ticker.observed_at (market_data_gap prior_bar d.bar_time)
              (begun (halt_and_clear s)),
        )
        else if (d.bar_time - prior_bar) == minutes config.interval_minutes
        then ok (take_new_bar config ticker d s)
        else ok (plain, begun s)
  ]

  unfoldable pub record_sell :
      MarketTicker F → Snapshot F → PortfolioState F × Fill F × Trade F → Snapshot F
  record_sell ticker p (s, f, t) = record p {
    state = s;
    events =
        p.events
        ++ record { timestamp = ticker.observed_at; market = s.market; notice = fill f } ∷ [];
    trades = p.trades ++ t ∷ [];
    exited = true;
  }

  -- `_sell`
  unfoldable pub sell :
      AppConfig F → MarketTicker F → Reason → Option ℕ → Option String → Snapshot F → SnapshotStep F
  sell config ticker reason signal_time model_id p = do
    sold ← sell_all config.risk ticker.observed_at ticker.price reason signal_time model_id p.state
    ok (record_sell ticker p sold)

  abbrev pub halt_flat : Snapshot F → SnapshotStep F
  halt_flat p = ok (record p { state = record p.state { halt_state = halted } })

  abbrev pub cool_down : RiskConfig F → Snapshot F → SnapshotStep F
  cool_down config p = ok (record p {
    state = record p.state { cooldown_remaining = config.cooldown_bars };
    stop_triggered = true;
  })

  -- The exits that need no decision of the model.
  unfoldable pub guard_position : AppConfig F → MarketTicker F → Snapshot F → SnapshotStep F
  guard_position config ticker p =
      let s = p.state in
      let sell_for =
        λ (reason : Reason). sell config ticker reason s.pending_signal_time s.pending_model_id p in
      if is_held s && not (is_active s.halt_state)
      then sell_for Reason.risk_halt >>= halt_flat
      else if is_held s
          && is_expected_return config.model.signal_mode
          && has_come s.entry_horizon_exit_time ticker.observed_at
      then sell_for Reason.horizon_exit
      else if is_held s && (ticker.price ≤? stop_price config.risk s)
      then sell_for (stop_reason config.risk s) >>= cool_down config.risk
      else ok p

  unfoldable pub exit_on_model :
      AppConfig F → MarketTicker F → Decision F → Flags → Snapshot F → SnapshotStep F
  exit_on_model config ticker d flags p =
      if should_trade flags
        && is_probability config.model.signal_mode
        && is_held p.state
        && is_active p.state.halt_state
        && not p.exited
        && is_at_most d.signal.probability config.model.exit_probability
      then sell config ticker Reason.model_exit (some (signal_time_of config d)) d.signal.model_id p
      else ok p

  -- `probability_entry or expected_return_entry`
  unfoldable pub wants_entry : ModelConfig F → Signal F → Bool
  wants_entry model signal =
      is_probability model.signal_mode && is_at_least signal.probability model.entry_probability
      || is_expected_return model.signal_mode
        && signal.signal_eligible
        && is_at_least signal.expected_net_edge model.minimum_edge_pct

  abbrev pub with_horizon : AppConfig F → ℕ → PortfolioState F → PortfolioState F
  with_horizon config signal_time s =
      if is_expected_return config.model.signal_mode
      then record s {
        entry = record s.entry {
          entry_horizon_exit_time =
              some (signal_time + minutes (config.model.horizon_bars * config.interval_minutes));
        };
      }
      else s

  unfoldable pub record_buy :
      AppConfig F → MarketTicker F → ℕ → Snapshot F → PortfolioState F × Fill F → Snapshot F
  record_buy config ticker signal_time p (s, f) = record p {
    state = with_horizon config signal_time s;
    events =
        p.events
        ++ record { timestamp = ticker.observed_at; market = s.market; notice = fill f } ∷ [];
  }

  unfoldable pub open_position :
      AppConfig F → MarketTicker F → Decision F → Snapshot F → SnapshotStep F
  open_position config ticker d p =
      let s = p.state in
      let signal_time = signal_time_of config d in
      elim (size_entry config.risk s.cash s.cash ticker.price (usable d.signal.atr_pct)) [
        | rejected reason ↦ ok (noted ticker.observed_at (entry_rejected reason) p)
        | accepted notional stop_distance_pct ↦
            buy config.risk ticker.observed_at ticker.price notional stop_distance_pct
              Reason.model_entry (some signal_time) d.signal.model_id s
            >>= λ bought. ok (record_buy config ticker signal_time p bought)
      ]

  unfoldable pub enter :
      AppConfig F → MarketTicker F → Decision F → Flags → ℕ → Snapshot F → SnapshotStep F
  enter config ticker d flags cooldown_at_start p =
      if should_trade flags
        && (p.state.quantity ≤? zero_f)
        && is_active p.state.halt_state
        && cooldown_at_start == 0
        && not p.stop_triggered
        && not p.exited
        && wants_entry config.model d.signal
      then open_position config ticker d p
      else ok p
