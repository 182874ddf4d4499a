-- ===== src/Paper/Process.antt =====
-- src/coinpilot/paper.py: the valuation, the decision that is kept, and `process_snapshot`.
use ai_coin_trading.Prelude.{
  ◌>>=◌, ℕ, ◌-◌, Bool, false, not, ◌&&◌, ◌||◌, Option, none, some, ltb, if◌then◌else◌, is_some,
  Result, ok, raised,
}
use ai_coin_trading.Arith.{Arith, ◌⊕◌, ◌⊖◌, ◌⊗◌, ◌≤?◌, zero_f, one_f, max_f, usable}
use ai_coin_trading.Broker.{
  RiskConfig, HaltState, Pending, PortfolioState, no_signal, slippage_rate,
}
use ai_coin_trading.Engine.Blocks.{with_peak_price}
use ai_coin_trading.Engine.Process.{is_breached}
use ai_coin_trading.Engine.Types.{is_active, is_probability, is_expected_return, is_held, halt_now}
use ai_coin_trading.Paper.Blocks.{enter, check_ticker, arrive, guard_position, exit_on_model}
use ai_coin_trading.Paper.Types.{
  drawdown_halt, AppConfig, MarketTicker, Decision, Snapshot, Flags, PaperSnapshotResult,
  signal_time_of, noted,
}
use ai_coin_trading.Risk.{drawdown}

abbrev pub kept_if : {A : Type 0} → Bool → Option A → Option A
kept_if test x = if test then x else none

module _ {F : Type 0} ⦃a : Arith F⦄ where
  -- `_liquidation_equity`
  unfoldable pub liquidation_equity : RiskConfig F → F → PortfolioState F → F
  liquidation_equity config price s =
      let proceeds = s.quantity ⊗ price ⊗ (one_f ⊖ slippage_rate config) in
      if s.quantity ≤? zero_f then s.cash else s.cash ⊕ proceeds ⊗ (one_f ⊖ config.fee_rate)

  abbrev pub raise_peak_price : F → Snapshot F → Snapshot F
  raise_peak_price price p =
      if is_held p.state
      then record p { state = with_peak_price (max_f p.state.peak_position_price price) p.state }
      else p

  abbrev pub with_peak_equity : F → Snapshot F → Snapshot F
  with_peak_equity equity p = record p {
    state = record p.state { peak_equity = max_f p.state.peak_equity equity };
  }

  unfoldable pub check_drawdown : AppConfig F → MarketTicker F → F → Snapshot F → Snapshot F
  check_drawdown config ticker d p =
      if is_active p.state.halt_state && is_breached config.risk d
      then noted ticker.observed_at (drawdown_halt d config.risk.max_strategy_drawdown_pct)
          (record p { state = record p.state { halt_state = halt_now p.state } })
      else p

  unfoldable pub tick_cooldown : Flags → ℕ → Snapshot F → Snapshot F
  tick_cooldown flags cooldown_at_start p =
      if flags.new_bar && ltb 0 cooldown_at_start && not p.stop_triggered
      then record p { state = record p.state { cooldown_remaining = cooldown_at_start - 1 } }
      else p

  -- The decision that is kept with the account at a new bar.
  unfoldable pub next_pending : AppConfig F → Decision F → HaltState → Pending F
  next_pending config d halt =
      let mode = config.model.signal_mode in
      let signal = d.signal in
      let for_return = is_expected_return mode && is_active halt in
      let present =
        if is_probability mode
        then is_some (usable signal.probability)
        else is_some (usable signal.expected_net_edge) in
      record {
        pending_probability =
            kept_if (is_probability mode && is_active halt) (usable signal.probability);
        pending_expected_gross_return = kept_if for_return (usable signal.expected_gross_return);
        pending_calibration_buffer = kept_if for_return (usable signal.calibration_buffer);
        pending_expected_net_edge = kept_if for_return (usable signal.expected_net_edge);
        pending_signal_eligible = if for_return then signal.signal_eligible else false;
        pending_no_trade_reason = kept_if for_return signal.no_trade_reason;
        pending_atr_pct = kept_if (is_active halt) (usable signal.atr_pct);
        pending_signal_time = kept_if (present && is_active halt) (some (signal_time_of config d));
        pending_model_id = kept_if (present && is_active halt) signal.model_id;
      }

  -- The assignments to the pending fields and to the times, and the peak of a position that is new.
  unfoldable pub keep_decision :
      AppConfig F → MarketTicker F → Decision F → Flags → PortfolioState F → PortfolioState F
  keep_decision config ticker d flags s =
      let pending =
        if flags.initialized || flags.new_bar
        then next_pending config d s.halt_state
        else s.pending in
      record s {
        pending = if is_active s.halt_state then pending else no_signal;
        last_bar_time =
            if flags.initialized || flags.new_bar || flags.data_gap
            then some d.bar_time
            else s.last_bar_time;
        last_ticker_exchange_time = some ticker.exchange_timestamp;
        updated_at = some ticker.observed_at;
      }

  unfoldable pub new_position_peak : Bool → F → PortfolioState F → PortfolioState F
  new_position_peak position_existed price s =
      if not position_existed && is_held s then with_peak_price (max_f s.entry_price price) s else s

  -- Everything that trades, up to the valuation.
  unfoldable pub trade_snapshot :
      AppConfig F
      → MarketTicker F
      → Decision F
      → PortfolioState F
      → Result (PortfolioState F) (Flags × Bool × ℕ × Snapshot F)
  trade_snapshot config ticker d s = do
    (flags, p) ← arrive config ticker d s
    let cooldown_at_start = p.state.cooldown_remaining
    p₁ ← guard_position config ticker p
    p₂ ← exit_on_model config ticker d flags p₁
    p₃ ← enter config ticker d flags cooldown_at_start p₂
    ok (flags, is_held p.state, cooldown_at_start, p₃)

  unfoldable pub value_snapshot :
      AppConfig F
      → MarketTicker F
      → Decision F
      → Flags × Bool × ℕ × Snapshot F
      → PortfolioState F × PaperSnapshotResult F
  value_snapshot config ticker d (flags, position_existed, cooldown_at_start, p₃) =
      let p₄ = raise_peak_price ticker.price p₃ in
      let equity = liquidation_equity config.risk ticker.price p₄.state in
      let p₅ = with_peak_equity equity p₄ in
      let p₆ = check_drawdown config ticker (drawdown equity p₅.state.peak_equity) p₅ in
      let p₇ = tick_cooldown flags cooldown_at_start p₆ in
      (
        new_position_peak position_existed ticker.price
            (keep_decision config ticker d flags p₇.state),
        record {
          processed_bar = flags.initialized || flags.new_bar || flags.data_gap;
          equity = equity;
          events = p₇.events;
          trades = p₇.trades;
        },
      )

  unfoldable pub process_snapshot :
      AppConfig F
      → MarketTicker F
      → Decision F
      → PortfolioState F
      → Result (PortfolioState F) (PortfolioState F × PaperSnapshotResult F)
  process_snapshot config ticker d s = elim (check_ticker config ticker d s) [
    | some e ↦ raised e s
    | none ↦ trade_snapshot config ticker d s >>= λ t. ok (value_snapshot config ticker d t)
  ]
