-- ===== src/Engine/Process.antt =====
-- src/coinpilot/engine.py: the valuation at the close, the drawdown halt, the decision that waits for
-- the next bar, and `process_bar` and `liquidate`, which chain the blocks.
use ai_coin_trading.Prelude.{
  ℕ, ◌+◌, ◌-◌, ◌^◌, Bool, not, ◌&&◌, Option, none, some, [], ◌∷◌, ◌++◌, str_eq, ltb, if◌then◌else◌,
  is_some, market_mismatch, Result, ok, raised, ◌>>=◌,
}
use ai_coin_trading.Arith.{Arith, ◌⊕◌, ◌⊖◌, ◌⊗◌, ◌≤?◌, one_f, max_f, usable}
use ai_coin_trading.Broker.{
  RiskConfig, HaltState, Reason, Pending, PortfolioState, Fill, Trade, slippage_rate, sell_all,
}
use ai_coin_trading.Engine.Blocks.{check_gap, exit_at_open, enter, check_stop}
use ai_coin_trading.Engine.Types.{
  EngineConfig, Bar, Signal, drawdown_halt, BarStep, Progress, minutes, is_active, is_probability,
  is_expected_return, settle_halt, is_held, halt_now,
}
use ai_coin_trading.Risk.{drawdown}

module _ {F : Type 0} ⦃a : Arith F⦄ where
  -- The account valued at the close, as if it were sold there.
  unfoldable pub equity_at : RiskConfig F → F → PortfolioState F → F
  equity_at config close s =
      let liquidation_price = close ⊗ (one_f ⊖ slippage_rate config) in
      if is_held s
      then s.cash ⊕ s.quantity ⊗ liquidation_price ⊗ (one_f ⊖ config.fee_rate)
      else s.cash

  -- `drawdown + 1e-12 >= max_strategy_drawdown_pct`
  abbrev pub is_breached : RiskConfig F → F → Bool
  is_breached config d = config.max_strategy_drawdown_pct ≤? (d ⊕ a.literal 1 (10 ^ 12))

  unfoldable pub check_drawdown : EngineConfig F → Bar F → F → F → Progress F → Progress F
  check_drawdown config bar equity d p =
      let halt = halt_now p.state in
      if is_active p.state.halt_state && is_breached config.risk_config d
      then record p {
        state = record p.state { halt_state = halt };
        events =
            p.events
            ++ record {
              timestamp = bar.timestamp;
              market = p.state.market;
              payload = drawdown_halt d config.risk_config.max_strategy_drawdown_pct halt;
            }
              ∷ [];
      }
      else p

  abbrev pub with_peak_equity : F → Progress F → Progress F
  with_peak_equity equity p = record p {
    state = record p.state { peak_equity = max_f p.state.peak_equity equity };
  }

  unfoldable pub tick_cooldown : ℕ → Progress F → Progress F
  tick_cooldown cooldown_at_start p =
      if ltb 0 cooldown_at_start && not p.stop_triggered
      then record p { state = record p.state { cooldown_remaining = cooldown_at_start - 1 } }
      else p

  -- A bar up to the close: all that trades, with the valuation and the drawdown that it ends on.
  unfoldable pub trade_bar :
      EngineConfig F → Bar F → PortfolioState F → Result (PortfolioState F) (Progress F × F × F)
  trade_bar config bar s = do
    (p, gap_requires_exit) ← check_gap config bar s
    let execution = p.state.pending
    let cooldown_at_start = p.state.cooldown_remaining
    p₁ ← exit_at_open config bar execution gap_requires_exit p
    p₂ ← enter config bar execution cooldown_at_start p₁
    p₃ ← check_stop config bar execution p₂
    let equity = equity_at config.risk_config bar.close p₃.state
    let p₄ = with_peak_equity equity p₃
    let d = drawdown equity p₄.state.peak_equity
    ok (tick_cooldown cooldown_at_start (check_drawdown config bar equity d p₄), equity, d)

  -- `float(x) if x is not None and np.isfinite(x) and … and halt_state == HALT_ACTIVE else None`
  abbrev pub kept_if : Bool → Option F → Option F
  kept_if test x = if test then usable x else none

  abbrev pub signal_available : EngineConfig F → Signal F → HaltState → Bool
  signal_available config signal halt =
      let mode = config.model_config.signal_mode in
      if is_probability mode
      then is_some (kept_if (is_probability mode && is_active halt) signal.probability)
      else is_some (kept_if (is_expected_return mode && is_active halt) signal.expected_net_edge)

  -- The decision that waits for the next bar's open.
  unfoldable pub next_pending : EngineConfig F → Bar F → Signal F → HaltState → Pending F
  next_pending config bar signal halt =
      let mode = config.model_config.signal_mode in
      let available = signal_available config signal halt in
      let for_return = is_expected_return mode && is_active halt in
      record {
        pending_probability = kept_if (is_probability mode && is_active halt) signal.probability;
        pending_expected_gross_return = kept_if for_return signal.expected_gross_return;
        pending_calibration_buffer = kept_if for_return signal.calibration_buffer;
        pending_expected_net_edge = kept_if for_return signal.expected_net_edge;
        pending_signal_eligible = available && signal.signal_eligible && is_active halt;
        pending_no_trade_reason = if available then signal.no_trade_reason else none;
        pending_atr_pct = kept_if (available && is_active halt) signal.atr_pct;
        pending_signal_time =
            if available then some (bar.timestamp + minutes config.interval_minutes) else none;
        pending_model_id = if available then signal.model_id else none;
      }

  unfoldable pub close_bar :
      EngineConfig F → Bar F → Signal F → ℕ → Progress F × F × F → PortfolioState F × BarStep F
  close_bar config bar signal now (p, equity, d) =
      let s = p.state in
      let pending = next_pending config bar signal s.halt_state in
      (
        record s { pending = pending; last_bar_time = some bar.timestamp; updated_at = some now },
        record {
          timestamp = bar.timestamp;
          equity = equity;
          cash = s.cash;
          quantity = s.quantity;
          close = bar.close;
          drawdown = d;
          halt_state = s.halt_state;
          pending_probability = pending.pending_probability;
          pending_expected_net_edge = pending.pending_expected_net_edge;
          pending_signal_eligible = pending.pending_signal_eligible;
          events = p.events;
          trades = p.trades;
        },
      )

  -- `now` is what `pd.Timestamp.now` returns at the end of the call.
  unfoldable pub process_bar :
      EngineConfig F
      → ℕ
      → Bar F
      → Signal F
      → PortfolioState F
      → Result (PortfolioState F) (PortfolioState F × BarStep F)
  process_bar config now bar signal s =
      if not (str_eq bar.market s.market)
      then raised market_mismatch s
      else trade_bar config bar s >>= λ traded. ok (close_bar config bar signal now traded)

  abbrev pub settle_account :
      ℕ → PortfolioState F × Fill F × Trade F → PortfolioState F × Option (Fill F × Trade F)
  settle_account now (s, f, t) =
      (record s { halt_state = settle_halt s.halt_state; updated_at = some now }, some (f, t))

  unfoldable pub liquidate :
      EngineConfig F
      → ℕ
      → ℕ
      → F
      → PortfolioState F
      → Result (PortfolioState F) (PortfolioState F × Option (Fill F × Trade F))
  liquidate config now timestamp raw_price s =
      if s.quantity ≤? a.literal 0 1
      then ok (s, none)
      else sell_all config.risk_config timestamp raw_price Reason.end_of_run s.pending_signal_time
          s.pending_model_id s
        >>= λ sold. ok (settle_account now sold)
