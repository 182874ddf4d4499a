-- ===== src/Engine/Blocks.antt =====
-- src/coinpilot/engine.py, the blocks of `process_bar` that may trade, in the source's order. Each is
-- a function of the account as the block finds it and of what was read before it.
use ai_coin_trading.Prelude.{
  ℕ, ◌+◌, ◌-◌, ◌*◌, Bool, true, false, not, ◌&&◌, ◌||◌, none, some, [], ◌∷◌, ◌++◌, if◌then◌else◌,
  leb, ◌==◌, Result, ok, raised, ◌>>=◌, bars_not_increasing,
}
use ai_coin_trading.Arith.{Arith, ◌⊖◌, ◌⊗◌, ◌≤?◌, zero_f, one_f, max_f, min_f}
use ai_coin_trading.Broker.{
  RiskConfig, HaltState, halted, Reason, Fill, Trade, PortfolioState, Pending, no_signal, buy,
  sell_all,
}
use ai_coin_trading.Risk.{Rejection, accepted, rejected, size_entry}
use ai_coin_trading.Engine.Types.{
  ModelConfig, EngineConfig, Bar, fill, market_data_gap, entry_rejected, Progress, Step, minutes,
  is_active, is_probability, is_expected_return, settle_halt, has_come, is_held, halt_now,
  is_at_most, is_at_least,
}

module _ {F : Type 0} ⦃a : Arith F⦄ where
  -- The account, the event and the flag `gap_requires_exit` after a bar that is not the next one.
  unfoldable pub after_gap : EngineConfig F → Bar F → ℕ → PortfolioState F → Progress F × Bool
  after_gap config bar previous s =
      let halt = if config.halt_on_data_gap then halt_now s else s.halt_state in
      (
        record {
          state = record s { pending = no_signal; halt_state = halt };
          events =
              record {
                timestamp = bar.timestamp;
                market = s.market;
                payload = market_data_gap previous halt;
              }
              ∷ [];
          trades = [];
          exited = false;
          stop_triggered = false;
        },
        not config.halt_on_data_gap && is_held s,
      )

  abbrev pub no_gap : PortfolioState F → Progress F × Bool
  no_gap s = (
    record { state = s; events = []; trades = []; exited = false; stop_triggered = false },
    false,
  )

  unfoldable pub check_gap :
      EngineConfig F → Bar F → PortfolioState F → Result (PortfolioState F) (Progress F × Bool)
  check_gap config bar s = elim s.last_bar_time [
    | none ↦ ok (no_gap s)
    | some previous ↦
        if leb bar.timestamp previous
        then raised bars_not_increasing s
        else if (bar.timestamp - previous) == minutes config.interval_minutes
        then ok (no_gap s)
        else ok (after_gap config bar previous s)
  ]

  unfoldable pub record_sell : ℕ → Progress F → PortfolioState F × Fill F × Trade F → Progress F
  record_sell timestamp p (s, f, t) = record p {
    state = s;
    events = p.events ++ record { timestamp = timestamp; market = s.market; payload = fill f } ∷ [];
    trades = p.trades ++ t ∷ [];
    exited = true;
  }

  -- The call of `sell_all` that every exit makes, with its event and its trade.
  unfoldable pub sell : EngineConfig F → ℕ → F → Reason → Pending F → Progress F → Step F
  sell config timestamp raw_price reason execution p = do
    sold ←
        sell_all config.risk_config timestamp raw_price reason execution.pending_signal_time
          execution.pending_model_id p.state
    ok (record_sell timestamp p sold)

  abbrev pub with_halt : HaltState → Progress F → Progress F
  with_halt h p = record p { state = record p.state { halt_state = h } }

  abbrev pub settle : Progress F → Step F
  settle p = ok (with_halt (settle_halt p.state.halt_state) p)

  abbrev pub halt_flat : Progress F → Step F
  halt_flat p = ok (with_halt halted p)

  unfoldable pub exit_at_open : EngineConfig F → Bar F → Pending F → Bool → Progress F → Step F
  exit_at_open config bar execution gap_requires_exit p =
      let model = config.model_config in
      let exit_for =
        λ (reason : Reason). sell config bar.timestamp bar.raw_open reason execution p in
      if not (is_held p.state)
      then ok p
      else if gap_requires_exit
      then exit_for Reason.market_data_gap >>= settle
      else if not (is_active p.state.halt_state)
      then exit_for Reason.risk_halt >>= halt_flat
      else if is_expected_return model.signal_mode
          && has_come p.state.entry_horizon_exit_time bar.timestamp
      then exit_for Reason.horizon_exit
      else if is_probability model.signal_mode
          && is_at_most execution.pending_probability model.exit_probability
      then exit_for Reason.model_exit
      else ok p

  -- `probability_entry or expected_return_entry`
  unfoldable pub wants_entry : ModelConfig F → Pending F → Bool
  wants_entry model execution =
      is_probability model.signal_mode
        && is_at_least execution.pending_probability model.entry_probability
      || is_expected_return model.signal_mode
        && execution.pending_signal_eligible
        && is_at_least execution.pending_expected_net_edge model.minimum_edge_pct

  abbrev pub with_horizon : EngineConfig F → ℕ → PortfolioState F → PortfolioState F
  with_horizon config timestamp s =
      if is_expected_return config.model_config.signal_mode
      then record s {
        entry = record s.entry {
          entry_horizon_exit_time =
              some
                (timestamp + minutes (config.interval_minutes * config.model_config.horizon_bars));
        };
      }
      else s

  unfoldable pub record_buy :
      EngineConfig F → ℕ → Progress F → PortfolioState F × Fill F → Progress F
  record_buy config timestamp p (s, f) = record p {
    state = with_horizon config timestamp s;
    events = p.events ++ record { timestamp = timestamp; market = s.market; payload = fill f } ∷ [];
  }

  unfoldable pub record_rejection : ℕ → Progress F → Rejection → Progress F
  record_rejection timestamp p reason = record p {
    events =
        p.events
        ++ record {
          timestamp = timestamp;
          market = p.state.market;
          payload = entry_rejected reason;
        }
          ∷ [];
  }

  unfoldable pub open_position : EngineConfig F → Bar F → Pending F → Progress F → Step F
  open_position config bar execution p =
      let s = p.state in
      elim (size_entry config.risk_config s.cash s.cash bar.raw_open execution.pending_atr_pct) [
        | rejected reason ↦ ok (record_rejection bar.timestamp p reason)
        | accepted notional stop_distance_pct ↦
            buy config.risk_config bar.timestamp bar.raw_open notional stop_distance_pct
              Reason.model_entry execution.pending_signal_time execution.pending_model_id s
            >>= λ bought. ok (record_buy config bar.timestamp p bought)
      ]

  unfoldable pub enter : EngineConfig F → Bar F → Pending F → ℕ → Progress F → Step F
  enter config bar execution cooldown_at_start p =
      if (p.state.quantity ≤? zero_f)
        && is_active p.state.halt_state
        && cooldown_at_start == 0
        && not p.exited
        && wants_entry config.model_config execution
      then open_position config bar execution p
      else ok p

  abbrev pub fixed_stop : PortfolioState F → F
  fixed_stop s = s.entry_price ⊗ (one_f ⊖ s.entry_stop_distance_pct)

  abbrev pub trailing_stop : RiskConfig F → PortfolioState F → F
  trailing_stop config s = s.peak_position_price ⊗ (one_f ⊖ config.trailing_stop_pct)

  abbrev pub stop_price : RiskConfig F → PortfolioState F → F
  stop_price config s = max_f (fixed_stop s) (trailing_stop config s)

  abbrev pub stop_reason : RiskConfig F → PortfolioState F → Reason
  stop_reason config s =
      if fixed_stop s ≤? trailing_stop config s then Reason.trailing_stop else Reason.stop_loss

  abbrev pub with_peak_price : F → PortfolioState F → PortfolioState F
  with_peak_price price s = record s { entry = record s.entry { peak_position_price = price } }

  abbrev pub cool_down : RiskConfig F → Progress F → Step F
  cool_down config p = ok (record p {
    state = record p.state { cooldown_remaining = config.cooldown_bars };
    stop_triggered = true;
  })

  unfoldable pub check_stop : EngineConfig F → Bar F → Pending F → Progress F → Step F
  check_stop config bar execution p =
      let s = p.state in
      let stop = stop_price config.risk_config s in
      if not (is_held s)
      then ok p
      else if bar.low ≤? stop
      then sell config bar.timestamp (min_f bar.raw_open stop) (stop_reason config.risk_config s)
          execution p
        >>= cool_down config.risk_config
      else ok (record p { state = with_peak_price (max_f s.peak_position_price bar.high) s })
