-- ===== src/Engine/Drawdown.antt =====
-- The peak of the equity, and the drawdown at which an account is halted.
use ai_coin_trading.Prelude.{ℕ, suc, ◌-◌, ◌≤◌, ◌≡◌, ap, ◌∙◌, ◌⊎◌, true, false, arith, ok}
use ai_coin_trading.Arith.{Arith, zero_f, max_f}
use ai_coin_trading.Broker.{sell_side, PortfolioState}
use ai_coin_trading.Engine.Count.{fills}
use ai_coin_trading.Engine.Facts.{
  exit_at_open_facts, enter_facts, check_stop_facts, check_gap_facts, check_drawdown_facts,
}
use ai_coin_trading.Engine.Process.{
  is_breached, check_drawdown, with_peak_equity, tick_cooldown, close_bar, process_bar,
}
use ai_coin_trading.Engine.Trace.{Trace, process_bar-Trace}
use ai_coin_trading.Engine.Types.{EngineConfig, Bar, Signal, BarStep, Progress, is_active}
use ai_coin_trading.Risk.{drawdown}

module _ {F : Type 0} ⦃a : Arith F⦄ (config : EngineConfig F) (bar : Bar F) (s : PortfolioState F)
    (r : Progress F × F × F) (t : Trace config bar s r) where
  start_peak : t.watched.state.peak_equity ≡ s.peak_equity
  start_peak = grind (
    arith,
    check_gap_facts config bar s t.start t.gap t.checked,
    exit_at_open_facts config bar t.start.state.pending t.start t.left t.gap t.at_open,
    enter_facts config bar t.start.state.pending t.left t.entered t.start.state.cooldown_remaining
        t.at_entry,
    check_stop_facts config bar t.start.state.pending t.entered t.watched t.at_stop,
  )

  closed_peak : r.0.state.peak_equity ≡ max_f s.peak_equity r.1
  unfolding tick_cooldown
  closed_peak = rw t.closed (grind (arith, start_peak, check_drawdown_facts))

  closed_drawdown : r.2 ≡ drawdown r.1 (max_f s.peak_equity r.1)
  closed_drawdown = t.fallen ∙ ap (λ (x : F). drawdown r.1 (max_f x r.1)) start_peak

  -- An account that is still active has not breached the limit.
  check_drawdown_breach :
      (equity d : F) (p : Progress F)
      → (is_active (check_drawdown config bar equity d p).state.halt_state ≡ false)
        ⊎ (is_breached config.risk_config d ≡ false)
  unfolding check_drawdown
  check_drawdown_breach equity d p = ground arith

  closed_breach :
      (is_active r.0.state.halt_state ≡ false) ⊎ (is_breached config.risk_config r.2 ≡ false)
  unfolding tick_cooldown
  closed_breach =
      rw t.closed (ground (arith, check_drawdown_breach r.1 r.2 (with_peak_equity r.1 t.watched)))

  watched_cooldown :
      ((t.watched.stop_triggered ≡ false)
        × (t.watched.state.cooldown_remaining ≡ s.cooldown_remaining))
      ⊎ ((t.watched.stop_triggered ≡ true)
          × (t.watched.state.cooldown_remaining ≡ config.risk_config.cooldown_bars)
          × (t.watched.state.quantity ≡ zero_f)
          × (fills sell_side t.watched.events ≡ suc (fills sell_side t.entered.events)))
  watched_cooldown = grind (
    arith,
    check_gap_facts config bar s t.start t.gap t.checked,
    exit_at_open_facts config bar t.start.state.pending t.start t.left t.gap t.at_open,
    enter_facts config bar t.start.state.pending t.left t.entered t.start.state.cooldown_remaining
        t.at_entry,
    check_stop_facts config bar t.start.state.pending t.entered t.watched t.at_stop,
  )

  closed_cooldown :
      (r.0.state.cooldown_remaining ≡ s.cooldown_remaining - 1)
      ⊎ ((r.0.state.cooldown_remaining ≡ config.risk_config.cooldown_bars)
          × (r.0.state.quantity ≡ zero_f)
          × (1 ≤ fills sell_side r.0.events))
  unfolding tick_cooldown
  closed_cooldown = rw t.closed (
      grind (
        arith,
        watched_cooldown,
        check_drawdown_facts,
        (check_gap_facts config bar s t.start t.gap t.checked).cooldown,
      ))

module _ {F : Type 0} ⦃a : Arith F⦄ (config : EngineConfig F) (now : ℕ) (bar : Bar F)
    (signal : Signal F) (s s' : PortfolioState F) (step : BarStep F)
    (returned : process_bar config now bar signal s ≡ ok (s', step)) where
  close_bar_values :
      (r : Progress F × F × F)
      → close_bar config bar signal now r ≡ (s', step)
      → (s'.peak_equity ≡ r.0.state.peak_equity)
        × (s'.halt_state ≡ r.0.state.halt_state)
        × (s'.cooldown_remaining ≡ r.0.state.cooldown_remaining)
        × (s'.quantity ≡ r.0.state.quantity)
        × (step.equity ≡ r.1)
        × (step.drawdown ≡ r.2)
        × (step.events ≡ r.0.events)
  unfolding close_bar
  close_bar_values r c = ground arith

  -- A bar that returns raises the peak to its equity if that is higher, reports the drawdown from
  -- the new peak, and leaves the account active only if that drawdown is below the limit.
  pub process_bar_drawdown :
      (s'.peak_equity ≡ max_f s.peak_equity step.equity)
      × (step.drawdown ≡ drawdown step.equity s'.peak_equity)
      × ((is_active s'.halt_state ≡ false) ⊎ (is_breached config.risk_config step.drawdown ≡ false))
  process_bar_drawdown =
      let (r, t, c) = process_bar-Trace config bar s now signal (s', step) returned in
      let values = close_bar_values r c in
      let peak = closed_peak config bar s r t in
      let fall = closed_drawdown config bar s r t in
      let breach = closed_breach config bar s r t in (ground arith, cc, ground arith)

  -- A bar that returns lowers the cooldown by one, down to 0; or it has sold the position, the
  -- account is flat and the cooldown is the configured number of bars.
  process_bar_cooldown :
      (s'.cooldown_remaining ≡ s.cooldown_remaining - 1)
      ⊎ ((s'.cooldown_remaining ≡ config.risk_config.cooldown_bars)
          × (s'.quantity ≡ zero_f)
          × (1 ≤ fills sell_side step.events))
  process_bar_cooldown =
      let (r, t, c) = process_bar-Trace config bar s now signal (s', step) returned in
      let values = close_bar_values r c in
      let cooled = closed_cooldown config bar s r t in ground arith
