-- ===== src/Engine/Halts.antt =====
-- A halt is never lifted by a bar, and the position is sold at the open of the next one.
use ai_coin_trading.Prelude.{ℕ, ◌≡◌, true, false, arith, ok}
use ai_coin_trading.Arith.{Arith, IsOrdered, zero_f}
use ai_coin_trading.Broker.{halted, sell_side, PortfolioState, no_signal}
use ai_coin_trading.Engine.Count.{fills}
use ai_coin_trading.Engine.Facts.{
  exit_at_open_facts, enter_facts, check_stop_facts, Checked, check_gap_facts,
}
use ai_coin_trading.Engine.Process.{
  check_drawdown, tick_cooldown, next_pending, close_bar, process_bar,
}
use ai_coin_trading.Engine.Trace.{Trace, process_bar-Trace}
use ai_coin_trading.Engine.Types.{EngineConfig, Bar, Signal, BarStep, Progress, is_active, is_held}

module _ {F : Type 0} ⦃a : Arith F⦄ (order : IsOrdered a) (config : EngineConfig F) (bar : Bar F)
    (s : PortfolioState F) (stopped : is_active s.halt_state ≡ false) where
  start_halted : (p : Progress F) → Checked s p → is_active p.state.halt_state ≡ false
  start_halted p c = ground (arith, c.halts)

  module _ (r : Progress F × F × F) (t : Trace config bar s r) where
    entered_halted :
        (is_active t.entered.state.halt_state ≡ false) × (is_held t.entered.state ≡ false)
    entered_halted =
        let c = check_gap_facts config bar s t.start t.gap t.checked in
        let halted_start = start_halted t.start c in
        grind (
          arith,
          order.lt_irrefl zero_f,
          exit_at_open_facts config bar t.start.state.pending t.start t.left t.gap t.at_open,
          enter_facts config bar t.start.state.pending t.left t.entered
              t.start.state.cooldown_remaining t.at_entry,
        )

    closed_halted : (is_active r.0.state.halt_state ≡ false) × (is_held r.0.state ≡ false)
    unfolding tick_cooldown check_drawdown
    closed_halted = rw t.closed (
        grind (
          arith,
          entered_halted,
          check_stop_facts config bar t.start.state.pending t.entered t.watched t.at_stop,
        ))

    -- A position held under the halt ends the bar as a halted, sold one.
    entered_sold :
        is_held s ≡ true
        → (t.entered.state.halt_state ≡ halted)
          × (t.entered.state.quantity ≡ zero_f)
          × (fills sell_side t.entered.events ≡ 1)
    entered_sold held =
        let c = check_gap_facts config bar s t.start t.gap t.checked in
        let halted_start = start_halted t.start c in
        grind (
          arith,
          order.lt_irrefl zero_f,
          exit_at_open_facts config bar t.start.state.pending t.start t.left t.gap t.at_open,
          enter_facts config bar t.start.state.pending t.left t.entered
              t.start.state.cooldown_remaining t.at_entry,
        )

    closed_sold :
        is_held s ≡ true
        → (r.0.state.halt_state ≡ halted)
          × (r.0.state.quantity ≡ zero_f)
          × (fills sell_side r.0.events ≡ 1)
    unfolding tick_cooldown check_drawdown
    closed_sold held = rw t.closed (
        grind (
          arith,
          order.lt_irrefl zero_f,
          entered_sold held,
          check_stop_facts config bar t.start.state.pending t.entered t.watched t.at_stop,
        ))

module _ {F : Type 0} ⦃a : Arith F⦄ (config : EngineConfig F) (now : ℕ) (bar : Bar F)
    (signal : Signal F) (s s' : PortfolioState F) (step : BarStep F) where
  close_bar_halted :
      (r : Progress F × F × F)
      → close_bar config bar signal now r ≡ (s', step)
      → is_active r.0.state.halt_state ≡ false
      → (s'.halt_state ≡ r.0.state.halt_state)
        × (s'.quantity ≡ r.0.state.quantity)
        × (s'.pending ≡ no_signal)
        × (step.events ≡ r.0.events)
  unfolding close_bar next_pending
  close_bar_halted r c h = ground arith

  -- Under a halt a bar that returns leaves the halt in place, the account without a position and no
  -- decision for the next bar.
  pub process_bar_halted :
      IsOrdered a
      → is_active s.halt_state ≡ false
      → process_bar config now bar signal s ≡ ok (s', step)
      → (is_active s'.halt_state ≡ false) × (is_held s' ≡ false) × (s'.pending ≡ no_signal)
  process_bar_halted order halt h =
      let (r, t, c) = process_bar-Trace config bar s now signal (s', step) h in
      let (inactive, empty) = closed_halted order config bar s halt r t in
      let facts = close_bar_halted r c inactive in ground arith

  -- A position that is held under a halt is sold by the next bar that returns, and the account is
  -- then halted.
  pub process_bar_liquidates :
      IsOrdered a
      → is_active s.halt_state ≡ false
      → is_held s ≡ true
      → process_bar config now bar signal s ≡ ok (s', step)
      → (s'.halt_state ≡ halted) × (s'.quantity ≡ zero_f) × (fills sell_side step.events ≡ 1)
  process_bar_liquidates order halt held h =
      let (r, t, c) = process_bar-Trace config bar s now signal (s', step) h in
      let sold = closed_sold order config bar s halt r t held in
      let inactive = closed_halted order config bar s halt r t in
      let facts = close_bar_halted r c (inactive.0) in ground arith
