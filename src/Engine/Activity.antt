-- ===== src/Engine/Activity.antt =====
-- How much one bar can trade.
use ai_coin_trading.Prelude.{ℕ, ◌≤◌, ◌<◌, ◌≡◌, ◌⊎◌, false, arith, length, ok}
use ai_coin_trading.Arith.{Arith, IsOrdered}
use ai_coin_trading.Broker.{buy_side, sell_side, PortfolioState}
use ai_coin_trading.Engine.Count.{fills}
use ai_coin_trading.Engine.Facts.{
  exit_at_open_facts, enter_facts, check_stop_facts, check_gap_facts, check_drawdown_facts,
}
use ai_coin_trading.Engine.Process.{tick_cooldown, close_bar, process_bar}
use ai_coin_trading.Engine.Trace.{Trace, process_bar-Trace}
use ai_coin_trading.Engine.Types.{EngineConfig, Bar, Signal, BarStep, Progress, is_active, is_held}

-- The counts of a bar part of the way through it.
record Tally {F : Type 0} (b k : ℕ) (p : Progress F) : Type 0 where
  buys : fills buy_side p.events ≤ b
  sells : fills sell_side p.events ≤ k
  traded : length p.trades ≡ fills sell_side p.events

module _ {F : Type 0} ⦃a : Arith F⦄ (order : IsOrdered a) (config : EngineConfig F) (bar : Bar F)
    (s : PortfolioState F) (r : Progress F × F × F) (t : Trace config bar s r) where
  entered-Tally :
      Tally 1 1 t.entered
      × ((fills sell_side t.entered.events ≡ 0) ⊎ (is_held t.entered.state ≡ false))
  entered-Tally = grind (
    arith,
    check_gap_facts config bar s t.start t.gap t.checked,
    exit_at_open_facts config bar t.start.state.pending t.start t.left t.gap t.at_open,
    enter_facts config bar t.start.state.pending t.left t.entered t.start.state.cooldown_remaining
        t.at_entry,
  )

  watched-Tally : Tally 1 1 t.watched
  watched-Tally = grind (
    arith,
    entered-Tally,
    check_stop_facts config bar t.start.state.pending t.entered t.watched t.at_stop,
  )

  tick_cooldown_events :
      (n : ℕ) (p : Progress F)
      → ((tick_cooldown n p).events ≡ p.events) × ((tick_cooldown n p).trades ≡ p.trades)
  unfolding tick_cooldown
  tick_cooldown_events n p = ground arith

  closed-Tally : Tally 1 1 r.0
  closed-Tally =
      rw t.closed (grind (arith, watched-Tally, tick_cooldown_events, check_drawdown_facts))

module _ {F : Type 0} ⦃a : Arith F⦄ (config : EngineConfig F) (now : ℕ) (bar : Bar F)
    (signal : Signal F) (s s' : PortfolioState F) (step : BarStep F) where
  close_bar_lists :
      (r : Progress F × F × F)
      → close_bar config bar signal now r ≡ (s', step)
      → (step.events ≡ r.0.events) × (step.trades ≡ r.0.trades)
  unfolding close_bar
  close_bar_lists r h = ground arith

  -- A bar that returns has bought at most once and sold at most once, and its closed trades are its
  -- sales. (The order of the floats is assumed to be that of IEEE comparisons.)
  pub process_bar-fills :
      IsOrdered a
      → process_bar config now bar signal s ≡ ok (s', step)
      → (fills buy_side step.events ≤ 1)
        × (fills sell_side step.events ≤ 1)
        × (length step.trades ≡ fills sell_side step.events)
  process_bar-fills order h =
      let (r, t, c) = process_bar-Trace config bar s now signal (s', step) h in
      let lists = close_bar_lists r c in
      let tally = closed-Tally order config bar s r t in ground arith

  closed_buys :
      (r : Progress F × F × F) (t : Trace config bar s r)
      → (0 < s.cooldown_remaining) ⊎ (is_active s.halt_state ≡ false)
      → fills buy_side r.0.events ≡ 0
  unfolding tick_cooldown
  closed_buys r t h = rw t.closed (
      grind (
        arith,
        check_gap_facts config bar s t.start t.gap t.checked,
        exit_at_open_facts config bar t.start.state.pending t.start t.left t.gap t.at_open,
        enter_facts config bar t.start.state.pending t.left t.entered
            t.start.state.cooldown_remaining t.at_entry,
        check_stop_facts config bar t.start.state.pending t.entered t.watched t.at_stop,
        check_drawdown_facts,
      ))

  -- A bar that begins in a cooldown, or under a halt, buys nothing.
  pub process_bar_no_entry :
      (0 < s.cooldown_remaining) ⊎ (is_active s.halt_state ≡ false)
      → process_bar config now bar signal s ≡ ok (s', step)
      → fills buy_side step.events ≡ 0
  process_bar_no_entry barred h =
      let (r, t, c) = process_bar-Trace config bar s now signal (s', step) h in
      rw ((close_bar_lists r c).0) (closed_buys r t barred)
