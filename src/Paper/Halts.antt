-- ===== src/Paper/Halts.antt =====
-- What halts a paper account, and that a halt sells the position at the same ticker.
use ai_coin_trading.Prelude.{
  ℕ, ◌+◌, ◌<◌, ◌≡◌, ◌⊎◌, inl, inr, Bool, true, false, Option, none, some, arith, Option-cases, ok,
}
use ai_coin_trading.Arith.{Arith, IsOrdered, zero_f}
use ai_coin_trading.Broker.{halted, buy_side, sell_side, PortfolioState, no_signal}
use ai_coin_trading.Engine.Types.{minutes, is_active, is_held}
use ai_coin_trading.Paper.Activity.{value_snapshot_lists}
use ai_coin_trading.Paper.Blocks.{take_new_bar, arrive}
use ai_coin_trading.Paper.Count.{fills}
use ai_coin_trading.Paper.Facts.{
  enter_facts, guard_position_facts, exit_on_model_facts, arrive_facts,
}
use ai_coin_trading.Paper.Process.{
  check_drawdown, tick_cooldown, keep_decision, new_position_peak, value_snapshot, process_snapshot,
}
use ai_coin_trading.Paper.Trace.{Trace, process_snapshot-Trace}
use ai_coin_trading.Paper.Types.{
  AppConfig, MarketTicker, Decision, Snapshot, Flags, PaperSnapshotResult, seconds, signal_time_of,
}

-- The bar skips one; or it is the next one, and its model has no decision or the ticker is late.
abbrev pub IsBroken : {F : Type 0} → AppConfig F → MarketTicker F → Decision F → Option ℕ → Type 0
IsBroken config ticker d none = ⊥
IsBroken config ticker d (some last) =
    (last + minutes config.interval_minutes < d.bar_time)
    ⊎ ((d.bar_time ≡ last + minutes config.interval_minutes)
        × ((d.model_ready ≡ false)
            ⊎ (signal_time_of config d + seconds config.paper.max_signal_delay_seconds
                < ticker.observed_at)))

module _ {F : Type 0} ⦃a : Arith F⦄ (order : IsOrdered a) (config : AppConfig F)
    (ticker : MarketTicker F) (d : Decision F) (s : PortfolioState F) where
  take_new_bar_broken :
      (d.model_ready ≡ false)
        ⊎ (signal_time_of config d + seconds config.paper.max_signal_delay_seconds
            < ticker.observed_at)
      → is_active (take_new_bar config ticker d s).1.state.halt_state ≡ false
  unfolding take_new_bar
  take_new_bar_broken broken = ground arith

  arrive_broken :
      (flags : Flags) (p : Snapshot F)
      → (is_active s.halt_state ≡ false) ⊎ IsBroken config ticker d s.last_bar_time
      → arrive config ticker d s ≡ ok (flags, p)
      → is_active p.state.halt_state ≡ false
  unfolding arrive
  arrive_broken flags p (inl stopped) h = ground (arith, arrive_facts config ticker d s flags p h)
  arrive_broken flags p (inr broken) h = elim (Option-cases s.last_bar_time) [
    | inl fresh ↦ absurd (rw fresh at broken)
    | inr (last, known) ↦ ground (arith, take_new_bar_broken)
  ]

  module _ (r : Flags × Bool × ℕ × Snapshot F) (t : Trace config ticker d s r)
      (start_halted : is_active t.start.state.halt_state ≡ false) where
    traded_halted :
        (is_active r.3.state.halt_state ≡ false)
        × (is_held r.3.state ≡ false)
        × (fills buy_side r.3.events ≡ 0)
    traded_halted = grind (
      arith,
      order.lt_irrefl zero_f,
      arrive_facts config ticker d s r.0 t.start t.arrived,
      guard_position_facts config ticker t.start t.guarded t.at_guard,
      exit_on_model_facts config ticker d r.0 t.guarded t.left t.at_exit,
      enter_facts config ticker d r.0 r.2 t.left r.3 t.at_entry,
    )

    traded_sold :
        is_held s ≡ true → (r.3.state.halt_state ≡ halted) × (fills sell_side r.3.events ≡ 1)
    traded_sold held = grind (
      arith,
      order.lt_irrefl zero_f,
      arrive_facts config ticker d s r.0 t.start t.arrived,
      guard_position_facts config ticker t.start t.guarded t.at_guard,
      exit_on_model_facts config ticker d r.0 t.guarded t.left t.at_exit,
      enter_facts config ticker d r.0 r.2 t.left r.3 t.at_entry,
    )

  value_snapshot_halted :
      (r : Flags × Bool × ℕ × Snapshot F)
      → is_active r.3.state.halt_state ≡ false
      → is_held r.3.state ≡ false
      → ((value_snapshot config ticker d r).0.halt_state ≡ r.3.state.halt_state)
        × (is_held (value_snapshot config ticker d r).0 ≡ false)
        × ((value_snapshot config ticker d r).0.pending ≡ no_signal)
  unfolding value_snapshot check_drawdown tick_cooldown keep_decision new_position_peak
  value_snapshot_halted r stopped empty = ground arith

  -- A snapshot that returns on a halted account, or on a broken arrival (a skipped bar, a model that
  -- is not ready, a late ticker), leaves the account halted, without a position and without a
  -- decision, and has bought nothing.
  pub process_snapshot_halted :
      (s' : PortfolioState F) (result : PaperSnapshotResult F)
      → (is_active s.halt_state ≡ false) ⊎ IsBroken config ticker d s.last_bar_time
      → process_snapshot config ticker d s ≡ ok (s', result)
      → (is_active s'.halt_state ≡ false)
        × (is_held s' ≡ false)
        × (s'.pending ≡ no_signal)
        × (fills buy_side result.events ≡ 0)
  process_snapshot_halted s' result broken h =
      let (r, t, v, fits) = process_snapshot-Trace config ticker d s (s', result) h in
      let (stopped, empty, unbought) =
        traded_halted r t (arrive_broken r.0 t.start broken t.arrived) in
      let facts = value_snapshot_halted r stopped empty in
      let lists = value_snapshot_lists config ticker d s r in ground arith

  -- If the account then holds a position, that snapshot sells it and the account ends halted, not
  -- with its halt pending.
  pub process_snapshot_liquidates :
      (s' : PortfolioState F) (result : PaperSnapshotResult F)
      → (is_active s.halt_state ≡ false) ⊎ IsBroken config ticker d s.last_bar_time
      → is_held s ≡ true
      → process_snapshot config ticker d s ≡ ok (s', result)
      → (s'.halt_state ≡ halted) × (fills sell_side result.events ≡ 1)
  process_snapshot_liquidates s' result broken held h =
      let (r, t, v, fits) = process_snapshot-Trace config ticker d s (s', result) h in
      let start_halted = arrive_broken r.0 t.start broken t.arrived in
      let (stopped, empty, unbought) = traded_halted r t start_halted in
      let sold = traded_sold r t start_halted held in
      let facts = value_snapshot_halted r stopped empty in
      let lists = value_snapshot_lists config ticker d s r in ground arith
