-- ===== src/Paper/Activity.antt =====
-- How much one snapshot can trade, and when.
use ai_coin_trading.Prelude.{
  ℕ, ◌+◌, ◌≤◌, ◌≡◌, inl, inr, Bool, true, Option, none, some, arith, length, Option-cases, ok,
}
use ai_coin_trading.Arith.{Arith}
use ai_coin_trading.Broker.{active, buy_side, sell_side, PortfolioState}
use ai_coin_trading.Engine.Types.{minutes}
use ai_coin_trading.Paper.Blocks.{take_new_bar, arrive}
use ai_coin_trading.Paper.Count.{fills, fills-snoc}
use ai_coin_trading.Paper.Facts.{
  enter_facts, guard_position_facts, exit_on_model_facts, arrive_facts,
}
use ai_coin_trading.Paper.Process.{check_drawdown, tick_cooldown, value_snapshot, process_snapshot}
use ai_coin_trading.Paper.Trace.{Trace, process_snapshot-Trace}
use ai_coin_trading.Paper.Types.{
  AppConfig, MarketTicker, Decision, Snapshot, Flags, PaperSnapshotResult, seconds, signal_time_of,
  should_trade,
}

module _ {F : Type 0} ⦃a : Arith F⦄ (config : AppConfig F) (ticker : MarketTicker F)
    (d : Decision F) (s : PortfolioState F) where
  module _ (r : Flags × Bool × ℕ × Snapshot F) (t : Trace config ticker d s r) where
    traded_once :
        (fills buy_side r.3.events + fills sell_side r.3.events ≤ 1)
        × (length r.3.trades ≡ fills sell_side r.3.events)
    traded_once = grind (
      arith,
      arrive_facts config ticker d s r.0 t.start t.arrived,
      guard_position_facts config ticker t.start t.guarded t.at_guard,
      exit_on_model_facts config ticker d r.0 t.guarded t.left t.at_exit,
      enter_facts config ticker d r.0 r.2 t.left r.3 t.at_entry,
    )

  pub value_snapshot_lists :
      (r : Flags × Bool × ℕ × Snapshot F)
      → (fills buy_side (value_snapshot config ticker d r).1.events ≡ fills buy_side r.3.events)
        × (fills sell_side (value_snapshot config ticker d r).1.events ≡ fills sell_side r.3.events)
        × ((value_snapshot config ticker d r).1.trades ≡ r.3.trades)
  unfolding value_snapshot check_drawdown tick_cooldown
  value_snapshot_lists r = grind (arith, fills-snoc)

  -- A snapshot that returns has made at most one fill, of either side, and its closed trades are its
  -- sales.
  pub process_snapshot-fills :
      (s' : PortfolioState F) (result : PaperSnapshotResult F)
      → process_snapshot config ticker d s ≡ ok (s', result)
      → (fills buy_side result.events + fills sell_side result.events ≤ 1)
        × (length result.trades ≡ fills sell_side result.events)
  process_snapshot-fills s' result h =
      let (r, t, v, fits) = process_snapshot-Trace config ticker d s (s', result) h in
      let lists = value_snapshot_lists r in let once = traded_once r t in ground arith

-- The latest bar is the one after the account's last, the model is ready for it, and the ticker has
-- been observed within the delay that is allowed after the bar's close.
abbrev pub IsTimely : {F : Type 0} → AppConfig F → MarketTicker F → Decision F → Option ℕ → Type 0
IsTimely config ticker d none = ⊥
IsTimely config ticker d (some last) =
    (d.bar_time ≡ last + minutes config.interval_minutes)
    × (d.model_ready ≡ true)
    × (ticker.observed_at ≤ signal_time_of config d + seconds config.paper.max_signal_delay_seconds)

module _ {F : Type 0} ⦃a : Arith F⦄ (config : AppConfig F) (ticker : MarketTicker F)
    (d : Decision F) (s : PortfolioState F) where
  take_new_bar_timely :
      should_trade (take_new_bar config ticker d s).0 ≡ true
      → (d.model_ready ≡ true)
        × (ticker.observed_at
            ≤ signal_time_of config d + seconds config.paper.max_signal_delay_seconds)
  unfolding take_new_bar
  take_new_bar_timely h = ground arith

  arrive-IsTimely :
      (flags : Flags) (p : Snapshot F)
      → arrive config ticker d s ≡ ok (flags, p)
      → should_trade flags ≡ true
      → IsTimely config ticker d s.last_bar_time
  unfolding arrive
  arrive-IsTimely flags p h due = elim (Option-cases s.last_bar_time) [
    | inl fresh ↦ absurd (ground arith)
    | inr (last, known) ↦ rw known (ground (arith, take_new_bar_timely))
  ]

  traded_entry :
      (r : Flags × Bool × ℕ × Snapshot F) (t : Trace config ticker d s r)
      → fills buy_side r.3.events ≡ 1
      → (should_trade r.0 ≡ true)
        × (s.halt_state ≡ active)
        × (s.cooldown_remaining ≡ 0)
        × (fills sell_side r.3.events ≡ 0)
  traded_entry r t bought = grind (
    arith,
    t.cooldown,
    arrive_facts config ticker d s r.0 t.start t.arrived,
    guard_position_facts config ticker t.start t.guarded t.at_guard,
    exit_on_model_facts config ticker d r.0 t.guarded t.left t.at_exit,
    enter_facts config ticker d r.0 r.2 t.left r.3 t.at_entry,
  )

  -- A snapshot that returns and has bought was timely, and its account was active and in no cooldown.
  -- So an account is opened, a bar seen again and a gap passed without a purchase.
  pub process_snapshot_entry :
      (s' : PortfolioState F) (result : PaperSnapshotResult F)
      → process_snapshot config ticker d s ≡ ok (s', result)
      → fills buy_side result.events ≡ 1
      → IsTimely config ticker d s.last_bar_time
        × (s.halt_state ≡ active)
        × (s.cooldown_remaining ≡ 0)
  process_snapshot_entry s' result h bought =
      let (r, t, v, fits) = process_snapshot-Trace config ticker d s (s', result) h in
      let lists = value_snapshot_lists config ticker d s r in
      let entry = traded_entry r t (ground arith) in
      (arrive-IsTimely r.0 t.start t.arrived entry.0, entry.1, entry.2)
