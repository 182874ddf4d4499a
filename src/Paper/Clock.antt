-- ===== src/Paper/Clock.antt =====
-- src/coinpilot/paper.py: the times that `process_snapshot` stamps the account with.
use mathlib.Core.Path.{subst}
use ai_coin_trading.Prelude.{
  ℕ, ◌-◌, ◌≤◌, ◌<◌, ◌≡◌, ◌⊎◌, inl, inr, Bool, true, false, ◌||◌, Option, none, some, arith, ltb,
  ◌==◌, Bool-cases, Option-cases, ok,
}
use ai_coin_trading.Arith.{Arith}
use ai_coin_trading.Broker.{PortfolioState}
use ai_coin_trading.Engine.Types.{minutes}
use ai_coin_trading.Paper.Blocks.{check_ticker, take_new_bar, arrive}
use ai_coin_trading.Paper.Facts.{
  enter_facts, guard_position_facts, exit_on_model_facts, arrive_facts,
}
use ai_coin_trading.Paper.Process.{
  check_drawdown, tick_cooldown, keep_decision, new_position_peak, value_snapshot, process_snapshot,
}
use ai_coin_trading.Paper.Trace.{Trace, process_snapshot-Trace}
use ai_coin_trading.Paper.Types.{
  AppConfig, MarketTicker, Decision, Snapshot, Flags, PaperSnapshotResult,
}

abbrev pub NotBefore : Option ℕ → Option ℕ → Type 0
NotBefore none later = Unit
NotBefore (some x) none = ⊥
NotBefore (some x) (some y) = x ≤ y

-- The bar of a decision is the account's last bar, or less than an interval after it.
pub record IsSameBar {F : Type 0} (config : AppConfig F) (d : Decision F) (last_bar : Option ℕ)
    : Type 0 where
  prior : ℕ
  pub last : last_bar ≡ some prior
  kept : prior ≤ d.bar_time
  near : d.bar_time - prior < minutes config.interval_minutes

module _ {F : Type 0} ⦃a : Arith F⦄ (config : AppConfig F) (ticker : MarketTicker F)
    (d : Decision F) (s : PortfolioState F) where
  check_ticker_times :
      check_ticker config ticker d s ≡ none
      → NotBefore s.updated_at (some ticker.observed_at)
        × NotBefore s.last_ticker_exchange_time (some ticker.exchange_timestamp)
  unfolding check_ticker
  check_ticker_times fits = ground arith

  arrive_times :
      (flags : Flags) (p : Snapshot F)
      → arrive config ticker d s ≡ ok (flags, p)
      → NotBefore s.last_bar_time (some d.bar_time)
  unfolding arrive
  arrive_times flags p h = ground arith

  value_snapshot_times :
      (r : Flags × Bool × ℕ × Snapshot F)
      → ((value_snapshot config ticker d r).0.updated_at ≡ some ticker.observed_at)
        × ((value_snapshot config ticker d r).0.last_ticker_exchange_time
            ≡ some ticker.exchange_timestamp)
  unfolding value_snapshot keep_decision new_position_peak
  value_snapshot_times r = ground arith

  -- The blocks that trade leave the account's last bar alone.
  traded_bar :
      (r : Flags × Bool × ℕ × Snapshot F)
      → Trace config ticker d s r
      → r.3.state.last_bar_time ≡ s.last_bar_time
  traded_bar r t = grind (
    arith,
    arrive_facts config ticker d s r.0 t.start t.arrived,
    guard_position_facts config ticker t.start t.guarded t.at_guard,
    exit_on_model_facts config ticker d r.0 t.guarded t.left t.at_exit,
    enter_facts config ticker d r.0 r.2 t.left r.3 t.at_entry,
  )

  arrive_bar :
      (flags : Flags) (p : Snapshot F)
      → arrive config ticker d s ≡ ok (flags, p)
      → ((flags.initialized || flags.new_bar || flags.data_gap) ≡ true)
        ⊎ (((flags.initialized || flags.new_bar || flags.data_gap) ≡ false)
            × IsSameBar config d s.last_bar_time)
  unfolding arrive take_new_bar
  arrive_bar flags p h = elim (Option-cases s.last_bar_time) [
    | inl first ↦ inl (ground (arith, first))
    | inr (prior, last) ↦
        elim (Bool-cases (ltb (minutes config.interval_minutes) (d.bar_time - prior))) [
          | inl gap ↦ inl (ground (arith, last, gap))
          | inr near ↦ elim (Bool-cases ((d.bar_time - prior) == minutes config.interval_minutes)) [
            | inl next ↦ inl (ground (arith, last, near, next))
            | inr same ↦ inr (
              ground (arith, last, near, same),
              record {
                prior = prior;
                last = last;
                kept = ground (arith, last, near, same);
                near = ground (arith, last, near, same);
              },
            )
          ]
        ]
  ]

  value_snapshot_bar :
      (r : Flags × Bool × ℕ × Snapshot F)
      → r.3.state.last_bar_time ≡ s.last_bar_time
      → ((r.0.initialized || r.0.new_bar || r.0.data_gap) ≡ true)
        ⊎ (((r.0.initialized || r.0.new_bar || r.0.data_gap) ≡ false)
            × IsSameBar config d s.last_bar_time)
      → ((value_snapshot config ticker d r).0.last_bar_time ≡ some d.bar_time)
        ⊎ (((value_snapshot config ticker d r).0.last_bar_time ≡ s.last_bar_time)
            × IsSameBar config d s.last_bar_time)
  unfolding value_snapshot keep_decision new_position_peak check_drawdown tick_cooldown
  value_snapshot_bar r keeps (inl moves) = inl (ground (arith, moves))
  value_snapshot_bar r keeps (inr (unmoved, same)) = inr (ground (arith, unmoved, keeps), same)

  kept_bar :
      (later : Option ℕ)
      → NotBefore s.last_bar_time (some d.bar_time)
      → (later ≡ some d.bar_time) ⊎ ((later ≡ s.last_bar_time) × IsSameBar config d s.last_bar_time)
      → NotBefore s.last_bar_time later
  kept_bar later after (inl moves) = rw moves after
  kept_bar later after (inr (unmoved, same)) = rw unmoved (rw same.last (omega arith))

  -- A snapshot that returns stamps the account with the ticker's two times, and its last bar becomes
  -- the decision's, or stays because the decision's bar is less than an interval after it. None of
  -- the three times is before the one that it replaces.
  pub process_snapshot_clock :
      (s' : PortfolioState F) (result : PaperSnapshotResult F)
      → process_snapshot config ticker d s ≡ ok (s', result)
      → (s'.updated_at ≡ some ticker.observed_at)
        × (s'.last_ticker_exchange_time ≡ some ticker.exchange_timestamp)
        × NotBefore s.updated_at s'.updated_at
        × NotBefore s.last_ticker_exchange_time s'.last_ticker_exchange_time
        × ((s'.last_bar_time ≡ some d.bar_time)
            ⊎ ((s'.last_bar_time ≡ s.last_bar_time) × IsSameBar config d s.last_bar_time))
        × NotBefore s.last_bar_time s'.last_bar_time
  process_snapshot_clock s' result h =
      let (r, t, v, fits) = process_snapshot-Trace config ticker d s (s', result) h in
      let (observed, exchange) = value_snapshot_times r in
      let (after_update, after_trade) = check_ticker_times fits in
      let updated : s'.updated_at ≡ some ticker.observed_at = ground arith in
      let exchanged : s'.last_ticker_exchange_time ≡ some ticker.exchange_timestamp =
        ground arith in
      let bar = value_snapshot_bar r (traded_bar r t) (arrive_bar r.0 t.start t.arrived) in
      let moved : (s'.last_bar_time ≡ some d.bar_time)
          ⊎ ((s'.last_bar_time ≡ s.last_bar_time) × IsSameBar config d s.last_bar_time) =
        subst
          (λ (x : PortfolioState F × PaperSnapshotResult F).
            (x.0.last_bar_time ≡ some d.bar_time)
            ⊎ ((x.0.last_bar_time ≡ s.last_bar_time) × IsSameBar config d s.last_bar_time))
          v bar in
      (
        updated,
        exchanged,
        rw updated after_update,
        rw exchanged after_trade,
        moved,
        kept_bar s'.last_bar_time (arrive_times r.0 t.start t.arrived) moved,
      )
