-- ===== src/Paper/Monitor.antt =====
-- src/coinpilot/paper.py, `run_paper_once`: the watch over a position that is held, before any candle
-- or model is read.
use native.Mathlib.Decide.{dec_lt}
use ai_coin_trading.Prelude.{
  ◌>>=◌, ℕ, ◌<◌, ◌≡◌, ◌∙◌, ◌⊎◌, inl, inr, Bool, true, false, not, ◌&&◌, Option, none, some, ◌++◌,
  arith, if◌then◌else◌, Bool-cases, Option-cases, no_persisted_bar, Result, ok, raised,
  >>=-returned,
}
use ai_coin_trading.Arith.{Arith, IsOrdered}
use ai_coin_trading.Broker.{HaltState, active, halt_pending, halted, buy_side, PortfolioState}
use ai_coin_trading.Engine.Consistency.{IsConsistent}
use ai_coin_trading.Engine.Types.{is_held}
use ai_coin_trading.Paper.Activity.{process_snapshot-fills, IsTimely, process_snapshot_entry}
use ai_coin_trading.Paper.Consistency.{process_snapshot-IsConsistent}
use ai_coin_trading.Paper.Count.{fills, fills-append}
use ai_coin_trading.Paper.Halts.{process_snapshot_halted, process_snapshot_liquidates}
use ai_coin_trading.Paper.Process.{process_snapshot}
use ai_coin_trading.Paper.Types.{AppConfig, MarketTicker, Decision, PaperSnapshotResult}

abbrev pub is_halt_pending : HaltState → Bool
is_halt_pending halt_pending = true
is_halt_pending _ = false

module _ {F : Type 0} ⦃a : Arith F⦄ where
  -- The arguments of the first call: the account's own bar and decision.
  abbrev pub standing_decision : ℕ → PortfolioState F → Decision F
  standing_decision bar_time s = record {
    bar_time = bar_time;
    signal = record {
      probability = s.pending_probability;
      atr_pct = s.pending_atr_pct;
      model_id = s.pending_model_id;
      expected_gross_return = s.pending_expected_gross_return;
      calibration_buffer = s.pending_calibration_buffer;
      expected_net_edge = s.pending_expected_net_edge;
      signal_eligible = s.pending_signal_eligible;
      no_trade_reason = s.pending_no_trade_reason;
    };
    model_ready = true;
    model_error = none;
  }

  -- The arguments of the call that follows up on a halt.
  abbrev pub no_decision : ℕ → PortfolioState F → Decision F
  no_decision bar_time s = record {
    bar_time = bar_time;
    signal = record {
      probability = none;
      atr_pct = none;
      model_id = s.pending_model_id;
      expected_gross_return = none;
      calibration_buffer = none;
      expected_net_edge = none;
      signal_eligible = false;
      no_trade_reason = none;
    };
    model_ready = true;
    model_error = none;
  }

  abbrev pub joined :
      PaperSnapshotResult F
      → PortfolioState F × PaperSnapshotResult F
      → PortfolioState F × PaperSnapshotResult F
  joined first (s, followup) = (
    s,
    record {
      processed_bar = false;
      equity = followup.equity;
      events = first.events ++ followup.events;
      trades = first.trades ++ followup.trades;
    },
  )

  unfoldable pub follow_up :
      AppConfig F
      → MarketTicker F
      → ℕ
      → PortfolioState F × PaperSnapshotResult F
      → Result (PortfolioState F) (PortfolioState F × PaperSnapshotResult F)
  follow_up config ticker bar_time (s, first) =
      if not (is_held s && is_halt_pending s.halt_state)
      then ok (s, first)
      else process_snapshot config ticker (no_decision bar_time s) s >>= λ second.
          ok (joined first second)

  -- The two looks at a position that is held, at the account's own bar.
  unfoldable pub watch_position :
      AppConfig F
      → MarketTicker F
      → ℕ
      → PortfolioState F
      → Result (PortfolioState F) (PortfolioState F × PaperSnapshotResult F)
  watch_position config ticker bar_time s =
      process_snapshot config ticker (standing_decision bar_time s) s
      >>= follow_up config ticker bar_time

  -- The account that the watch leaves, and its result if there was a position to watch.
  unfoldable pub monitor_position :
      AppConfig F
      → MarketTicker F
      → PortfolioState F
      → Result (PortfolioState F) (PortfolioState F × Option (PaperSnapshotResult F))
  monitor_position config ticker s =
      if not (is_held s) then ok (s, none) else elim s.last_bar_time [
        | none ↦ raised no_persisted_bar s
        | some bar_time ↦
            watch_position config ticker bar_time s >>= λ watched. ok (watched.0, some watched.1)
      ]

module _ {F : Type 0} ⦃a : Arith F⦄ (order : IsOrdered a) (config : AppConfig F)
    (ticker : MarketTicker F) (bar_time : ℕ) where
  followed_up :
      (s s' : PortfolioState F) (first result : PaperSnapshotResult F)
      → follow_up config ticker bar_time (s, first) ≡ ok (s', result)
      → (is_held s && is_halt_pending s.halt_state) ≡ true
      → (process_snapshot config ticker (no_decision bar_time s) s >>= λ second.
          ok (joined first second))
        ≡ ok (s', result)
  unfolding follow_up
  followed_up s s' first result h due = ground arith

  -- What is so after the second look, if there was one.
  SettledBy :
      PortfolioState F → PaperSnapshotResult F → PortfolioState F → PaperSnapshotResult F → Type 0
  SettledBy s first s' result =
      ((s'.halt_state ≡ active) ⊎ ((s'.halt_state ≡ halted) × (is_held s' ≡ false)))
      × (fills buy_side result.events ≡ fills buy_side first.events)

  follow_up_sold :
      (s s' : PortfolioState F) (first result : PaperSnapshotResult F)
      → follow_up config ticker bar_time (s, first) ≡ ok (s', result)
      → (is_held s && is_halt_pending s.halt_state) ≡ true
      → SettledBy s first s' result
  unfolding SettledBy
  follow_up_sold s s' first result h due =
      let ((s₂, second), sold, same) =
        >>=-returned (process_snapshot config ticker (no_decision bar_time s) s)
          (λ second. ok (joined first second)) (followed_up s s' first result h due) in
      let liquidated =
        process_snapshot_liquidates order config ticker (no_decision bar_time s) s s₂ second
          (inl (ground arith)) (ground arith) sold in
      let emptied =
        process_snapshot_halted order config ticker (no_decision bar_time s) s s₂ second
          (inl (ground arith)) sold in
      ground (arith, fills-append buy_side first.events second.events)

  follow_up_settles :
      (s s' : PortfolioState F) (first result : PaperSnapshotResult F)
      → IsConsistent s
      → follow_up config ticker bar_time (s, first) ≡ ok (s', result)
      → SettledBy s first s' result
  unfolding follow_up SettledBy
  follow_up_settles s s' first result valid h =
      elim (Bool-cases (is_held s && is_halt_pending s.halt_state)) [
        | inl due ↦ follow_up_sold s s' first result h due
        | inr over ↦ ground (arith, valid.halt)
      ]

  -- No purchase can be made at a bar that the account has seen.
  no_entry_at_last_bar :
      (d : Decision F) (s s' : PortfolioState F) (result : PaperSnapshotResult F)
      → 0 < config.interval_minutes
      → s.last_bar_time ≡ some d.bar_time
      → process_snapshot config ticker d s ≡ ok (s', result)
      → fills buy_side result.events ≡ 0
  no_entry_at_last_bar d s s' result pace last h = elim (dec_lt (fills buy_side result.events) 1) [
    | yes none_bought ↦ omega arith
    | no bought ↦
        let once = process_snapshot-fills config ticker d s s' result h in
        let entry = process_snapshot_entry config ticker d s s' result h (omega arith) in
        let timely : IsTimely config ticker d (some d.bar_time) = rw last at (entry.0) in
        absurd (omega arith)
  ]

  -- The two looks, at the account's own last bar.
  watch_position_settles :
      (s s' : PortfolioState F) (result : PaperSnapshotResult F)
      → 0 < config.interval_minutes
      → IsConsistent s
      → s.last_bar_time ≡ some bar_time
      → watch_position config ticker bar_time s ≡ ok (s', result)
      → ((s'.halt_state ≡ active) ⊎ ((s'.halt_state ≡ halted) × (is_held s' ≡ false)))
        × (fills buy_side result.events ≡ 0)
  unfolding watch_position SettledBy
  watch_position_settles s s' result pace valid last h =
      let ((s₁, first), watched, rest) =
        >>=-returned (process_snapshot config ticker (standing_decision bar_time s) s) _ h in
      let settled =
        follow_up_settles s₁ s' first result
          (process_snapshot-IsConsistent order config ticker (standing_decision bar_time s) s s₁
            first valid watched)
          rest in
      let unbought =
        no_entry_at_last_bar (standing_decision bar_time s) s s₁ first pace last watched in
      (settled.0, settled.1 ∙ unbought)

module _ {F : Type 0} ⦃a : Arith F⦄ (order : IsOrdered a) (config : AppConfig F)
    (ticker : MarketTicker F) where
  monitor_position_watches :
      (s s' : PortfolioState F) (result : PaperSnapshotResult F)
      → monitor_position config ticker s ≡ ok (s', some result)
      → (bar_time : ℕ) × (s.last_bar_time ≡ some bar_time)
        × (watch_position config ticker bar_time s ≡ ok (s', result))
  unfolding monitor_position
  monitor_position_watches s s' result h = elim (Bool-cases (is_held s)) [
    | inr empty ↦ absurd (ground (arith, empty))
    | inl held ↦ elim (Option-cases s.last_bar_time) [
      | inl lost ↦ absurd (ground (arith, held, lost))
      | inr (bar_time, last) ↦
          let (watched, returned, same) =
            >>=-returned {B = PortfolioState F × Option (PaperSnapshotResult F)}
              {y = (s', some result)} (watch_position config ticker bar_time s)
              (λ watched. ok (watched.0, some watched.1)) (ground (arith, held, last)) in
          (bar_time, last, ground (arith, returned, same))
    ]
  ]

  -- The watch over a consistent account with a position, where it returns, buys nothing and ends with
  -- no halt pending: the account is active, or it is halted and holds no position.
  pub monitor_position_settles :
      (s s' : PortfolioState F) (result : PaperSnapshotResult F)
      → 0 < config.interval_minutes
      → IsConsistent s
      → monitor_position config ticker s ≡ ok (s', some result)
      → ((s'.halt_state ≡ active) ⊎ ((s'.halt_state ≡ halted) × (is_held s' ≡ false)))
        × (fills buy_side result.events ≡ 0)
  monitor_position_settles s s' result pace valid h =
      let (bar_time, last, watched) = monitor_position_watches s s' result h in
      watch_position_settles order config ticker bar_time s s' result pace valid last watched
