-- ===== src/Paper/Consistency.antt =====
-- src/coinpilot/paper.py: the invariant of the account (Engine/Consistency) over a snapshot.
use mathlib.Core.Path.{subst}
use ai_coin_trading.Prelude.{ℕ, ◌≡◌, ◌⊎◌, Bool, false, arith, ok}
use ai_coin_trading.Arith.{Arith, IsOrdered, zero_f}
use ai_coin_trading.Broker.{active, halted, PortfolioState, no_signal}
use ai_coin_trading.Engine.Consistency.{IsConsistent, HaltFits, HasEntry}
use ai_coin_trading.Engine.Types.{is_held, halt_now}
use ai_coin_trading.Paper.Facts.{
  enter_facts, guard_position_facts, exit_on_model_facts, arrive_facts,
}
use ai_coin_trading.Paper.Process.{
  check_drawdown, tick_cooldown, keep_decision, new_position_peak, value_snapshot, process_snapshot,
}
use ai_coin_trading.Paper.Trace.{Trace, process_snapshot-Trace}
use ai_coin_trading.Paper.Types.{
  AppConfig, MarketTicker, Decision, Snapshot, Flags, PaperSnapshotResult,
}
use ai_coin_trading.Shadow.Control.{halt}

module _ {F : Type 0} ⦃a : Arith F⦄ (order : IsOrdered a) (config : AppConfig F)
    (ticker : MarketTicker F) (d : Decision F) (s : PortfolioState F) where
  module _ (r : Flags × Bool × ℕ × Snapshot F) (t : Trace config ticker d s r)
      (valid : IsConsistent s) where
    left_entry : HasEntry t.left.state
    unfolding HasEntry
    left_entry = grind (
      arith,
      valid.position,
      arrive_facts config ticker d s r.0 t.start t.arrived,
      guard_position_facts config ticker t.start t.guarded t.at_guard,
      exit_on_model_facts config ticker d r.0 t.guarded t.left t.at_exit,
    )

    traded_entry : HasEntry r.3.state
    unfolding HasEntry
    traded_entry =
        grind (arith, left_entry, enter_facts config ticker d r.0 r.2 t.left r.3 t.at_entry)

    guarded_halt :
        (t.guarded.state.halt_state ≡ active)
        ⊎ ((t.guarded.state.halt_state ≡ halted) × (is_held t.guarded.state ≡ false))
    guarded_halt = grind (
      arith,
      valid.halt,
      order.lt_irrefl zero_f,
      arrive_facts config ticker d s r.0 t.start t.arrived,
      guard_position_facts config ticker t.start t.guarded t.at_guard,
    )

    traded_halt : HaltFits r.3.state
    unfolding HaltFits
    traded_halt = grind (
      arith,
      guarded_halt,
      exit_on_model_facts config ticker d r.0 t.guarded t.left t.at_exit,
      enter_facts config ticker d r.0 r.2 t.left r.3 t.at_entry,
    )

  value_snapshot-HasEntry :
      (r : Flags × Bool × ℕ × Snapshot F)
      → HasEntry r.3.state
      → HasEntry (value_snapshot config ticker d r).0
  unfolding HasEntry value_snapshot check_drawdown tick_cooldown keep_decision new_position_peak
  value_snapshot-HasEntry r entry = ground (arith, order.lt_irrefl zero_f)

  value_snapshot-halt :
      (r : Flags × Bool × ℕ × Snapshot F)
      → HaltFits r.3.state
      → ((value_snapshot config ticker d r).0.halt_state ≡ active)
        ⊎ (((value_snapshot config ticker d r).0.halt_state
              ≡ halt_now (value_snapshot config ticker d r).0)
            × ((value_snapshot config ticker d r).0.pending ≡ no_signal))
  unfolding HaltFits value_snapshot check_drawdown tick_cooldown keep_decision new_position_peak
  value_snapshot-halt r halt = ground arith

  -- A snapshot that returns keeps the account consistent: the account has a purchase that is not sold,
  -- with its entry time, a positive notional and the quantity that this buys at the entry price, or
  -- it has the quantity 0 and all entry fields reset; and it is active, or its halt is pending while
  -- it holds a position and final else, without a decision that waits.
  pub process_snapshot-IsConsistent :
      (s' : PortfolioState F) (result : PaperSnapshotResult F)
      → IsConsistent s
      → process_snapshot config ticker d s ≡ ok (s', result)
      → IsConsistent s'
  unfolding HasEntry
  process_snapshot-IsConsistent s' result valid h =
      let (r, t, v, fits) = process_snapshot-Trace config ticker d s (s', result) h in
      subst (λ x. IsConsistent x.0) v
        (record {
          position = value_snapshot-HasEntry r (traded_entry r t valid);
          halt = value_snapshot-halt r (traded_halt r t valid);
        })
