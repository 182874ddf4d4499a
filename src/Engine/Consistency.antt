-- ===== src/Engine/Consistency.antt =====
-- src/coinpilot/engine.py: the invariant of the account. What has been bought is recorded with its
-- entry, or nothing has and the entry fields are reset; and a halt is pending exactly while there is
-- a position, and leaves no decision.
use ai_coin_trading.Prelude.{ℕ, ◌≡◌, ◌⊎◌, Bool, true, false, Option, arith, is_some, ok}
use ai_coin_trading.Arith.{Arith, IsOrdered, ◌⊘◌, ◌≤?◌, zero_f}
use ai_coin_trading.Broker.{active, Pending, PortfolioState, Fill, Trade, no_signal, flat, sell_all}
use ai_coin_trading.Engine.Blocks.{check_gap, exit_at_open, enter}
use ai_coin_trading.Engine.Facts.{
  exit_at_open_facts, enter_facts, check_stop_facts, check_gap_facts, check_drawdown_facts,
}
use ai_coin_trading.Engine.Process.{
  check_drawdown, tick_cooldown, next_pending, close_bar, process_bar, liquidate,
}
use ai_coin_trading.Engine.Trace.{Trace, process_bar-Trace}
use ai_coin_trading.Engine.Types.{EngineConfig, Bar, Signal, BarStep, Progress, is_held, halt_now}

-- The account has a purchase that is not sold: its entry time and its positive notional, and the
-- quantity that the notional has bought at the entry price.
pub record IsEntered {F : Type 0} ⦃a : Arith F⦄ (s : PortfolioState F) : Type 0 where
  pub entry_time : is_some s.entry_time ≡ true
  pub notional : (s.entry_notional ≤? zero_f) ≡ false
  pub quantity : s.quantity ≡ s.entry_notional ⊘ s.entry_price

-- The account has nothing, and all entry fields are reset.
pub record IsFlat {F : Type 0} ⦃a : Arith F⦄ (s : PortfolioState F) : Type 0 where
  pub quantity : s.quantity ≡ zero_f
  pub entry : s.entry ≡ flat

pub record IsConsistent {F : Type 0} ⦃a : Arith F⦄ (s : PortfolioState F) : Type 0 where
  pub position : IsEntered s ⊎ IsFlat s
  pub halt : (s.halt_state ≡ active) ⊎ ((s.halt_state ≡ halt_now s) × (s.pending ≡ no_signal))

-- The halt of an account in the middle of a bar, where a decision may be on its way.
unfoldable pub HaltFits : {F : Type 0} ⦃a : Arith F⦄ → PortfolioState F → Type 0
HaltFits s = (s.halt_state ≡ active) ⊎ (s.halt_state ≡ halt_now s)

-- The position part of the invariant.
unfoldable pub HasEntry : {F : Type 0} ⦃a : Arith F⦄ → PortfolioState F → Type 0
HasEntry s = IsEntered s ⊎ IsFlat s

module _ {F : Type 0} ⦃a : Arith F⦄ (config : EngineConfig F) (bar : Bar F) where
  pub check_gap-HasEntry :
      (s : PortfolioState F) (p : Progress F) (gap : Bool)
      → check_gap config bar s ≡ ok (p, gap)
      → IsConsistent s
      → HasEntry p.state
  unfolding HasEntry
  check_gap-HasEntry s p gap h valid =
      grind (arith, valid.position, check_gap_facts config bar s p gap h)

  pub exit_at_open-HasEntry :
      (execution : Pending F) (p q : Progress F) (gap : Bool)
      → exit_at_open config bar execution gap p ≡ ok q
      → HasEntry p.state
      → HasEntry q.state
  unfolding HasEntry
  exit_at_open-HasEntry execution p q gap h entry =
      grind (arith, exit_at_open_facts config bar execution p q gap h)

  pub enter-HasEntry :
      (execution : Pending F) (p q : Progress F) (cooldown : ℕ)
      → enter config bar execution cooldown p ≡ ok q
      → HasEntry p.state
      → HasEntry q.state
  unfolding HasEntry
  enter-HasEntry execution p q cooldown h entry =
      grind (arith, enter_facts config bar execution p q cooldown h)

module _ {F : Type 0} ⦃a : Arith F⦄ (order : IsOrdered a) (config : EngineConfig F) (bar : Bar F)
    (s : PortfolioState F) where
  module _ (valid : IsConsistent s) (r : Progress F × F × F) (t : Trace config bar s r) where
    entered_position : HasEntry t.entered.state
    entered_position =
        enter-HasEntry config bar t.start.state.pending t.left t.entered
          t.start.state.cooldown_remaining t.at_entry
          (exit_at_open-HasEntry config bar t.start.state.pending t.start t.left t.gap t.at_open
            (check_gap-HasEntry config bar s t.start t.gap t.checked valid))

    watched_position : HasEntry t.watched.state
    unfolding HasEntry
    watched_position = grind (
      arith,
      order.lt_irrefl zero_f,
      entered_position,
      check_stop_facts config bar t.start.state.pending t.entered t.watched t.at_stop,
    )

    closed_position : HasEntry r.0.state
    unfolding HasEntry tick_cooldown
    closed_position = rw t.closed (grind (arith, watched_position, check_drawdown_facts))

    left_halt :
        (t.left.state.halt_state ≡ active)
        ⊎ ((t.left.state.halt_state ≡ halt_now t.left.state) × (is_held t.left.state ≡ false))
    left_halt = grind (
      arith,
      valid.halt,
      order.lt_irrefl zero_f,
      check_gap_facts config bar s t.start t.gap t.checked,
      exit_at_open_facts config bar t.start.state.pending t.start t.left t.gap t.at_open,
    )

    watched_halt : HaltFits t.watched.state
    unfolding HaltFits
    watched_halt = grind (
      arith,
      left_halt,
      enter_facts config bar t.start.state.pending t.left t.entered t.start.state.cooldown_remaining
          t.at_entry,
      check_stop_facts config bar t.start.state.pending t.entered t.watched t.at_stop,
    )

    closed_halt : HaltFits r.0.state
    unfolding HaltFits tick_cooldown check_drawdown
    closed_halt = rw t.closed (grind (arith, watched_halt))

module _ {F : Type 0} ⦃a : Arith F⦄ (config : EngineConfig F) (now : ℕ) (bar : Bar F)
    (signal : Signal F) (s s' : PortfolioState F) (step : BarStep F) where
  close_bar-IsConsistent :
      (r : Progress F × F × F)
      → close_bar config bar signal now r ≡ (s', step)
      → HasEntry r.0.state
      → HaltFits r.0.state
      → IsConsistent s'
  unfolding close_bar next_pending HasEntry HaltFits
  close_bar-IsConsistent r c entry halt = ground arith

  -- A bar that returns keeps the account consistent: the account has a purchase that is not sold,
  -- with its entry time, a positive notional and the quantity that this buys at the entry price, or
  -- it has the quantity 0 and all entry fields reset; and it is active, or its halt is pending while
  -- it holds a position and final else, without a decision that waits.
  pub process_bar-IsConsistent :
      IsOrdered a
      → IsConsistent s
      → process_bar config now bar signal s ≡ ok (s', step)
      → IsConsistent s'
  process_bar-IsConsistent order valid h =
      let (r, t, c) = process_bar-Trace config bar s now signal (s', step) h in
      close_bar-IsConsistent r c (closed_position order config bar s valid r t)
        (closed_halt order config bar s valid r t)

-- The sale at the end of a run returns a consistent account to a consistent one.
pub liquidate-IsConsistent :
    {F : Type 0} ⦃a : Arith F⦄ (config : EngineConfig F) (now timestamp : ℕ) (price : F)
    (s s' : PortfolioState F) (traded : Option (Fill F × Trade F))
    → IsOrdered a
    → IsConsistent s
    → liquidate config now timestamp price s ≡ ok (s', traded)
    → IsConsistent s'
unfolding liquidate sell_all
liquidate-IsConsistent config now timestamp price s s' traded order valid h =
    grind (arith, order.lt_irrefl zero_f, valid.position, valid.halt)
