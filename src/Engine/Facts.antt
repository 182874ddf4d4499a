-- ===== src/Engine/Facts.antt =====
-- What a sale, a purchase and each block of `process_bar` do to the account and to the lists of the
-- bar, for the proofs that keep the blocks shut.
use ai_coin_trading.Prelude.{
  ℕ, suc, String, ◌≡◌, ◌⊎◌, Bool, true, false, Option, [], arith, is_some, length, ok,
}
use ai_coin_trading.Arith.{Arith, ◌⊘◌, ◌≤?◌, zero_f, max_f}
use ai_coin_trading.Broker.{
  RiskConfig, halted, buy_side, sell_side, Reason, Pending, PortfolioState, Fill, no_signal, flat,
  buy, sell_all,
}
use ai_coin_trading.Engine.Blocks.{
  after_gap, check_gap, record_sell, sell, exit_at_open, record_buy, record_rejection,
  open_position, enter, with_peak_price, check_stop,
}
use ai_coin_trading.Engine.Count.{fills, fills-snoc, length-snoc}
use ai_coin_trading.Engine.Process.{check_drawdown}
use ai_coin_trading.Engine.Types.{EngineConfig, Bar, Progress, is_active, is_held, halt_now}

-- What a sale does: the position is gone, and one sale and one trade are recorded.
pub record Sold {F : Type 0} ⦃a : Arith F⦄ (p q : Progress F) : Type 0 where
  pub buys : fills buy_side q.events ≡ fills buy_side p.events
  pub sells : fills sell_side q.events ≡ suc (fills sell_side p.events)
  pub traded : length q.trades ≡ suc (length p.trades)
  pub exited : q.exited ≡ true
  pub stop_triggered : q.stop_triggered ≡ p.stop_triggered
  pub quantity : q.state.quantity ≡ zero_f
  pub entry : q.state.entry ≡ flat
  pub halt_state : q.state.halt_state ≡ p.state.halt_state
  pub pending : q.state.pending ≡ p.state.pending
  pub cooldown : q.state.cooldown_remaining ≡ p.state.cooldown_remaining
  pub peak_equity : q.state.peak_equity ≡ p.state.peak_equity
  pub market : q.state.market ≡ p.state.market

-- What a purchase does: a position is recorded, with its entry time, and one buy.
pub record Bought {F : Type 0} ⦃a : Arith F⦄ (p q : Progress F) : Type 0 where
  pub buys : fills buy_side q.events ≡ suc (fills buy_side p.events)
  pub sells : fills sell_side q.events ≡ fills sell_side p.events
  pub traded : q.trades ≡ p.trades
  pub exited : q.exited ≡ p.exited
  pub stop_triggered : q.stop_triggered ≡ p.stop_triggered
  pub entry_time : is_some q.state.entry_time ≡ true
  pub notional : (q.state.entry_notional ≤? zero_f) ≡ false
  pub quantity : q.state.quantity ≡ q.state.entry_notional ⊘ q.state.entry_price
  pub halt_state : q.state.halt_state ≡ p.state.halt_state
  pub pending : q.state.pending ≡ p.state.pending
  pub cooldown : q.state.cooldown_remaining ≡ p.state.cooldown_remaining
  pub peak_equity : q.state.peak_equity ≡ p.state.peak_equity
  pub market : q.state.market ≡ p.state.market

-- A rejected entry only adds its event.
pub record Rejected {F : Type 0} (p q : Progress F) : Type 0 where
  pub buys : fills buy_side q.events ≡ fills buy_side p.events
  pub sells : fills sell_side q.events ≡ fills sell_side p.events
  pub traded : q.trades ≡ p.trades
  pub exited : q.exited ≡ p.exited
  pub stop_triggered : q.stop_triggered ≡ p.stop_triggered
  pub state : q.state ≡ p.state

module _ {F : Type 0} ⦃a : Arith F⦄ where
  pub sell-Sold :
      (config : EngineConfig F) (timestamp : ℕ) (price : F) (reason : Reason)
      (execution : Pending F) (p q : Progress F)
      → sell config timestamp price reason execution p ≡ ok q
      → Sold p q
  unfolding sell record_sell sell_all
  sell-Sold config timestamp price reason execution p q h = grind (arith, fills-snoc, length-snoc)

  pub record_buy-Bought :
      (config : EngineConfig F) (timestamp : ℕ) (price notional distance : F)
      (signal_time : Option ℕ) (model_id : Option String) (p : Progress F)
      (b : PortfolioState F × Fill F)
      → buy config.risk_config timestamp price notional distance Reason.model_entry signal_time
          model_id p.state
        ≡ ok b
      → Bought p (record_buy config timestamp p b)
  unfolding record_buy buy
  record_buy-Bought config timestamp price notional distance signal_time model_id p b h =
      grind (arith, fills-snoc, length-snoc)

  pub open_position_facts :
      (config : EngineConfig F) (bar : Bar F) (execution : Pending F) (p q : Progress F)
      → open_position config bar execution p ≡ ok q
      → Bought p q ⊎ Rejected p q
  unfolding open_position record_rejection
  open_position_facts config bar execution p q h = grind (arith, record_buy-Bought, fills-snoc)

-- An exit at the open is a sale that also settles a halt.
pub record Exited {F : Type 0} ⦃a : Arith F⦄ (p q : Progress F) : Type 0 where
  pub buys : fills buy_side q.events ≡ fills buy_side p.events
  pub sells : fills sell_side q.events ≡ suc (fills sell_side p.events)
  pub traded : length q.trades ≡ suc (length p.trades)
  pub exited : q.exited ≡ true
  pub stop_triggered : q.stop_triggered ≡ p.stop_triggered
  pub quantity : q.state.quantity ≡ zero_f
  pub entry : q.state.entry ≡ flat
  pub settled : is_active p.state.halt_state ≡ false → q.state.halt_state ≡ halted
  pub unhalted : is_active p.state.halt_state ≡ true → q.state.halt_state ≡ p.state.halt_state
  pub pending : q.state.pending ≡ p.state.pending
  pub cooldown : q.state.cooldown_remaining ≡ p.state.cooldown_remaining
  pub peak_equity : q.state.peak_equity ≡ p.state.peak_equity
  pub market : q.state.market ≡ p.state.market

-- What an entry needs.
pub record MayEnter {F : Type 0} ⦃a : Arith F⦄ (cooldown : ℕ) (p : Progress F) : Type 0 where
  pub empty : (p.state.quantity ≤? zero_f) ≡ true
  pub active : is_active p.state.halt_state ≡ true
  pub cooled : cooldown ≡ 0
  pub unsold : p.exited ≡ false

-- A stop is a sale that starts the cooldown.
pub record Stopped {F : Type 0} ⦃a : Arith F⦄ (config : RiskConfig F) (p q : Progress F)
    : Type 0 where
  pub buys : fills buy_side q.events ≡ fills buy_side p.events
  pub sells : fills sell_side q.events ≡ suc (fills sell_side p.events)
  pub traded : length q.trades ≡ suc (length p.trades)
  pub stop_triggered : q.stop_triggered ≡ true
  pub quantity : q.state.quantity ≡ zero_f
  pub entry : q.state.entry ≡ flat
  pub halt_state : q.state.halt_state ≡ p.state.halt_state
  pub pending : q.state.pending ≡ p.state.pending
  pub cooldown : q.state.cooldown_remaining ≡ config.cooldown_bars
  pub peak_equity : q.state.peak_equity ≡ p.state.peak_equity
  pub market : q.state.market ≡ p.state.market

module _ {F : Type 0} ⦃a : Arith F⦄ (config : EngineConfig F) (bar : Bar F) (execution : Pending F)
    (p q : Progress F) where
  pub exit_at_open_facts :
      (gap : Bool)
      → exit_at_open config bar execution gap p ≡ ok q
      → ((q ≡ p) × ((is_held p.state ≡ false) ⊎ (is_active p.state.halt_state ≡ true)))
        ⊎ ((is_held p.state ≡ true) × Exited p q)
  unfolding exit_at_open
  exit_at_open_facts gap h = grind (arith, sell-Sold)

  pub enter_facts :
      (cooldown : ℕ)
      → enter config bar execution cooldown p ≡ ok q
      → (q ≡ p) ⊎ (MayEnter cooldown p × (Bought p q ⊎ Rejected p q))
  unfolding enter
  enter_facts cooldown h = grind (arith, open_position_facts)

  pub check_stop_facts :
      check_stop config bar execution p ≡ ok q
      → ((is_held p.state ≡ false) × (q ≡ p))
        ⊎ ((is_held p.state ≡ true) × Stopped config.risk_config p q)
        ⊎ ((is_held p.state ≡ true)
            × (q ≡ record p {
              state = with_peak_price (max_f p.state.peak_position_price bar.high) p.state;
            }))
  unfolding check_stop
  check_stop_facts h = grind (arith, sell-Sold)

-- What the gap check hands on: empty lists, the same position, and no halt lifted.
pub record Checked {F : Type 0} ⦃a : Arith F⦄ (s : PortfolioState F) (p : Progress F) : Type 0 where
  pub buys : fills buy_side p.events ≡ 0
  pub sells : fills sell_side p.events ≡ 0
  pub traded : p.trades ≡ []
  pub exited : p.exited ≡ false
  pub stop_triggered : p.stop_triggered ≡ false
  pub quantity : p.state.quantity ≡ s.quantity
  pub entry : p.state.entry ≡ s.entry
  pub cooldown : p.state.cooldown_remaining ≡ s.cooldown_remaining
  pub peak_equity : p.state.peak_equity ≡ s.peak_equity
  pub market : p.state.market ≡ s.market
  pub halts : (p.state.halt_state ≡ s.halt_state) ⊎ (p.state.halt_state ≡ halt_now s)
  pub pending : (p.state.pending ≡ s.pending) ⊎ (p.state.pending ≡ no_signal)

-- What the blocks after the stop leave alone, and how the halt may change.
pub record Marked {F : Type 0} ⦃a : Arith F⦄ (p q : Progress F) : Type 0 where
  pub buys : fills buy_side q.events ≡ fills buy_side p.events
  pub sells : fills sell_side q.events ≡ fills sell_side p.events
  pub traded : q.trades ≡ p.trades
  pub stop_triggered : q.stop_triggered ≡ p.stop_triggered
  pub quantity : q.state.quantity ≡ p.state.quantity
  pub entry : q.state.entry ≡ p.state.entry
  pub pending : q.state.pending ≡ p.state.pending
  pub cooldown : q.state.cooldown_remaining ≡ p.state.cooldown_remaining
  pub peak_equity : q.state.peak_equity ≡ p.state.peak_equity
  pub market : q.state.market ≡ p.state.market
  pub halts : (q.state.halt_state ≡ p.state.halt_state) ⊎ (q.state.halt_state ≡ halt_now p.state)

module _ {F : Type 0} ⦃a : Arith F⦄ (config : EngineConfig F) (bar : Bar F) where
  pub check_gap_facts :
      (s : PortfolioState F) (p : Progress F) (gap : Bool)
      → check_gap config bar s ≡ ok (p, gap)
      → Checked s p
  unfolding check_gap after_gap fills
  check_gap_facts s p gap h = grind arith

  pub check_drawdown_facts :
      (equity d : F) (p : Progress F) → Marked p (check_drawdown config bar equity d p)
  unfolding check_drawdown
  check_drawdown_facts equity d p = grind (arith, fills-snoc)
