-- ===== src/Paper/Facts.antt =====
-- What a sale, a purchase and each block of `process_snapshot` do, for the proofs that keep them shut.
use ai_coin_trading.Prelude.{
  ℕ, suc, String, ◌≡◌, ◌⊎◌, true, false, Option, [], arith, is_some, length, ok,
}
use ai_coin_trading.Arith.{Arith, ◌⊘◌, ◌≤?◌, zero_f}
use ai_coin_trading.Broker.{
  halted, buy_side, sell_side, Reason, PortfolioState, Fill, flat, buy, sell_all,
}
use ai_coin_trading.Engine.Count.{length-snoc}
use ai_coin_trading.Engine.Types.{is_active, is_held, halt_now}
use ai_coin_trading.Paper.Blocks.{
  record_sell, sell, record_buy, open_position, enter, take_new_bar, arrive, guard_position,
  exit_on_model,
}
use ai_coin_trading.Paper.Count.{fills, fills-snoc}
use ai_coin_trading.Paper.Types.{AppConfig, MarketTicker, Decision, Snapshot, Flags, should_trade}

-- What a sale does.
pub record Sold {F : Type 0} ⦃a : Arith F⦄ (p q : Snapshot F) : Type 0 where
  pub buys : fills buy_side q.events ≡ fills buy_side p.events
  pub sells : fills sell_side q.events ≡ suc (fills sell_side p.events)
  pub traded : length q.trades ≡ suc (length p.trades)
  pub exited : q.exited ≡ true
  pub quantity : q.state.quantity ≡ zero_f
  pub entry : q.state.entry ≡ flat
  pub halt_state : q.state.halt_state ≡ p.state.halt_state
  pub last_bar : q.state.last_bar_time ≡ p.state.last_bar_time

-- What a purchase does.
pub record Bought {F : Type 0} ⦃a : Arith F⦄ (p q : Snapshot F) : Type 0 where
  pub buys : fills buy_side q.events ≡ suc (fills buy_side p.events)
  pub sells : fills sell_side q.events ≡ fills sell_side p.events
  pub traded : q.trades ≡ p.trades
  pub entry_time : is_some q.state.entry_time ≡ true
  pub notional : (q.state.entry_notional ≤? zero_f) ≡ false
  pub quantity : q.state.quantity ≡ q.state.entry_notional ⊘ q.state.entry_price
  pub halt_state : q.state.halt_state ≡ p.state.halt_state
  pub last_bar : q.state.last_bar_time ≡ p.state.last_bar_time

-- A rejected entry only adds its event.
pub record Rejected {F : Type 0} (p q : Snapshot F) : Type 0 where
  pub buys : fills buy_side q.events ≡ fills buy_side p.events
  pub sells : fills sell_side q.events ≡ fills sell_side p.events
  pub traded : q.trades ≡ p.trades
  pub state : q.state ≡ p.state

-- An exit of the guard settles a halt.
pub record Exited {F : Type 0} ⦃a : Arith F⦄ (p q : Snapshot F) : Type 0 where
  pub buys : fills buy_side q.events ≡ fills buy_side p.events
  pub sells : fills sell_side q.events ≡ suc (fills sell_side p.events)
  pub traded : length q.trades ≡ suc (length p.trades)
  pub exited : q.exited ≡ true
  pub quantity : q.state.quantity ≡ zero_f
  pub entry : q.state.entry ≡ flat
  pub last_bar : q.state.last_bar_time ≡ p.state.last_bar_time
  pub halt_state :
      ((is_active p.state.halt_state ≡ false) × (q.state.halt_state ≡ halted))
      ⊎ ((is_active p.state.halt_state ≡ true) × (q.state.halt_state ≡ p.state.halt_state))

-- What an entry needs.
pub record MayEnter {F : Type 0} ⦃a : Arith F⦄ (flags : Flags) (cooldown : ℕ) (p : Snapshot F)
    : Type 0 where
  pub due : should_trade flags ≡ true
  pub empty : (p.state.quantity ≤? zero_f) ≡ true
  pub active : is_active p.state.halt_state ≡ true
  pub cooled : cooldown ≡ 0
  pub unsold : p.exited ≡ false

-- What the arrival of the bar hands on.
pub record Arrived {F : Type 0} ⦃a : Arith F⦄ (s : PortfolioState F) (flags : Flags)
    (p : Snapshot F) : Type 0 where
  pub buys : fills buy_side p.events ≡ 0
  pub sells : fills sell_side p.events ≡ 0
  pub traded : p.trades ≡ []
  pub exited : p.exited ≡ false
  pub quantity : p.state.quantity ≡ s.quantity
  pub entry : p.state.entry ≡ s.entry
  pub cooldown : p.state.cooldown_remaining ≡ s.cooldown_remaining
  pub last_bar : p.state.last_bar_time ≡ s.last_bar_time
  pub halts :
      ((p.state.halt_state ≡ s.halt_state)
        × (flags.data_gap ≡ false)
        × (flags.stale ≡ false)
        × (flags.not_ready ≡ false))
      ⊎ ((p.state.halt_state ≡ halt_now s) × (should_trade flags ≡ false))

module _ {F : Type 0} ⦃a : Arith F⦄ (config : AppConfig F) (ticker : MarketTicker F) where
  pub sell-Sold :
      (reason : Reason) (signal_time : Option ℕ) (model_id : Option String) (p q : Snapshot F)
      → sell config ticker reason signal_time model_id p ≡ ok q
      → Sold p q
  unfolding sell record_sell sell_all
  sell-Sold reason signal_time model_id p q h = grind (arith, fills-snoc, length-snoc)

  pub guard_position_facts :
      (p q : Snapshot F)
      → guard_position config ticker p ≡ ok q
      → ((q ≡ p) × ((is_held p.state ≡ false) ⊎ (is_active p.state.halt_state ≡ true)))
        ⊎ ((is_held p.state ≡ true) × Exited p q)
  unfolding guard_position
  guard_position_facts p q h = grind (arith, sell-Sold)

  record_buy-Bought :
      (signal_time : ℕ) (notional distance : F) (reason : Reason) (time : Option ℕ)
      (model_id : Option String) (p : Snapshot F) (b : PortfolioState F × Fill F)
      → buy config.risk ticker.observed_at ticker.price notional distance reason time model_id
          p.state
        ≡ ok b
      → Bought p (record_buy config ticker signal_time p b)
  unfolding record_buy buy
  record_buy-Bought signal_time notional distance reason time model_id p b h =
      grind (arith, fills-snoc)

  module _ (d : Decision F) where
    pub exit_on_model_facts :
        (flags : Flags) (p q : Snapshot F)
        → exit_on_model config ticker d flags p ≡ ok q
        → (q ≡ p) ⊎ ((is_active p.state.halt_state ≡ true) × (p.exited ≡ false) × Sold p q)
    unfolding exit_on_model
    exit_on_model_facts flags p q h = grind (arith, sell-Sold)

    open_position_facts :
        (p q : Snapshot F) → open_position config ticker d p ≡ ok q → Bought p q ⊎ Rejected p q
    unfolding open_position
    open_position_facts p q h = grind (arith, record_buy-Bought, fills-snoc)

    pub enter_facts :
        (flags : Flags) (cooldown : ℕ) (p q : Snapshot F)
        → enter config ticker d flags cooldown p ≡ ok q
        → (q ≡ p) ⊎ (MayEnter flags cooldown p × (Bought p q ⊎ Rejected p q))
    unfolding enter
    enter_facts flags cooldown p q h = grind (arith, open_position_facts)

    take_new_bar_facts :
        (s : PortfolioState F)
        → Arrived s (take_new_bar config ticker d s).0 (take_new_bar config ticker d s).1
    unfolding take_new_bar fills
    take_new_bar_facts s = ground arith

    pub arrive_facts :
        (s : PortfolioState F) (flags : Flags) (p : Snapshot F)
        → arrive config ticker d s ≡ ok (flags, p)
        → Arrived s flags p
    unfolding arrive fills
    arrive_facts s flags p h = ground (arith, take_new_bar_facts s)
