-- ===== src/Engine/Errors.antt =====
-- The exceptions that a bar can raise on a consistent account.
use ai_coin_trading.Prelude.{
  ℕ, ◌^◌, String, ◌≡◌, ◌≢◌, ◌⊎◌, inl, inr, Bool, true, false, Option, arith, Error, negative_cash,
  market_mismatch, bars_not_increasing, raised, >>=-raised,
}
use ai_coin_trading.Arith.{Arith, IsOrdered, ◌⊕◌, ◌⊘◌, ◌<?◌, ◌≤?◌, zero_f, one_f}
use ai_coin_trading.Broker.{RiskConfig, Reason, Pending, PortfolioState, flat, buy, sell_all}
use ai_coin_trading.Engine.Blocks.{check_gap, sell, exit_at_open, open_position, enter, check_stop}
use ai_coin_trading.Engine.Consistency.{
  IsConsistent, HasEntry, check_gap-HasEntry, exit_at_open-HasEntry, enter-HasEntry,
}
use ai_coin_trading.Engine.Process.{trade_bar, process_bar}
use ai_coin_trading.Engine.Types.{EngineConfig, Bar, Signal, Progress, is_held}
use ai_coin_trading.Risk.{accepted, size_entry}

-- The literals of the guards, and a minimum order that the configuration's validation has passed.
pub record HasLimits {F : Type 0} (a : Arith F) (config : RiskConfig F) : Type 0 where
  pub order : IsOrdered a
  pub dust : a.lt (a.literal 0 1) (a.literal 1 (10 ^ 15)) ≡ true
  pub minimum_order : a.lt (a.literal 0 1) config.minimum_order_quote ≡ true

module _ {F : Type 0} ⦃a : Arith F⦄ where
  sell_returns :
      (config : EngineConfig F) (timestamp : ℕ) (price : F) (reason : Reason)
      (execution : Pending F) (p : Progress F) (e : Error) (s : PortfolioState F)
      → IsOrdered a
      → is_held p.state ≡ true
      → HasEntry p.state
      → sell config timestamp price reason execution p ≢ raised e s
  unfolding sell sell_all HasEntry
  sell_returns config timestamp price reason execution p e s order held entry h =
      grind (arith, order.not_le_of_lt zero_f p.state.quantity held, order.lt_irrefl zero_f)

  exit_at_open_returns :
      (config : EngineConfig F) (bar : Bar F) (execution : Pending F) (gap : Bool) (p : Progress F)
      (e : Error) (s : PortfolioState F)
      → IsOrdered a
      → HasEntry p.state
      → exit_at_open config bar execution gap p ≢ raised e s
  unfolding exit_at_open
  exit_at_open_returns config bar execution gap p e s order entry h = grind (arith, sell_returns)

  check_stop_returns :
      (config : EngineConfig F) (bar : Bar F) (execution : Pending F) (p : Progress F) (e : Error)
      (s : PortfolioState F)
      → IsOrdered a
      → HasEntry p.state
      → check_stop config bar execution p ≢ raised e s
  unfolding check_stop
  check_stop_returns config bar execution p e s order entry h = grind (arith, sell_returns)

  -- An accepted notional is positive, and no more than the cash can pay for.
  pub size_entry-accepted :
      (config : RiskConfig F) (equity cash price : F) (atr : Option F) (notional distance : F)
      → HasLimits a config
      → size_entry config equity cash price atr ≡ accepted notional distance
      → ((notional ≤? zero_f) ≡ false) × (((cash ⊘ (one_f ⊕ config.fee_rate)) <? notional) ≡ false)
  unfolding size_entry
  size_entry-accepted config equity cash price atr notional distance limits h = grind (
    arith,
    limits.order.le_lt_trans notional zero_f config.minimum_order_quote,
    limits.minimum_order,
    limits.order.lt_irrefl,
  )

  pub buy_errors :
      (config : RiskConfig F) (timestamp : ℕ) (price notional distance : F) (reason : Reason)
      (signal_time : Option ℕ) (model_id : Option String) (s s' : PortfolioState F) (e : Error)
      → HasLimits a config
      → (s.quantity ≤? zero_f) ≡ true
      → (notional ≤? zero_f) ≡ false
      → ((s.cash ⊘ (one_f ⊕ config.fee_rate)) <? notional) ≡ false
      → buy config timestamp price notional distance reason signal_time model_id s ≡ raised e s'
      → e ≡ negative_cash
  unfolding buy
  buy_errors config timestamp price notional distance reason signal_time model_id s s' e limits flat
        pays affordable h =
      grind (
        arith,
        limits.order.lt_le_trans (a.literal 1 (10 ^ 15)) s.quantity zero_f,
        limits.order.lt_trans zero_f (a.literal 1 (10 ^ 15)) zero_f,
        limits.dust,
        limits.order.lt_irrefl zero_f,
      )

  open_position_errors :
      (config : EngineConfig F) (bar : Bar F) (execution : Pending F) (p : Progress F) (e : Error)
      (s : PortfolioState F)
      → HasLimits a config.risk_config
      → (p.state.quantity ≤? zero_f) ≡ true
      → open_position config bar execution p ≡ raised e s
      → e ≡ negative_cash
  unfolding open_position
  open_position_errors config bar execution p e s limits empty h =
      grind (arith, size_entry-accepted, buy_errors)

  enter_errors :
      (config : EngineConfig F) (bar : Bar F) (execution : Pending F) (cooldown : ℕ)
      (p : Progress F) (e : Error) (s : PortfolioState F)
      → HasLimits a config.risk_config
      → enter config bar execution cooldown p ≡ raised e s
      → e ≡ negative_cash
  unfolding enter
  enter_errors config bar execution cooldown p e s limits h = grind (arith, open_position_errors)

  check_gap_errors :
      (config : EngineConfig F) (bar : Bar F) (s s' : PortfolioState F) (e : Error)
      → check_gap config bar s ≡ raised e s'
      → (e ≡ bars_not_increasing) × (s' ≡ s)
  unfolding check_gap
  check_gap_errors config bar s s' e h = grind arith

  trade_bar_errors :
      (config : EngineConfig F) (bar : Bar F) (s s' : PortfolioState F) (e : Error)
      → HasLimits a config.risk_config
      → IsConsistent s
      → trade_bar config bar s ≡ raised e s'
      → ((e ≡ bars_not_increasing) × (s' ≡ s)) ⊎ (e ≡ negative_cash)
  unfolding trade_bar
  trade_bar_errors config bar s s' e limits valid h =
      elim (>>=-raised (check_gap config bar s) _ h) [
        | inl early ↦ inl (check_gap_errors config bar s s' e early)
        | inr ((p, gap), checked, h₁) ↦
            elim (>>=-raised (exit_at_open config bar p.state.pending gap p) _ h₁) [
              | inl sale ↦ absurd (
                  exit_at_open_returns config bar p.state.pending gap p e s' limits.order
                    (check_gap-HasEntry config bar s p gap checked valid) sale)
              | inr (p₁, left, h₂) ↦
                  elim (>>=-raised (enter config bar p.state.pending p.state.cooldown_remaining p₁)
                    _ h₂) [
                      | inl entry ↦ inr (
                          enter_errors config bar p.state.pending p.state.cooldown_remaining p₁ e s'
                            limits entry)
                      | inr (p₂, entered, h₃) ↦
                          elim (>>=-raised (check_stop config bar p.state.pending p₂) _ h₃) [
                            | inl stop ↦ absurd (
                                check_stop_returns config bar p.state.pending p₂ e s' limits.order
                                  (enter-HasEntry config bar p.state.pending p₁ p₂
                                    p.state.cooldown_remaining entered
                                    (exit_at_open-HasEntry config bar p.state.pending p p₁ gap left
                                      (check_gap-HasEntry config bar s p gap checked valid)))
                                  stop)
                            | inr (p₃, watched, h₄) ↦ cc
                          ]
                    ]
            ]
      ]

  -- On a consistent account, with a positive minimum order, a bar that raises is one of another
  -- market or one out of order, and has changed nothing; or a purchase has met the guard on its
  -- rounded cash. No other exception of the broker can occur.
  pub process_bar_errors :
      (config : EngineConfig F) (now : ℕ) (bar : Bar F) (signal : Signal F)
      (s s' : PortfolioState F) (e : Error)
      → HasLimits a config.risk_config
      → IsConsistent s
      → process_bar config now bar signal s ≡ raised e s'
      → (((e ≡ market_mismatch) ⊎ (e ≡ bars_not_increasing)) × (s' ≡ s)) ⊎ (e ≡ negative_cash)
  unfolding process_bar
  process_bar_errors config now bar signal s s' e limits valid h =
      grind (arith, trade_bar_errors config bar s s' e limits valid)
