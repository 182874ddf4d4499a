-- ===== src/Paper/Errors.antt =====
-- The exceptions that a snapshot can raise on a consistent account.
use ai_coin_trading.Prelude.{
  ℕ, String, ◌≡◌, ◌≢◌, ◌⊎◌, inl, inr, true, Option, arith, Error, negative_cash, ok, raised,
  >>=-raised,
}
use ai_coin_trading.Arith.{Arith, IsOrdered, ◌≤?◌, zero_f}
use ai_coin_trading.Broker.{Reason, PortfolioState, sell_all}
use ai_coin_trading.Engine.Consistency.{IsConsistent, HasEntry}
use ai_coin_trading.Engine.Errors.{HasLimits, size_entry-accepted, buy_errors}
use ai_coin_trading.Engine.Types.{is_held}
use ai_coin_trading.Paper.Blocks.{sell, open_position, enter, arrive, guard_position, exit_on_model}
use ai_coin_trading.Paper.Facts.{guard_position_facts, arrive_facts}
use ai_coin_trading.Paper.Process.{trade_snapshot, process_snapshot}
use ai_coin_trading.Paper.Types.{AppConfig, MarketTicker, Decision, Snapshot, Flags}

module _ {F : Type 0} ⦃a : Arith F⦄ (config : AppConfig F) (ticker : MarketTicker F) where
  sell_returns :
      (reason : Reason) (signal_time : Option ℕ) (model_id : Option String) (p : Snapshot F)
      (e : Error) (s : PortfolioState F)
      → IsOrdered a
      → is_held p.state ≡ true
      → HasEntry p.state
      → sell config ticker reason signal_time model_id p ≢ raised e s
  unfolding sell sell_all HasEntry
  sell_returns reason signal_time model_id p e s order held entry h =
      grind (arith, order.not_le_of_lt zero_f p.state.quantity held, order.lt_irrefl zero_f)

  guard_position_returns :
      (p : Snapshot F) (e : Error) (s : PortfolioState F)
      → IsOrdered a
      → HasEntry p.state
      → guard_position config ticker p ≢ raised e s
  unfolding guard_position
  guard_position_returns p e s order entry h = grind (arith, sell_returns)

  module _ (d : Decision F) where
    exit_on_model_returns :
        (flags : Flags) (p : Snapshot F) (e : Error) (s : PortfolioState F)
        → IsOrdered a
        → HasEntry p.state
        → exit_on_model config ticker d flags p ≢ raised e s
    unfolding exit_on_model
    exit_on_model_returns flags p e s order entry h = grind (arith, sell_returns)

    open_position_errors :
        (p : Snapshot F) (e : Error) (s : PortfolioState F)
        → HasLimits a config.risk
        → (p.state.quantity ≤? zero_f) ≡ true
        → open_position config ticker d p ≡ raised e s
        → e ≡ negative_cash
    unfolding open_position
    open_position_errors p e s limits empty h = grind (arith, size_entry-accepted, buy_errors)

    enter_errors :
        (flags : Flags) (cooldown : ℕ) (p : Snapshot F) (e : Error) (s : PortfolioState F)
        → HasLimits a config.risk
        → enter config ticker d flags cooldown p ≡ raised e s
        → e ≡ negative_cash
    unfolding enter
    enter_errors flags cooldown p e s limits h = grind (arith, open_position_errors)

    arrive_errors :
        (s s' : PortfolioState F) (e : Error) → arrive config ticker d s ≡ raised e s' → s' ≡ s
    unfolding arrive
    arrive_errors s s' e h = ground arith

    start_entry :
        (s : PortfolioState F) (flags : Flags) (p : Snapshot F)
        → arrive config ticker d s ≡ ok (flags, p)
        → IsConsistent s
        → HasEntry p.state
    unfolding HasEntry
    start_entry s flags p h valid =
        ground (arith, valid.position, arrive_facts config ticker d s flags p h)

    guarded_entry :
        (p q : Snapshot F)
        → guard_position config ticker p ≡ ok q
        → HasEntry p.state
        → HasEntry q.state
    unfolding HasEntry
    guarded_entry p q h entry = ground (arith, guard_position_facts config ticker p q h)

    trade_snapshot_errors :
        (s s' : PortfolioState F) (e : Error)
        → HasLimits a config.risk
        → IsConsistent s
        → trade_snapshot config ticker d s ≡ raised e s'
        → (s' ≡ s) ⊎ (e ≡ negative_cash)
    unfolding trade_snapshot
    trade_snapshot_errors s s' e limits valid h = elim (>>=-raised (arrive config ticker d s) _ h) [
      | inl early ↦ inl (arrive_errors s s' e early)
      | inr ((flags, p), arrived, h₁) ↦
          let entry = start_entry s flags p arrived valid in
          elim (>>=-raised (guard_position config ticker p) _ h₁) [
            | inl guard ↦ absurd (guard_position_returns p e s' limits.order entry guard)
            | inr (p₁, guarded, h₂) ↦
                elim (>>=-raised (exit_on_model config ticker d flags p₁) _ h₂) [
                  | inl exit ↦ absurd (
                      exit_on_model_returns flags p₁ e s' limits.order
                        (guarded_entry p p₁ guarded entry) exit)
                  | inr (p₂, left, h₃) ↦
                      elim (>>=-raised (enter config ticker d flags p.state.cooldown_remaining p₂) _
                        h₃) [
                          | inl entered ↦
                              inr (
                                enter_errors flags p.state.cooldown_remaining p₂ e s' limits
                                  entered)
                          | inr (p₃, entered, h₄) ↦ cc
                        ]
                ]
          ]
    ]

    -- A snapshot that raises on a consistent account has changed nothing, or its purchase has met
    -- the guard on its rounded cash.
    pub process_snapshot_errors :
        (s s' : PortfolioState F) (e : Error)
        → HasLimits a config.risk
        → IsConsistent s
        → process_snapshot config ticker d s ≡ raised e s'
        → (s' ≡ s) ⊎ (e ≡ negative_cash)
    unfolding process_snapshot
    process_snapshot_errors s s' e limits valid h =
        grind (arith, trade_snapshot_errors s s' e limits valid)
