-- ===== src/Engine/Causality.antt =====
-- What the model says of a bar cannot change what is traded on that bar.
use ai_coin_trading.Prelude.{ℕ, ◌≡◌, false, none, arith, Result, ok, raised}
use ai_coin_trading.Arith.{Arith}
use ai_coin_trading.Broker.{PortfolioState, no_signal}
use ai_coin_trading.Engine.Process.{close_bar, process_bar}
use ai_coin_trading.Engine.Types.{EngineConfig, Bar, Signal, BarStep}

-- A result without the decision that waits for the next bar.
abbrev pub executed :
    {F : Type 0}
    → Result (PortfolioState F) (PortfolioState F × BarStep F)
    → Result (PortfolioState F) (PortfolioState F × BarStep F)
executed (raised e s) = raised e s
executed (ok (s, step)) = ok (
  record s { pending = no_signal },
  record step {
    pending_probability = none;
    pending_expected_net_edge = none;
    pending_signal_eligible = false;
  },
)

module _ {F : Type 0} ⦃a : Arith F⦄ where
  -- Two calls of `process_bar` that differ only in the current signal raise alike, or return
  -- accounts and steps that agree in all but the pending decision.
  pub process_bar_causal :
      (config : EngineConfig F) (now : ℕ) (bar : Bar F) (x y : Signal F) (s : PortfolioState F)
      → executed (process_bar config now bar x s) ≡ executed (process_bar config now bar y s)
  unfolding process_bar close_bar
  process_bar_causal config now bar x y s = ground arith
