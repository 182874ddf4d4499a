-- ===== src/Engine/Trace.antt =====
-- The way of a bar that returns through the blocks of `process_bar`.
use ai_coin_trading.Prelude.{
  ℕ, ◌≡◌, refl, Bool, true, false, not, arith, str_eq, if◌then◌else◌, market_mismatch, Result, ok,
  raised, ◌>>=◌, >>=-returned,
}
use ai_coin_trading.Arith.{Arith}
use ai_coin_trading.Broker.{PortfolioState}
use ai_coin_trading.Engine.Blocks.{check_gap, exit_at_open, enter, check_stop}
use ai_coin_trading.Engine.Process.{
  equity_at, check_drawdown, with_peak_equity, tick_cooldown, trade_bar, close_bar, process_bar,
}
use ai_coin_trading.Engine.Types.{EngineConfig, Bar, Signal, BarStep, Progress}
use ai_coin_trading.Risk.{drawdown}

-- The account after each block, and what the bar ends on.
pub record Trace {F : Type 0} ⦃a : Arith F⦄ (config : EngineConfig F) (bar : Bar F)
    (s : PortfolioState F) (r : Progress F × F × F) : Type 0 where
  pub start : Progress F
  pub gap : Bool
  pub left : Progress F
  pub entered : Progress F
  pub watched : Progress F
  pub checked : check_gap config bar s ≡ ok (start, gap)
  pub at_open : exit_at_open config bar start.state.pending gap start ≡ ok left
  pub at_entry :
      enter config bar start.state.pending start.state.cooldown_remaining left ≡ ok entered
  pub at_stop : check_stop config bar start.state.pending entered ≡ ok watched
  pub valued : r.1 ≡ equity_at config.risk_config bar.close watched.state
  pub fallen : r.2 ≡ drawdown r.1 (with_peak_equity r.1 watched).state.peak_equity
  pub closed :
      r.0
      ≡ tick_cooldown start.state.cooldown_remaining
          (check_drawdown config bar r.1 r.2 (with_peak_equity r.1 watched))

module _ {F : Type 0} ⦃a : Arith F⦄ (config : EngineConfig F) (bar : Bar F)
    (s : PortfolioState F) where
  pub trade_bar-Trace :
      (r : Progress F × F × F) → trade_bar config bar s ≡ ok r → Trace config bar s r
  unfolding trade_bar
  trade_bar-Trace r h =
      let (c, checked, h₁) = >>=-returned (check_gap config bar s) _ h in
      let (left, at_open, h₂) =
        >>=-returned (exit_at_open config bar c.0.state.pending c.1 c.0) _ h₁ in
      let (entered, at_entry, h₃) =
        >>=-returned (enter config bar c.0.state.pending c.0.state.cooldown_remaining left) _ h₂ in
      let (watched, at_stop, h₄) =
        >>=-returned (check_stop config bar c.0.state.pending entered) _ h₃ in
      record {
        start = c.0;
        gap = c.1;
        left = left;
        entered = entered;
        watched = watched;
        checked = checked;
        at_open = at_open;
        at_entry = at_entry;
        at_stop = at_stop;
        valued = ground arith;
        fallen = ground arith;
        closed = ground arith;
      }

  -- A call of `process_bar` that returns has traded the bar and closed it.
  traded_bar :
      (now : ℕ) (signal : Signal F) (fits : Bool)
      (t : Result (PortfolioState F) (Progress F × F × F)) (x : PortfolioState F × BarStep F)
      → (if not fits
          then raised market_mismatch s
          else (t >>= λ traded. ok (close_bar config bar signal now traded)))
        ≡ ok x
      → (r : Progress F × F × F) × (t ≡ ok r) × (close_bar config bar signal now r ≡ x)
  traded_bar now signal true (ok r) x h = (r, refl, ground arith)
  traded_bar now signal false (ok r) x h = cc
  traded_bar now signal true (raised e s) x h = cc
  traded_bar now signal false (raised e s) x h = cc

  pub process_bar-Trace :
      (now : ℕ) (signal : Signal F) (x : PortfolioState F × BarStep F)
      → process_bar config now bar signal s ≡ ok x
      → (r : Progress F × F × F) × Trace config bar s r × (close_bar config bar signal now r ≡ x)
  unfolding process_bar
  process_bar-Trace now signal x h =
      let (r, t, c) =
        traded_bar now signal (str_eq bar.market s.market) (trade_bar config bar s) x h in
      (r, trade_bar-Trace r t, c)
