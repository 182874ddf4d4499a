-- ===== src/Paper/Trace.antt =====
-- The way of a snapshot that returns through the blocks of `process_snapshot`.
use ai_coin_trading.Prelude.{◌>>=◌, ℕ, ◌≡◌, Bool, none, arith, ok, >>=-returned}
use ai_coin_trading.Arith.{Arith}
use ai_coin_trading.Broker.{PortfolioState}
use ai_coin_trading.Engine.Types.{is_held}
use ai_coin_trading.Paper.Blocks.{enter, check_ticker, arrive, guard_position, exit_on_model}
use ai_coin_trading.Paper.Process.{trade_snapshot, value_snapshot, process_snapshot}
use ai_coin_trading.Paper.Types.{
  AppConfig, MarketTicker, Decision, Snapshot, Flags, PaperSnapshotResult,
}

-- The account after each block that trades.
pub record Trace {F : Type 0} ⦃a : Arith F⦄ (config : AppConfig F) (ticker : MarketTicker F)
    (d : Decision F) (s : PortfolioState F) (r : Flags × Bool × ℕ × Snapshot F) : Type 0 where
  pub start : Snapshot F
  pub guarded : Snapshot F
  pub left : Snapshot F
  pub arrived : arrive config ticker d s ≡ ok (r.0, start)
  pub at_guard : guard_position config ticker start ≡ ok guarded
  pub at_exit : exit_on_model config ticker d r.0 guarded ≡ ok left
  pub at_entry : enter config ticker d r.0 r.2 left ≡ ok r.3
  pub cooldown : r.2 ≡ start.state.cooldown_remaining
  pub existed : r.1 ≡ is_held start.state

module _ {F : Type 0} ⦃a : Arith F⦄ (config : AppConfig F) (ticker : MarketTicker F)
    (d : Decision F) (s : PortfolioState F) where
  pub trade_snapshot-Trace :
      (r : Flags × Bool × ℕ × Snapshot F)
      → trade_snapshot config ticker d s ≡ ok r
      → Trace config ticker d s r
  unfolding trade_snapshot
  trade_snapshot-Trace r h =
      let (c, arrived, h₁) = >>=-returned (arrive config ticker d s) _ h in
      let (guarded, at_guard, h₂) = >>=-returned (guard_position config ticker c.1) _ h₁ in
      let (left, at_exit, h₃) = >>=-returned (exit_on_model config ticker d c.0 guarded) _ h₂ in
      let (entered, at_entry, h₄) =
        >>=-returned (enter config ticker d c.0 c.1.state.cooldown_remaining left) _ h₃ in
      record {
        start = c.1;
        guarded = guarded;
        left = left;
        arrived = ground arith;
        at_guard = at_guard;
        at_exit = ground arith;
        at_entry = ground arith;
        cooldown = ground arith;
        existed = ground arith;
      }

  process_snapshot-returned :
      (x : PortfolioState F × PaperSnapshotResult F)
      → process_snapshot config ticker d s ≡ ok x
      → (check_ticker config ticker d s ≡ none)
        × ((trade_snapshot config ticker d s >>= λ t. ok (value_snapshot config ticker d t)) ≡ ok x)
  unfolding process_snapshot
  process_snapshot-returned x h = ground arith

  pub process_snapshot-Trace :
      (x : PortfolioState F × PaperSnapshotResult F)
      → process_snapshot config ticker d s ≡ ok x
      → (r : Flags × Bool × ℕ × Snapshot F) × Trace config ticker d s r
        × (value_snapshot config ticker d r ≡ x)
        × (check_ticker config ticker d s ≡ none)
  process_snapshot-Trace x h =
      let (fits, rest) = process_snapshot-returned x h in
      let (r, t, v) = >>=-returned (trade_snapshot config ticker d s) _ rest in
      (r, trade_snapshot-Trace r t, ground arith, fits)
