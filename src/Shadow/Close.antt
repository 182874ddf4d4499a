-- ===== src/Shadow/Close.antt =====
-- src/coinpilot/hft_shadow.py: the end of `process_book`, which values and saves the account.
use ai_coin_trading.Prelude.{ℕ, ◌+◌, String, false, ◌||◌, Option, some, is_some}
use ai_coin_trading.Arith.{Arith, max_f}
use ai_coin_trading.Depth.{PublicOrderBook}
use ai_coin_trading.Shadow.Book.{ShadowStepResult, Events}
use ai_coin_trading.Shadow.Ledger.{save_state}
use ai_coin_trading.Shadow.Rows.{ShadowState, Ledger}
use ai_coin_trading.Shadow.Sampling.{liquidation_equity, drawdown_of, sample_equity, sample_health}
use ai_coin_trading.Shadow.Settle.{ShadowConfig, Work}
use ai_coin_trading.Shadow.Types.{◌>>=◌, Step, ContinuityReason, done}

module _ {F : Type 0} ⦃a : Arith F⦄ where
  -- The account at the end of a book.
  unfoldable pub closed_state : PublicOrderBook F → ℕ → F → ShadowState F → ShadowState F
  closed_state book wall equity s =
      let peak = max_f s.peak_equity_quote equity in
      record s {
        revision = s.revision + 1;
        last_equity_quote = equity;
        peak_equity_quote = peak;
        max_drawdown = max_f s.max_drawdown (drawdown_of peak equity);
        last_capture_id = some book.capture_id;
        last_connection_id = some book.connection_id;
        last_book_ordinal = some book.ordinal;
        last_book_monotonic_ns = some book.received_monotonic_ns;
        last_book_wall_ns = book.received_wall_ns;
        updated_wall_ns = wall;
      }

  -- The end of a book that is new: the account is valued and saved, and the samples are taken.
  unfoldable pub close_book :
      ShadowConfig F
      → String
      → PublicOrderBook F
      → ℕ
      → Option ContinuityReason
      → Work F × Events
      → Step (Ledger F × ShadowStepResult F)
  close_book config run book wall broken (w, e) = do
    mark ← liquidation_equity config w.state book
    let s = closed_state book wall mark.mark_equity w.state
    l ← save_state s w.ledger
    l₁ ←
        sample_equity config run book wall (is_some e.filled || is_some e.decided || is_some broken)
          mark s l
    l₂ ← sample_health config run book wall broken l₁
    done (
      l₂,
      record {
        result_lifecycle = s.lifecycle_status;
        decision_id = e.decided;
        decision_outcome = e.decided_status;
        order_id = e.ordered;
        resolved_order_id = e.resolved;
        fill_id = e.filled;
        duplicate_event = false;
        continuity_reason = broken;
        result_cash = s.cash_quote;
        result_base = s.base_quantity;
        result_equity = mark.mark_equity;
      },
    )
