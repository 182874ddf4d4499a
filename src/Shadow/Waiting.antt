-- ===== src/Shadow/Waiting.antt =====
-- src/coinpilot/hft_shadow.py: the orders that wait, beside the account's status, after each part of
-- `process_book`.
use mathlib.Core.Path.{subst}
use ai_coin_trading.Prelude.{
  ℕ, ◌≤◌, String, ◌≡◌, ap, ◌∙◌, inl, inr, false, some, List, arith, Bool-cases,
}
use ai_coin_trading.Arith.{Arith}
use ai_coin_trading.Depth.{PublicOrderBook}
use ai_coin_trading.Shadow.Book.{Events, break_feed, warm_up}
use ai_coin_trading.Shadow.Counts.{count_rows-update_rows, find_row_zero, count_rows-all}
use ai_coin_trading.Shadow.Ledger.{
  find_row, update_rows, count_rows, is_state_of, is_pending_of, expired, expire_pending, set_run,
}
use ai_coin_trading.Shadow.Passage.{Applied, broke, recovered, went_on, recover-Recovery}
use ai_coin_trading.Shadow.Pending.{ends_pending, warm_up-orders}
use ai_coin_trading.Shadow.Resolved.{Resolved, resolve_pending-Resolved}
use ai_coin_trading.Shadow.Rows.{ShadowState, OrderRow, Ledger}
use ai_coin_trading.Shadow.Sale.{recover_idle}
use ai_coin_trading.Shadow.Same.{same_lifecycle, same_lifecycle_eq}
use ai_coin_trading.Shadow.Settle.{ShadowConfig, Work}
use ai_coin_trading.Shadow.Types.{
  warmup, running, halted_recovery, ContinuityReason, TerminalReason, continuity_expiry, done,
}

module _ {F : Type 0} ⦃a : Arith F⦄ (run : String) where
  -- No order of the run waits, unless this account trades.
  abbrev pub IsQuiet : ShadowState F → List (OrderRow F) → Type 0
  IsQuiet s orders =
      same_lifecycle s.lifecycle_status running ≡ false → count_rows (is_pending_of run) orders ≡ 0

  -- The same of the ledger's account, with at most one order that waits.
  pub record HasSoundOrders (l : Ledger F) : Type 0 where
    pub one : count_rows (is_pending_of run) l.orders ≤ 1
    pub quiet :
        (s : ShadowState F) → find_row (is_state_of run) l.states ≡ some s → IsQuiet s l.orders

  -- After all waiting orders were ended.
  pub expire_pending-idle :
      (why : TerminalReason) (wall : ℕ) (orders : List (OrderRow F))
      → count_rows (is_pending_of run) (expire_pending run why wall orders).0 ≡ 0
  unfolding expire_pending
  expire_pending-idle why wall orders =
      count_rows-all (is_pending_of run) (expired why wall) orders (λ o. ground arith)

module _ {F : Type 0} ⦃a : Arith F⦄ (config : ShadowConfig F) (run : String)
    (book : PublicOrderBook F) where
  pub Resolved-IsQuiet :
      (w w' : Work F)
      → Resolved w w'
      → IsQuiet run w.state w.ledger.orders
      → IsQuiet run w'.state w'.ledger.orders
  Resolved-IsQuiet w w' r quiet idle =
      let before : count_rows (is_pending_of run) w.ledger.orders ≡ 0 =
        quiet (subst (λ z. same_lifecycle z running ≡ false) r.lifecycle idle) in
      elim r.orders [
        | inl same ↦ ap (count_rows (is_pending_of run)) same ∙ before
        | inr (test, change, ends, same) ↦
            let fewer =
              count_rows-update_rows test (is_pending_of run) change w.ledger.orders
                (λ o. ends_pending config run book change o (ends o)) in
            let over : count_rows (is_pending_of run) (update_rows test change w.ledger.orders)
                ≡ 0 =
              ground (arith, fewer, before) in
            ap (count_rows (is_pending_of run)) same ∙ over
      ]

  pub break_feed_idle :
      (why : ContinuityReason) (wall : ℕ) (w w' : Work F)
      → break_feed config run book why wall w ≡ done w'
      → count_rows (is_pending_of run) w'.ledger.orders ≡ 0
  unfolding break_feed set_run
  break_feed_idle why wall w w' h =
      let same : w'.ledger.orders
          ≡ (expire_pending run (continuity_expiry why) wall w.ledger.orders).0 =
        ground arith in
      ap (count_rows (is_pending_of run)) same
      ∙ expire_pending-idle run (continuity_expiry why) wall w.ledger.orders

  -- The warm-up does not end the trading.
  warm_up_trades :
      (wall : ℕ) (w w' : Work F)
      → warm_up config run book wall w ≡ done w'
      → same_lifecycle w'.state.lifecycle_status running ≡ false
      → same_lifecycle w.state.lifecycle_status running ≡ false
  unfolding warm_up
  warm_up_trades wall w w' h idle =
      elim (Bool-cases (same_lifecycle w.state.lifecycle_status warmup)) [
        | inl warms ↦
            let status = same_lifecycle_eq w.state.lifecycle_status warmup warms in
            ground (arith, status)
        | inr other ↦ ground (arith, other)
      ]

  pub Applied-IsQuiet :
      (wall : ℕ) (w w' : Work F) (e : Events)
      → Applied config run book wall w w' e
      → IsQuiet run w.state w.ledger.orders
      → IsQuiet run w'.state w'.ledger.orders
  Applied-IsQuiet wall w w' e (broke why breaks ends same) quiet idle =
      break_feed_idle why wall w w' ends
  Applied-IsQuiet wall w w' e (recovered w₁ res fill goes first must ends) quiet idle =
      let r = resolve_pending-Resolved config run book wall w w₁ res fill first in
      let halted = same_lifecycle_eq w₁.state.lifecycle_status halted_recovery (ground arith) in
      let none_waits = Resolved-IsQuiet w w₁ r quiet (ground (arith, halted)) in
      recover_idle config run book wall w₁ w' e (recover-Recovery config run book wall w₁ w' e ends)
        (find_row_zero (is_pending_of run) w₁.ledger.orders none_waits)
  Applied-IsQuiet wall w w' e (went_on w₁ res fill goes first no_sale warms same) quiet idle =
      let r = resolve_pending-Resolved config run book wall w w₁ res fill first in
      ap (count_rows (is_pending_of run)) (warm_up-orders config run book wall w₁ w' warms)
      ∙ Resolved-IsQuiet w w₁ r quiet (warm_up_trades wall w₁ w' warms idle)
