-- ===== src/Shadow/Settle.antt =====
-- src/coinpilot/hft_shadow.py: the settings and the intents of the shadow engine, and the account after
-- a simulated fill.
use ai_coin_trading.Prelude.{
  ℕ, String, Bool, true, false, not, ◌&&◌, Option, none, some, if◌then◌else◌, is_some,
}
use ai_coin_trading.Arith.{Arith, ◌⊕◌, ◌⊖◌, ◌⊗◌, ◌⊘◌, ◌<?◌, ◌≤?◌, zero_f, max_f}
use ai_coin_trading.Depth.{PublicOrderBook}
use ai_coin_trading.Depth.Sweep.{VisibleDepthExecution, is_buy}
use ai_coin_trading.Outbox.{required_text}
use ai_coin_trading.Shadow.Rows.{ShadowState, Ledger}
use ai_coin_trading.Shadow.Types.{
  ◌>>=◌, Step, refused, ◌>>◌, ShadowAction, buy_action, sell_action, hold_action, Features, BookKey,
  invalid_intent, cash_exceeded, position_exceeded, done, ensure,
}

pub record ShadowConfig (F : Type 0) : Type 0 where
  pub shadow_market : String
  pub shadow_fee_rate : F
  pub shadow_latency_ns : ℕ
  pub shadow_max_gap_ns : ℕ
  pub warmup_books : ℕ
  pub max_order_quote : F
  pub equity_sample_interval_ns : ℕ
  pub health_sample_interval_ns : ℕ
  pub one_position_only : Bool
  pub position_epsilon : F

pub record ShadowIntent (F : Type 0) : Type 0 where
  pub intent_action : ShadowAction
  pub intent_reason : String
  pub intent_policy : String
  pub intent_signal : Option F
  pub intent_quote : Option F
  pub intent_base : Option F
  pub intent_features : Features

-- The database and the dict that a transaction works on.
pub record Work (F : Type 0) : Type 0 where
  pub ledger : Ledger F
  pub state : ShadowState F

-- The quantities that go with an action.
abbrev fits_action : ShadowAction → Bool → Bool → Bool
fits_action buy_action quote base = quote && not base
fits_action sell_action quote base = base && not quote
fits_action hold_action quote base = not quote && not base

abbrev pub is_hold : ShadowAction → Bool
is_hold hold_action = true
is_hold _ = false

abbrev pub is_buy_action : ShadowAction → Bool
is_buy_action buy_action = true
is_buy_action _ = false

abbrev pub is_sell_action : ShadowAction → Bool
is_sell_action sell_action = true
is_sell_action _ = false

abbrev pub stripped : String → Step String
stripped t = elim (required_text t) [ none ↦ refused invalid_intent | some t' ↦ done t' ]

abbrev pub recovery_reason : String
recovery_reason = "gap_recovery_liquidation"

module _ {F : Type 0} ⦃a : Arith F⦄ where
  abbrev minus_f : F → F
  minus_f x = a.negative 1 1 ⊗ x

  abbrev pub or_zero : Option F → F
  or_zero none = zero_f
  or_zero (some x) = x

  abbrev is_number : Option F → Bool
  is_number none = true
  is_number (some x) = a.finite x

  abbrev is_quantity : Option F → Bool
  is_quantity none = true
  is_quantity (some x) = a.finite x && (zero_f <? x)

  -- `ShadowIntent.validate`; the features are checked when their text is made.
  unfoldable pub validate_intent : ShadowIntent F → Step (ShadowIntent F)
  validate_intent i = do
    reason ← stripped i.intent_reason
    policy ← stripped i.intent_policy
    ensure
        (is_number i.intent_signal
          && is_quantity i.intent_quote
          && is_quantity i.intent_base
          && fits_action i.intent_action (is_some i.intent_quote) (is_some i.intent_base))
        invalid_intent
    done (record i { intent_reason = reason; intent_policy = policy })

  abbrev pub key_of : String → PublicOrderBook F → BookKey
  key_of run book = record {
    key_run = run;
    key_capture = book.capture_id;
    key_connection = book.connection_id;
    key_ordinal = book.ordinal;
  }

  -- The account after a simulated purchase.
  unfoldable pub settle_buy :
      ShadowConfig F → VisibleDepthExecution F → ShadowState F → Step (ShadowState F)
  settle_buy config e s =
      let next_cash = s.cash_quote ⊕ e.cash_flow_quote in
      let old_cost = s.base_quantity ⊗ s.average_cost_quote in
      let added_cost = e.filled_quote ⊕ e.fee_quote in
      let next_base = s.base_quantity ⊕ e.filled_base in
      if next_cash <? minus_f config.position_epsilon
      then refused cash_exceeded
      else done (record s {
        cash_quote = max_f zero_f next_cash;
        base_quantity = next_base;
        average_cost_quote =
            if config.position_epsilon <? next_base
            then (old_cost ⊕ added_cost) ⊘ next_base
            else zero_f;
      })

  -- What is left of a position is nothing, if it is not above the epsilon.
  abbrev without_dust : ShadowConfig F → ShadowState F → ShadowState F
  without_dust config s =
      if s.base_quantity ≤? config.position_epsilon
      then record s { base_quantity = zero_f; average_cost_quote = zero_f }
      else s

  -- The account after a simulated sale.
  unfoldable pub settle_sell :
      ShadowConfig F → VisibleDepthExecution F → ShadowState F → Step (ShadowState F)
  settle_sell config e s =
      let next_base = s.base_quantity ⊖ e.filled_base in
      let cost_released = e.filled_base ⊗ s.average_cost_quote in
      if next_base <? minus_f config.position_epsilon
      then refused position_exceeded
      else done (
          without_dust config (record s {
            cash_quote = s.cash_quote ⊕ e.cash_flow_quote;
            base_quantity = max_f zero_f next_base;
            realized_pnl_quote = s.realized_pnl_quote ⊕ e.cash_flow_quote ⊖ cost_released;
          }))

  abbrev with_fee : VisibleDepthExecution F → ShadowState F → ShadowState F
  with_fee e s = record s { cumulative_fees_quote = s.cumulative_fees_quote ⊕ e.fee_quote }

  unfoldable pub settle_fill :
      ShadowConfig F → VisibleDepthExecution F → ShadowState F → Step (ShadowState F)
  settle_fill config e s =
      (if is_buy e.execution_side then settle_buy config e s else settle_sell config e s) >>= λ s'.
      done (with_fee e s')
