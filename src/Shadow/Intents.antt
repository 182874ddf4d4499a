-- ===== src/Shadow/Intents.antt =====
-- src/coinpilot/hft_shadow.py: `_record_intent`, which records what an intent asks for and, if it is
-- accepted, the order that waits from then on.
use ai_coin_trading.Prelude.{
  ℕ, String, Bool, true, not, ◌&&◌, ◌||◌, Option, none, some, List, str_eq, if◌then◌else◌, is_some,
}
use ai_coin_trading.Arith.{Arith, ◌⊕◌, ◌⊗◌, ◌<?◌, ◌≤?◌, zero_f, one_f}
use ai_coin_trading.Depth.{PublicOrderBook, buy_order, sell_order}
use ai_coin_trading.Shadow.Ledger.{find_row, insert_exact, is_decision, is_pending_of, is_order}
use ai_coin_trading.Shadow.Rows.{ShadowState, DecisionRow, OrderRow, Ledger}
use ai_coin_trading.Shadow.Same.{same_lifecycle, same_decision, same_order}
use ai_coin_trading.Shadow.Settle.{
  ShadowConfig, ShadowIntent, Work, is_hold, is_buy_action, is_sell_action, recovery_reason,
  or_zero, key_of,
}
use ai_coin_trading.Shadow.Types.{
  ◌>>=◌, Step, Rejection, running, halted_recovery, wrong_lifecycle, pending_order_exists,
  position_already_open, exceeds_max_order, insufficient_cash, insufficient_position, no_position,
  DecisionStatus, accepted_intent, held_intent, rejected_intent, pending_order, BookKey, done,
}

module _ {F : Type 0} ⦃a : Arith F⦄ where
  -- The sale that ends a halt after a break, and that no other halt allows.
  abbrev pub is_recovery_sell : Bool → ShadowState F → ShadowIntent F → Bool
  is_recovery_sell allow_recovery s i =
      allow_recovery
      && same_lifecycle s.lifecycle_status halted_recovery
      && is_sell_action i.intent_action
      && str_eq i.intent_reason recovery_reason

  -- Why an intent that is not to hold is rejected, the first reason that applies.
  unfoldable pub rejection_of :
      ShadowConfig F
      → String
      → Bool
      → ShadowState F
      → List (OrderRow F)
      → ShadowIntent F
      → Option Rejection
  rejection_of config run allow_recovery s orders i =
      let buys = is_buy_action i.intent_action in
      let sells = is_sell_action i.intent_action in
      if not (same_lifecycle s.lifecycle_status running)
        && not (is_recovery_sell allow_recovery s i)
      then some (wrong_lifecycle s.lifecycle_status)
      else if is_some (find_row (is_pending_of run) orders)
      then some pending_order_exists
      else if buys && config.one_position_only && (config.position_epsilon <? s.base_quantity)
      then some position_already_open
      else if buys && (config.max_order_quote <? or_zero i.intent_quote)
      then some exceeds_max_order
      else if buys
          && (s.cash_quote ⊕ config.position_epsilon
              <? or_zero i.intent_quote ⊗ (one_f ⊕ config.shadow_fee_rate))
      then some insufficient_cash
      else if sells && (s.base_quantity ⊕ config.position_epsilon <? or_zero i.intent_base)
      then some insufficient_position
      else if sells && (s.base_quantity ≤? config.position_epsilon)
      then some no_position
      else none

  abbrev pub verdict :
      ShadowConfig F
      → String
      → Bool
      → ShadowState F
      → List (OrderRow F)
      → ShadowIntent F
      → Option Rejection
  verdict config run allow_recovery s orders i =
      if is_hold i.intent_action then none else rejection_of config run allow_recovery s orders i

  abbrev status_of : ShadowIntent F → Option Rejection → DecisionStatus
  status_of i (some why) = rejected_intent
  status_of i none = if is_hold i.intent_action then held_intent else accepted_intent

  abbrev pub decision_row :
      String → PublicOrderBook F → ShadowIntent F → Option Rejection → ℕ → DecisionRow F
  decision_row run book i rejection wall = record {
    decision_key = key_of run book;
    decision_monotonic_ns = book.received_monotonic_ns;
    decision_wall_ns = book.received_wall_ns;
    action = i.intent_action;
    signal = i.intent_signal;
    decision_reason = i.intent_reason;
    policy_version = i.intent_policy;
    features = i.intent_features;
    decision_status = status_of i rejection;
    rejection_reason = rejection;
    decision_created = wall;
  }

  abbrev pub order_row : String → PublicOrderBook F → ShadowIntent F → ℕ → ℕ → OrderRow F
  order_row run book i due wall =
      let buys = is_buy_action i.intent_action in
      record {
        order_key = key_of run book;
        order_side = if buys then buy_order else sell_order;
        requested_base = if buys then none else i.intent_base;
        requested_quote = if buys then i.intent_quote else none;
        remaining_base = if buys then zero_f else or_zero i.intent_base;
        remaining_quote = if buys then or_zero i.intent_quote else zero_f;
        due_monotonic_ns = due;
        order_status = pending_order;
        terminal_reason = none;
        order_created = wall;
        order_completed = none;
      }

  -- The UNIQUE columns of `shadow_orders`, and its index of one pending order for a run.
  abbrev conflicts_order : String → BookKey → OrderRow F → Bool
  conflicts_order run key o = is_order key o || is_pending_of run o

  abbrev order_fits : OrderRow F → Bool
  order_fits o = (zero_f ≤? o.remaining_base) && (zero_f ≤? o.remaining_quote)

  unfoldable pub record_order :
      String → OrderRow F → Ledger F → Step (Ledger F × DecisionStatus × Option BookKey)
  record_order run row l = do
    orders ←
        insert_exact (order_fits row) (conflicts_order run row.order_key) (is_order row.order_key)
          (same_order row) row l.orders
    done (record l { orders = orders }, accepted_intent, some row.order_key)

  -- `due` is the time of the book for a recovery, and later by the latency else.
  unfoldable pub record_intent :
      ShadowConfig F
      → String
      → PublicOrderBook F
      → ShadowIntent F
      → ℕ
      → Bool
      → ℕ
      → Work F
      → Step (Ledger F × DecisionStatus × Option BookKey)
  record_intent config run book i wall allow_recovery due w = do
    let rejection = verdict config run allow_recovery w.state w.ledger.orders i
    let row = decision_row run book i rejection wall
    decisions ←
        insert_exact true (is_decision row.decision_key) (is_decision row.decision_key)
          (same_decision row) row w.ledger.decisions
    let l = record w.ledger { decisions = decisions }
    (if is_some rejection || is_hold i.intent_action
        then done (l, status_of i rejection, none)
        else record_order run (order_row run book i due wall) l)
