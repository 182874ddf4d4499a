-- ===== src/Shadow/Same.antt =====
-- The comparisons of ids and of rows, column by column, that an idempotent insert makes.
use ai_coin_trading.Prelude.{
  ℕ, String, ◌≡◌, Bool, true, false, not, ◌&&◌, Option, none, some, arith, str_eq, ◌==◌,
  if◌then◌else◌, is_some,
}
use ai_coin_trading.Arith.{Arith, ◌≤?◌}
use ai_coin_trading.Depth.{OrderSide, buy_order, sell_order}
use ai_coin_trading.Outbox.{Severity, info, warning, critical}
use ai_coin_trading.Shadow.Rows.{
  Payload, Notice, DecisionRow, OrderRow, FillRow, EquityRow, Details, feed_details, given_details,
  HealthRow, continuity_payload, warmup_payload, stale_payload, fill_payload, halt_payload,
  health_payload, stop_payload, start_payload, restart_payload,
}
use ai_coin_trading.Shadow.Types.{
  Rejection, Lifecycle, warmup, running, halted_recovery, stopped, interrupted, ShadowAction,
  buy_action, sell_action, hold_action, ContinuityReason, regression_marker, capture_changed,
  connection_changed, gap_marker, HaltReason, open_position_break, restart_with_open_position,
  restart_fingerprint_changed, process_restart, external_halt, graceful, wrong_lifecycle,
  pending_order_exists, position_already_open, exceeds_max_order, insufficient_cash,
  insufficient_position, no_position, DecisionStatus, accepted_intent, held_intent, rejected_intent,
  OrderStatus, pending_order, HealthStatus, healthy, degraded, unhealthy, Features, given_features,
  recovery_features, BookKey, FillKey, HealthKey, feed_health, keyed_health, timed_health, AlertKey,
  continuity_alert, warmup_alert, stale_alert, fill_alert, halt_alert, health_alert, stop_alert,
  start_alert, recovery_alert,
}

abbrev pub same_option : {A : Type 0} → (A → A → Bool) → Option A → Option A → Bool
same_option same none none = true
same_option same (some x) (some y) = same x y
same_option same _ _ = false

abbrev same_text : Option String → Option String → Bool
same_text = same_option str_eq

abbrev pub same_number : Option ℕ → Option ℕ → Bool
same_number = same_option ◌==◌

abbrev pub same_key : BookKey → BookKey → Bool
same_key x y =
    str_eq x.key_run y.key_run
    && str_eq x.key_capture y.key_capture
    && str_eq x.key_connection y.key_connection
    && x.key_ordinal == y.key_ordinal

abbrev pub same_fill_key : FillKey → FillKey → Bool
same_fill_key x y = same_key x.fill_order y.fill_order && same_key x.fill_book y.fill_book

abbrev pub same_health_key : HealthKey → HealthKey → Bool
same_health_key (feed_health x) (feed_health y) = same_key x y
same_health_key (keyed_health r c k) (keyed_health r' c' k') =
    str_eq r r' && str_eq c c' && str_eq k k'
same_health_key (timed_health r c t) (timed_health r' c' t') = str_eq r r' && str_eq c c' && t == t'
same_health_key _ _ = false

abbrev pub same_alert_key : AlertKey → AlertKey → Bool
same_alert_key (continuity_alert x) (continuity_alert y) = same_key x y
same_alert_key (warmup_alert x) (warmup_alert y) = same_key x y
same_alert_key (stale_alert x) (stale_alert y) = same_key x y
same_alert_key (fill_alert x) (fill_alert y) = same_fill_key x y
same_alert_key (halt_alert r x) (halt_alert r' y) = str_eq r r' && str_eq x y
same_alert_key (health_alert x) (health_alert y) = same_health_key x y
same_alert_key (stop_alert r t) (stop_alert r' t') = str_eq r r' && t == t'
same_alert_key (start_alert r) (start_alert r') = str_eq r r'
same_alert_key (recovery_alert r p) (recovery_alert r' p') = str_eq r r' && str_eq p p'
same_alert_key _ _ = false

abbrev pub same_lifecycle : Lifecycle → Lifecycle → Bool
same_lifecycle warmup warmup = true
same_lifecycle running running = true
same_lifecycle halted_recovery halted_recovery = true
same_lifecycle stopped stopped = true
same_lifecycle interrupted interrupted = true
same_lifecycle _ _ = false

abbrev pub same_action : ShadowAction → ShadowAction → Bool
same_action buy_action buy_action = true
same_action sell_action sell_action = true
same_action hold_action hold_action = true
same_action _ _ = false

abbrev same_side : OrderSide → OrderSide → Bool
same_side buy_order buy_order = true
same_side sell_order sell_order = true
same_side _ _ = false

abbrev same_continuity : ContinuityReason → ContinuityReason → Bool
same_continuity regression_marker regression_marker = true
same_continuity capture_changed capture_changed = true
same_continuity connection_changed connection_changed = true
same_continuity (gap_marker x) (gap_marker y) = same_text x y
same_continuity _ _ = false

abbrev same_halt : HaltReason → HaltReason → Bool
same_halt (open_position_break x) (open_position_break y) = same_continuity x y
same_halt restart_with_open_position restart_with_open_position = true
same_halt restart_fingerprint_changed restart_fingerprint_changed = true
same_halt process_restart process_restart = true
same_halt (external_halt x) (external_halt y) = str_eq x y
same_halt (graceful x) (graceful y) = str_eq x y
same_halt _ _ = false

abbrev pub same_features : Features → Features → Bool
same_features (given_features x) (given_features y) = str_eq x y
same_features (recovery_features x) (recovery_features y) = same_option same_halt x y
same_features _ _ = false

abbrev same_rejection : Rejection → Rejection → Bool
same_rejection (wrong_lifecycle x) (wrong_lifecycle y) = same_lifecycle x y
same_rejection pending_order_exists pending_order_exists = true
same_rejection position_already_open position_already_open = true
same_rejection exceeds_max_order exceeds_max_order = true
same_rejection insufficient_cash insufficient_cash = true
same_rejection insufficient_position insufficient_position = true
same_rejection no_position no_position = true
same_rejection _ _ = false

abbrev same_decision_status : DecisionStatus → DecisionStatus → Bool
same_decision_status accepted_intent accepted_intent = true
same_decision_status held_intent held_intent = true
same_decision_status rejected_intent rejected_intent = true
same_decision_status _ _ = false

abbrev pub is_pending : OrderStatus → Bool
is_pending pending_order = true
is_pending _ = false

abbrev pub same_health_status : HealthStatus → HealthStatus → Bool
same_health_status healthy healthy = true
same_health_status degraded degraded = true
same_health_status unhealthy unhealthy = true
same_health_status _ _ = false

abbrev same_severity : Severity → Severity → Bool
same_severity info info = true
same_severity warning warning = true
same_severity critical critical = true
same_severity _ _ = false

abbrev same_details : Details → Details → Bool
same_details (feed_details t x) (feed_details t' y) = t == t' && same_option same_continuity x y
same_details (given_details x) (given_details y) = str_eq x y
same_details _ _ = false

abbrev pub same_health : HealthRow → HealthRow → Bool
same_health x y =
    str_eq x.health_run y.health_run
    && str_eq x.health_component y.health_component
    && same_health_status x.health_status y.health_status
    && x.observed_wall_ns == y.observed_wall_ns
    && same_details x.details y.details

module _ {F : Type 0} ⦃a : Arith F⦄ where
  -- `==` of two floats
  abbrev pub same_float : F → F → Bool
  same_float x y = (x ≤? y) && (y ≤? x)

  abbrev pub same_decision : DecisionRow F → DecisionRow F → Bool
  same_decision x y =
      x.decision_monotonic_ns == y.decision_monotonic_ns
      && same_number x.decision_wall_ns y.decision_wall_ns
      && same_action x.action y.action
      && same_option same_float x.signal y.signal
      && str_eq x.decision_reason y.decision_reason
      && str_eq x.policy_version y.policy_version
      && same_features x.features y.features
      && same_decision_status x.decision_status y.decision_status
      && same_option same_rejection x.rejection_reason y.rejection_reason
      && x.decision_created == y.decision_created

  -- The inserted row `y` is pending and has no end yet.
  abbrev pub same_order : OrderRow F → OrderRow F → Bool
  same_order x y =
      same_side x.order_side y.order_side
      && same_option same_float x.requested_base y.requested_base
      && same_option same_float x.requested_quote y.requested_quote
      && same_float x.remaining_base y.remaining_base
      && same_float x.remaining_quote y.remaining_quote
      && x.due_monotonic_ns == y.due_monotonic_ns
      && is_pending x.order_status
      && is_pending y.order_status
      && not (is_some x.terminal_reason)
      && not (is_some x.order_completed)
      && x.order_created == y.order_created

  abbrev pub same_fill : FillRow F → FillRow F → Bool
  same_fill x y =
      same_fill_key x.fill_key y.fill_key
      && x.fill_monotonic_ns == y.fill_monotonic_ns
      && same_number x.fill_wall_ns y.fill_wall_ns
      && same_side x.fill_side y.fill_side
      && same_float x.fill_base y.fill_base
      && same_float x.fill_quote y.fill_quote
      && same_float x.fill_fee y.fill_fee
      && same_float x.fill_vwap y.fill_vwap
      && x.fill_levels == y.fill_levels
      && (if x.fill_complete then y.fill_complete else not y.fill_complete)
      && x.fill_created == y.fill_created

  abbrev pub same_equity : EquityRow F → EquityRow F → Bool
  same_equity x y =
      x.equity_monotonic_ns == y.equity_monotonic_ns
      && same_number x.equity_wall_ns y.equity_wall_ns
      && same_float x.equity_cash y.equity_cash
      && same_float x.equity_base y.equity_base
      && same_option same_float x.liquidation_bid y.liquidation_bid
      && same_float x.covered_base y.covered_base
      && same_float x.equity_quote y.equity_quote
      && same_float x.equity_peak y.equity_peak
      && same_float x.equity_drawdown y.equity_drawdown
      && x.equity_created == y.equity_created

  abbrev same_payload : Payload F → Payload F → Bool
  same_payload (continuity_payload r n l) (continuity_payload r' n' l') =
      same_continuity r r' && n == n' && same_lifecycle l l'
  same_payload (warmup_payload n) (warmup_payload n') = n == n'
  same_payload (stale_payload n) (stale_payload n') = n == n'
  same_payload (fill_payload x) (fill_payload y) = same_fill x y
  same_payload (halt_payload r n) (halt_payload r' n') = str_eq r r' && n == n'
  same_payload (health_payload x) (health_payload y) = same_health x y
  same_payload (stop_payload r n) (stop_payload r' n') = str_eq r r' && n == n'
  same_payload (start_payload m l r n) (start_payload m' l' r' n') =
      str_eq m m' && same_lifecycle l l' && same_text r r' && n == n'
  same_payload (restart_payload p n b l) (restart_payload p' n' b' l') =
      str_eq p p' && n == n' && same_float b b' && same_lifecycle l l'
  same_payload _ _ = false

  -- The columns that `enqueue_notification` calls immutable.
  abbrev pub same_notice : Notice F → Notice F → Bool
  same_notice x y =
      str_eq x.notice_run y.notice_run
      && same_severity x.severity y.severity
      && same_payload x.payload y.payload
      && x.created_wall_ns == y.created_wall_ns

-- Equal statuses are the same.
pub same_lifecycle_eq : (l m : Lifecycle) → same_lifecycle l m ≡ true → l ≡ m
same_lifecycle_eq l m h = ground arith
