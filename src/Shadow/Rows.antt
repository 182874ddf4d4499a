-- ===== src/Shadow/Rows.antt =====
-- src/coinpilot/hft_shadow_store.py: the tables of the shadow ledger, row by row.
use ai_coin_trading.Prelude.{ℕ, String, Bool, Option, List}
use ai_coin_trading.Depth.{OrderSide}
use ai_coin_trading.Outbox.{Severity}
use ai_coin_trading.Shadow.Types.{
  Rejection, Lifecycle, ShadowAction, ContinuityReason, HaltReason, TerminalReason, DecisionStatus,
  OrderStatus, HealthStatus, Features, BookKey, FillKey, HealthKey, AlertKey,
}

pub record RunRow : Type 0 where
  pub run_id : String
  pub run_market : String
  pub run_status : Lifecycle
  pub started_wall_ns : ℕ
  pub ended_wall_ns : Option ℕ
  pub restart_of_run_id : Option String
  pub config_hash : String
  pub config_json : String
  pub code_version : String
  pub run_halt_reason : Option HaltReason

-- The row of `shadow_state`, which is also the dict that a transaction works on.
pub record ShadowState (F : Type 0) : Type 0 where
  pub state_run : String
  pub revision : ℕ
  pub lifecycle_status : Lifecycle
  pub cash_quote : F
  pub base_quantity : F
  pub average_cost_quote : F
  pub realized_pnl_quote : F
  pub cumulative_fees_quote : F
  pub last_equity_quote : F
  pub peak_equity_quote : F
  pub max_drawdown : F
  pub warmup_books_seen : ℕ
  pub last_capture_id : Option String
  pub last_connection_id : Option String
  pub last_book_ordinal : Option ℕ
  pub last_book_monotonic_ns : Option ℕ
  pub last_book_wall_ns : Option ℕ
  pub halt_reason : Option HaltReason
  pub updated_wall_ns : ℕ

pub record DecisionRow (F : Type 0) : Type 0 where
  pub decision_key : BookKey
  pub decision_monotonic_ns : ℕ
  pub decision_wall_ns : Option ℕ
  pub action : ShadowAction
  pub signal : Option F
  pub decision_reason : String
  pub policy_version : String
  pub features : Features
  pub decision_status : DecisionStatus
  pub rejection_reason : Option Rejection
  pub decision_created : ℕ

-- The id of an order is a digest of its decision's; exactly one of the requests is there.
pub record OrderRow (F : Type 0) : Type 0 where
  pub order_key : BookKey
  pub order_side : OrderSide
  pub requested_base : Option F
  pub requested_quote : Option F
  pub remaining_base : F
  pub remaining_quote : F
  pub due_monotonic_ns : ℕ
  pub order_status : OrderStatus
  pub terminal_reason : Option TerminalReason
  pub order_created : ℕ
  pub order_completed : Option ℕ

pub record FillRow (F : Type 0) : Type 0 where
  pub fill_key : FillKey
  pub fill_monotonic_ns : ℕ
  pub fill_wall_ns : Option ℕ
  pub fill_side : OrderSide
  pub fill_base : F
  pub fill_quote : F
  pub fill_fee : F
  pub fill_vwap : F
  pub fill_levels : ℕ
  pub fill_complete : Bool
  pub fill_created : ℕ

pub record EquityRow (F : Type 0) : Type 0 where
  pub equity_key : BookKey
  pub equity_monotonic_ns : ℕ
  pub equity_wall_ns : Option ℕ
  pub equity_cash : F
  pub equity_base : F
  pub liquidation_bid : Option F
  pub covered_base : F
  pub equity_quote : F
  pub equity_peak : F
  pub equity_drawdown : F
  pub equity_created : ℕ

-- What the details of a health row say: of a book, or the caller's canonical JSON text.
pub data Details : Type 0 where
  feed_details : ℕ → Option ContinuityReason → Details
  given_details : String → Details

pub record HealthRow : Type 0 where
  pub health_key : HealthKey
  pub health_run : String
  pub health_component : String
  pub health_status : HealthStatus
  pub observed_wall_ns : ℕ
  pub details : Details

-- What an alert says, beside its run. The fill's is its row.
pub data Payload (F : Type 0) : Type 0 where
  continuity_payload : ContinuityReason → ℕ → Lifecycle → Payload F
  warmup_payload : ℕ → Payload F
  stale_payload : ℕ → Payload F
  fill_payload : FillRow F → Payload F
  halt_payload : String → ℕ → Payload F
  health_payload : HealthRow → Payload F
  stop_payload : String → ℕ → Payload F
  start_payload : String → Lifecycle → Option String → ℕ → Payload F
  restart_payload : String → ℕ → F → Lifecycle → Payload F

-- A new row of `notification_outbox`; its topic goes with the kind of its payload.
pub record Notice (F : Type 0) : Type 0 where
  pub alert_key : AlertKey
  pub notice_run : String
  pub severity : Severity
  pub payload : Payload F
  pub created_wall_ns : ℕ

pub record Ledger (F : Type 0) : Type 0 where
  pub runs : List RunRow
  pub states : List (ShadowState F)
  pub decisions : List (DecisionRow F)
  pub orders : List (OrderRow F)
  pub fills : List (FillRow F)
  pub equity : List (EquityRow F)
  pub health : List HealthRow
  pub outbox : List (Notice F)
