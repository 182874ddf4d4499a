-- ===== src/Engine/Types.antt =====
-- src/coinpilot/engine.py: what the engine reads and reports, and the tests that its blocks share.
use ai_coin_trading.Prelude.{
  ℕ, ◌*◌, ◌^◌, Bool, true, false, ◌&&◌, String, Option, none, some, List, if◌then◌else◌, leb,
  Result,
}
use ai_coin_trading.Arith.{Arith, ◌<?◌, ◌≤?◌, zero_f}
use ai_coin_trading.Broker.{
  RiskConfig, HaltState, active, halt_pending, halted, Fill, Trade, PortfolioState,
}
use ai_coin_trading.Risk.{Rejection}

pub data SignalMode : Type 0 where
  probability expected_return : SignalMode

-- The fields of `ModelConfig` that the engines read.
pub record ModelConfig (F : Type 0) : Type 0 where
  pub signal_mode : SignalMode
  pub entry_probability : F
  pub exit_probability : F
  pub minimum_edge_pct : F
  pub horizon_bars : ℕ

-- What is fixed when the engine is made.
pub record EngineConfig (F : Type 0) : Type 0 where
  pub risk_config : RiskConfig F
  pub model_config : ModelConfig F
  pub interval_minutes : ℕ
  pub halt_on_data_gap : Bool

pub record Bar (F : Type 0) : Type 0 where
  pub market : String
  pub timestamp : ℕ
  pub raw_open : F
  pub high : F
  pub low : F
  pub close : F

-- The `current_…` arguments of `process_bar`: what the model says once the bar has closed.
pub record Signal (F : Type 0) : Type 0 where
  pub probability : Option F
  pub atr_pct : Option F
  pub model_id : Option String
  pub expected_gross_return : Option F
  pub calibration_buffer : Option F
  pub expected_net_edge : Option F
  pub signal_eligible : Bool
  pub no_trade_reason : Option String

-- An event's id is the digest of its market, time, type and payload, and these stand for it.
pub data Payload (F : Type 0) : Type 0 where
  fill : Fill F → Payload F
  market_data_gap : ℕ → HaltState → Payload F
  entry_rejected : Rejection → Payload F
  drawdown_halt : F → F → HaltState → Payload F

pub record Event (F : Type 0) : Type 0 where
  pub timestamp : ℕ
  pub market : String
  pub payload : Payload F

pub record BarStep (F : Type 0) : Type 0 where
  pub timestamp : ℕ
  pub equity : F
  pub cash : F
  pub quantity : F
  pub close : F
  pub drawdown : F
  pub halt_state : HaltState
  pub pending_probability : Option F
  pub pending_expected_net_edge : Option F
  pub pending_signal_eligible : Bool
  pub events : List (Event F)
  pub trades : List (Trade F)

-- The account and the local lists of `process_bar` part of the way through a bar.
pub record Progress (F : Type 0) : Type 0 where
  pub state : PortfolioState F
  pub events : List (Event F)
  pub trades : List (Trade F)
  pub exited : Bool
  pub stop_triggered : Bool

-- The raising engine: an exception leaves the account as it stood.
abbrev pub Step : Type 0 → Type 0
Step F = Result (PortfolioState F) (Progress F)

abbrev pub minutes : ℕ → ℕ
minutes n = n * 60 * 10 ^ 9

abbrev pub is_active : HaltState → Bool
is_active active = true
is_active _ = false

abbrev pub is_probability : SignalMode → Bool
is_probability SignalMode.probability = true
is_probability SignalMode.expected_return = false

abbrev pub is_expected_return : SignalMode → Bool
is_expected_return SignalMode.probability = false
is_expected_return SignalMode.expected_return = true

-- `if self.state.halt_state == HALT_PENDING: self.state.halt_state = HALTED`
abbrev pub settle_halt : HaltState → HaltState
settle_halt halt_pending = halted
settle_halt h = h

-- `t is not None and now >= t`
abbrev pub has_come : Option ℕ → ℕ → Bool
has_come none now = false
has_come (some t) now = leb t now

module _ {F : Type 0} ⦃a : Arith F⦄ where
  -- `self.state.quantity > 0`
  abbrev pub is_held : PortfolioState F → Bool
  is_held s = zero_f <? s.quantity

  -- `HALT_PENDING if self.state.quantity > 0 else HALTED`
  abbrev pub halt_now : PortfolioState F → HaltState
  halt_now s = if is_held s then halt_pending else halted

  -- `x is not None and np.isfinite(x) and x <= bound`, and the same with `>=`.
  abbrev pub is_at_most : Option F → F → Bool
  is_at_most none bound = false
  is_at_most (some x) bound = a.finite x && (x ≤? bound)

  abbrev pub is_at_least : Option F → F → Bool
  is_at_least none bound = false
  is_at_least (some x) bound = a.finite x && (bound ≤? x)
