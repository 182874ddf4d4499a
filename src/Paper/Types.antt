-- ===== src/Paper/Types.antt =====
-- src/coinpilot/paper.py: what the snapshot engine reads and reports.
use ai_coin_trading.Prelude.{
  ℕ, ◌+◌, ◌*◌, ◌^◌, String, Bool, false, not, ◌&&◌, Option, none, some, List, [], ◌∷◌, ◌++◌, ltb,
  Result,
}
use ai_coin_trading.Broker.{RiskConfig, PortfolioState, Fill, Trade}
use ai_coin_trading.Engine.Types.{ModelConfig, Signal, minutes}
use ai_coin_trading.Risk.{Rejection}

-- The fields of `PaperConfig` that the engine reads, in seconds.
pub record PaperConfig : Type 0 where
  pub max_signal_delay_seconds : ℕ
  pub max_ticker_age_seconds : ℕ

-- The fields of `AppConfig` that the engine reads.
pub record AppConfig (F : Type 0) : Type 0 where
  pub risk : RiskConfig F
  pub model : ModelConfig F
  pub paper : PaperConfig
  pub interval_minutes : ℕ

pub record MarketTicker (F : Type 0) : Type 0 where
  pub market : String
  pub price : F
  pub exchange_timestamp : ℕ
  pub observed_at : ℕ

-- What the run hands over beside the ticker: the time of the latest closed bar, the model's values,
-- and whether it had any.
pub record Decision (F : Type 0) : Type 0 where
  pub bar_time : ℕ
  pub signal : Signal F
  pub model_ready : Bool
  pub model_error : Option String

pub data Notice (F : Type 0) : Type 0 where
  fill : Fill F → Notice F
  paper_initialized : ℕ → Notice F
  market_data_gap : ℕ → ℕ → Notice F
  model_not_ready : ℕ → Option String → Notice F
  stale_signal : ℕ → ℕ → ℕ → Notice F
  entry_rejected : Rejection → Notice F
  drawdown_halt : F → F → Notice F

-- The id of an event is the digest of these fields.
pub record PaperEvent (F : Type 0) : Type 0 where
  pub timestamp : ℕ
  pub market : String
  pub notice : Notice F

-- The account and the local variables of `process_snapshot` part of the way through.
pub record Snapshot (F : Type 0) : Type 0 where
  pub state : PortfolioState F
  pub events : List (PaperEvent F)
  pub trades : List (Trade F)
  pub exited : Bool
  pub stop_triggered : Bool

pub record Flags : Type 0 where
  pub initialized : Bool
  pub new_bar : Bool
  pub data_gap : Bool
  pub stale : Bool
  pub not_ready : Bool

abbrev pub plain : Flags
plain = record {
  initialized = false;
  new_bar = false;
  data_gap = false;
  stale = false;
  not_ready = false;
}

pub record PaperSnapshotResult (F : Type 0) : Type 0 where
  pub processed_bar : Bool
  pub equity : F
  pub events : List (PaperEvent F)
  pub trades : List (Trade F)

abbrev pub SnapshotStep : Type 0 → Type 0
SnapshotStep F = Result (PortfolioState F) (Snapshot F)

abbrev pub seconds : ℕ → ℕ
seconds n = n * 10 ^ 9

abbrev pub signal_time_of : {F : Type 0} → AppConfig F → Decision F → ℕ
signal_time_of config d = d.bar_time + minutes config.interval_minutes

-- `should_trade_signal`
abbrev pub should_trade : Flags → Bool
should_trade f = f.new_bar && not f.data_gap && not f.stale && not f.not_ready

-- `t is not None and now < t`
abbrev pub rewinds : Option ℕ → ℕ → Bool
rewinds none now = false
rewinds (some t) now = ltb now t

-- Appends an event of this time and market.
abbrev pub noted : {F : Type 0} → ℕ → Notice F → Snapshot F → Snapshot F
noted timestamp notice p = record p {
  events =
      p.events ++ record { timestamp = timestamp; market = p.state.market; notice = notice } ∷ [];
}
