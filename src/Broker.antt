-- ===== src/Broker.antt =====
-- src/coinpilot/broker.py: the account of a strategy, its fills and round trips, and the simulated
-- broker that moves cash and inventory between them.
use ai_coin_trading.Prelude.{
  ℕ, ◌^◌, Bool, false, String, Option, none, some, if◌then◌else◌, Result, ok, raised, already_open,
  non_positive_notional, negative_cash, no_inventory, missing_entry_time,
}
use ai_coin_trading.Arith.{Arith, ◌⊕◌, ◌⊖◌, ◌⊗◌, ◌⊘◌, ◌<?◌, ◌≤?◌, zero_f, one_f, max_f, min_f}

-- config.py, the section of the trading limits.
pub record RiskConfig (F : Type 0) : Type 0 where
  pub initial_cash : F
  pub risk_per_trade : F
  pub max_position_fraction : F
  pub atr_stop_multiple : F
  pub minimum_stop_pct : F
  pub maximum_stop_pct : F
  pub trailing_stop_pct : F
  pub max_strategy_drawdown_pct : F
  pub fee_rate : F
  pub slippage_bps : F
  pub cooldown_bars : ℕ
  pub minimum_order_quote : F

pub data HaltState : Type 0 where
  active halt_pending halted : HaltState

pub data Side : Type 0 where
  buy_side sell_side : Side

pub data Reason : Type 0 where
  model_entry market_data_gap risk_halt horizon_exit model_exit : Reason
  trailing_stop stop_loss end_of_run : Reason

-- The fields of the open position; a timestamp is its number of nanoseconds.
pub record Entry (F : Type 0) : Type 0 where
  pub entry_time : Option ℕ
  pub entry_signal_time : Option ℕ
  pub entry_horizon_exit_time : Option ℕ
  pub entry_price : F
  pub entry_notional : F
  pub entry_fee : F
  pub entry_stop_distance_pct : F
  pub peak_position_price : F

-- The fields of the decision that waits for the next bar.
pub record Pending (F : Type 0) : Type 0 where
  pub pending_probability : Option F
  pub pending_expected_gross_return : Option F
  pub pending_calibration_buffer : Option F
  pub pending_expected_net_edge : Option F
  pub pending_signal_eligible : Bool
  pub pending_no_trade_reason : Option String
  pub pending_atr_pct : Option F
  pub pending_signal_time : Option ℕ
  pub pending_model_id : Option String

pub record PortfolioState (F : Type 0) : Type 0 where
  pub market : String
  pub cash : F
  pub peak_equity : F
  pub schema_version : ℕ
  pub revision : ℕ
  pub config_fingerprint : Option String
  pub quantity : F
  pub entry : Entry F
  pub open entry use *
  pub realized_pnl : F
  pub halt_state : HaltState
  pub cooldown_remaining : ℕ
  pub pending : Pending F
  pub open pending use *
  pub last_bar_time : Option ℕ
  pub last_ticker_exchange_time : Option ℕ
  pub updated_at : Option ℕ

-- The text that `_event_id` hashes: an id stands for the parts that it is the digest of.
pub record FillId : Type 0 where
  pub market : String
  pub timestamp : ℕ
  pub side : Side
  pub reason : Reason
  pub reference : Option ℕ

pub record Fill (F : Type 0) : Type 0 where
  pub event_id : FillId
  pub timestamp : ℕ
  pub side : Side
  pub reason : Reason
  pub signal_time : Option ℕ
  pub model_id : Option String
  pub raw_price : F
  pub fill_price : F
  pub quantity : F
  pub notional : F
  pub fee : F
  pub slippage_cost : F

pub record Trade (F : Type 0) : Type 0 where
  pub entry_time : ℕ
  pub exit_time : ℕ
  pub entry_signal_time : Option ℕ
  pub entry_price : F
  pub exit_price : F
  pub quantity : F
  pub entry_notional : F
  pub exit_notional : F
  pub fees : F
  pub slippage_cost : F
  pub pnl : F
  pub return_pct : F
  pub exit_reason : Reason

abbrev pub no_signal : {F : Type 0} → Pending F
no_signal = record {
  pending_probability = none;
  pending_expected_gross_return = none;
  pending_calibration_buffer = none;
  pending_expected_net_edge = none;
  pending_signal_eligible = false;
  pending_no_trade_reason = none;
  pending_atr_pct = none;
  pending_signal_time = none;
  pending_model_id = none;
}

module _ {F : Type 0} ⦃a : Arith F⦄ where
  abbrev pub flat : Entry F
  flat = record {
    entry_time = none;
    entry_signal_time = none;
    entry_horizon_exit_time = none;
    entry_price = zero_f;
    entry_notional = zero_f;
    entry_fee = zero_f;
    entry_stop_distance_pct = zero_f;
    peak_position_price = zero_f;
  }

  unfoldable pub initial : String → F → Option String → PortfolioState F
  initial market cash fingerprint = record {
    market = market;
    cash = cash;
    peak_equity = cash;
    schema_version = 1;
    revision = 0;
    config_fingerprint = fingerprint;
    quantity = zero_f;
    entry = flat;
    realized_pnl = zero_f;
    halt_state = active;
    cooldown_remaining = 0;
    pending = no_signal;
    last_bar_time = none;
    last_ticker_exchange_time = none;
    updated_at = none;
  }

  abbrev pub slippage_rate : RiskConfig F → F
  slippage_rate config = config.slippage_bps ⊘ a.literal 10000 1

  -- What a buy of this notional leaves, in cash and in the position.
  abbrev pub bought_entry : ℕ → F → F → F → F → Option ℕ → Entry F → Entry F
  bought_entry timestamp fill_price notional fee stop_distance_pct signal_time e = record e {
    entry_time = some timestamp;
    entry_signal_time = signal_time;
    entry_price = fill_price;
    entry_notional = notional;
    entry_fee = fee;
    entry_stop_distance_pct = stop_distance_pct;
    peak_position_price = fill_price;
  }

  unfoldable pub buy :
      RiskConfig F
      → ℕ
      → F
      → F
      → F
      → Reason
      → Option ℕ
      → Option String
      → PortfolioState F
      → Result (PortfolioState F) (PortfolioState F × Fill F)
  buy config timestamp raw_price requested_notional stop_distance_pct reason signal_time model_id
        s =
      let fill_price = raw_price ⊗ (one_f ⊕ slippage_rate config) in
      let maximum_notional = s.cash ⊘ (one_f ⊕ config.fee_rate) in
      let notional = min_f requested_notional maximum_notional in
      let quantity = notional ⊘ fill_price in
      let fee = notional ⊗ config.fee_rate in
      let cash = s.cash ⊖ (notional ⊕ fee) in
      if a.literal 1 (10 ^ 15) <? s.quantity
      then raised already_open s
      else if notional ≤? zero_f
      then raised non_positive_notional s
      else if cash <? a.negative 1 (10 ^ 7)
      then raised negative_cash (record s { cash = cash })
      else ok (
        record s {
          cash = max_f cash zero_f;
          quantity = quantity;
          entry =
              bought_entry timestamp fill_price notional fee stop_distance_pct signal_time s.entry;
        },
        record {
          event_id = record {
            market = s.market;
            timestamp = timestamp;
            side = buy_side;
            reason = reason;
            reference = signal_time;
          };
          timestamp = timestamp;
          side = buy_side;
          reason = reason;
          signal_time = signal_time;
          model_id = model_id;
          raw_price = raw_price;
          fill_price = fill_price;
          quantity = quantity;
          notional = notional;
          fee = fee;
          slippage_cost = (fill_price ⊖ raw_price) ⊗ quantity;
        },
      )

  -- The rest of `sell_all`, once the entry timestamp is known to be there.
  sell_position :
      RiskConfig F
      → ℕ
      → F
      → Reason
      → Option ℕ
      → Option String
      → PortfolioState F
      → ℕ
      → PortfolioState F × Fill F × Trade F
  sell_position config timestamp raw_price reason signal_time model_id s entry_time =
      let quantity = s.quantity in
      let fill_price = raw_price ⊗ (one_f ⊖ slippage_rate config) in
      let notional = quantity ⊗ fill_price in
      let fee = notional ⊗ config.fee_rate in
      let proceeds = notional ⊖ fee in
      let total_cost = s.entry_notional ⊕ s.entry_fee in
      let pnl = proceeds ⊖ total_cost in
      let entry_slippage =
        max_f zero_f
          (s.entry_notional ⊖ quantity ⊗ (s.entry_price ⊘ (one_f ⊕ slippage_rate config))) in
      let exit_slippage = max_f zero_f ((raw_price ⊖ fill_price) ⊗ quantity) in
      (
        record s {
          cash = s.cash ⊕ proceeds;
          realized_pnl = s.realized_pnl ⊕ pnl;
          quantity = zero_f;
          entry = flat;
        },
        record {
          event_id = record {
            market = s.market;
            timestamp = timestamp;
            side = sell_side;
            reason = reason;
            reference = some entry_time;
          };
          timestamp = timestamp;
          side = sell_side;
          reason = reason;
          signal_time = signal_time;
          model_id = model_id;
          raw_price = raw_price;
          fill_price = fill_price;
          quantity = quantity;
          notional = notional;
          fee = fee;
          slippage_cost = exit_slippage;
        },
        record {
          entry_time = entry_time;
          exit_time = timestamp;
          entry_signal_time = s.entry_signal_time;
          entry_price = s.entry_price;
          exit_price = fill_price;
          quantity = quantity;
          entry_notional = s.entry_notional;
          exit_notional = notional;
          fees = s.entry_fee ⊕ fee;
          slippage_cost = entry_slippage ⊕ exit_slippage;
          pnl = pnl;
          return_pct = if zero_f <? total_cost then pnl ⊘ total_cost else zero_f;
          exit_reason = reason;
        },
      )

  unfoldable pub sell_all :
      RiskConfig F
      → ℕ
      → F
      → Reason
      → Option ℕ
      → Option String
      → PortfolioState F
      → Result (PortfolioState F) (PortfolioState F × Fill F × Trade F)
  unfolding sell_position
  sell_all config timestamp raw_price reason signal_time model_id s =
      if s.quantity ≤? zero_f then raised no_inventory s else elim s.entry_time [
        | none ↦ raised missing_entry_time s
        | some entry_time ↦
            ok (sell_position config timestamp raw_price reason signal_time model_id s entry_time)
      ]
