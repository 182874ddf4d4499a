-- ===== src/Risk.antt =====
-- src/coinpilot/risk.py: the size of an entry, and the drawdown of an account.
use ai_coin_trading.Prelude.{not, ◌||◌, Option, none, some, if◌then◌else◌}
use ai_coin_trading.Arith.{Arith, ◌⊕◌, ◌⊖◌, ◌⊗◌, ◌⊘◌, ◌<?◌, ◌≤?◌, zero_f, one_f, max_f, min_f}
use ai_coin_trading.Broker.{RiskConfig, slippage_rate}

pub data Rejection : Type 0 where
  invalid_account_or_price invalid_atr volatility_too_high below_minimum_order : Rejection

-- An accepted decision has a notional and a stop distance, a rejected one a reason.
pub data EntryRiskDecision (F : Type 0) : Type 0 where
  accepted : F → F → EntryRiskDecision F
  rejected : Rejection → EntryRiskDecision F

module _ {F : Type 0} ⦃a : Arith F⦄ where
  -- The notional of an entry whose stop stands at this distance.
  entry_notional : RiskConfig F → F → F → F → F
  entry_notional config equity cash stop_distance =
      let trading_cost_buffer = a.literal 2 1 ⊗ (config.fee_rate ⊕ slippage_rate config) in
      let loss_fraction = stop_distance ⊕ trading_cost_buffer in
      let risk_cap = equity ⊗ config.risk_per_trade ⊘ loss_fraction in
      let allocation_cap = equity ⊗ config.max_position_fraction in
      let cash_cap = cash ⊘ (one_f ⊕ config.fee_rate) in
      min_f (min_f risk_cap allocation_cap) cash_cap

  size_with_atr : RiskConfig F → F → F → F → EntryRiskDecision F
  unfolding entry_notional
  size_with_atr config equity cash atr_pct =
      let raw_stop_distance = config.atr_stop_multiple ⊗ atr_pct in
      let stop_distance = max_f raw_stop_distance config.minimum_stop_pct in
      let notional = entry_notional config equity cash stop_distance in
      if config.maximum_stop_pct <? raw_stop_distance
      then rejected volatility_too_high
      else if notional <? config.minimum_order_quote
      then rejected below_minimum_order
      else accepted notional stop_distance

  unfoldable pub size_entry : RiskConfig F → F → F → F → Option F → EntryRiskDecision F
  unfolding size_with_atr
  size_entry config equity cash raw_price atr_pct =
      if (equity ≤? zero_f) || (cash ≤? zero_f) || (raw_price ≤? zero_f)
      then rejected invalid_account_or_price
      else elim atr_pct [
        | none ↦ rejected invalid_atr
        | some atr ↦
            if not (a.finite atr) || (atr ≤? zero_f)
            then rejected invalid_atr
            else size_with_atr config equity cash atr
      ]

  unfoldable pub drawdown : F → F → F
  drawdown equity peak_equity =
      if peak_equity ≤? zero_f then zero_f else max_f zero_f (one_f ⊖ equity ⊘ peak_equity)
