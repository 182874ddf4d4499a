-- ===== src/Shadow/Recorded.antt =====
-- src/coinpilot/hft_shadow.py: what `_record_intent` leaves.
use ai_coin_trading.Prelude.{
  ℕ, String, ◌≡◌, refl, ap, ◌⊎◌, inl, inr, Bool, true, false, not, ◌&&◌, ◌||◌, Option, none, some,
  List, [], ◌∷◌, ◌++◌, arith, eq_iff, is_some, Bool-cases, Option-cases,
}
use ai_coin_trading.Arith.{Arith, ◌⊕◌, ◌⊗◌, ◌<?◌, ◌≤?◌, one_f}
use ai_coin_trading.Depth.{PublicOrderBook}
use ai_coin_trading.Shadow.Intents.{
  is_recovery_sell, rejection_of, verdict, decision_row, order_row, record_order, record_intent,
}
use ai_coin_trading.Shadow.Ledger.{find_row, insert_exact, is_decision, is_pending_of, is_order}
use ai_coin_trading.Shadow.Rows.{ShadowState, OrderRow, Ledger}
use ai_coin_trading.Shadow.Same.{same_lifecycle, same_decision, same_lifecycle_eq}
use ai_coin_trading.Shadow.Settle.{
  ShadowConfig, ShadowIntent, Work, is_hold, is_sell_action, or_zero, key_of,
}
use ai_coin_trading.Shadow.Tables.{find_row_test, find_row-none}
use ai_coin_trading.Shadow.Types.{
  running, halted_recovery, ShadowAction, buy_action, sell_action, DecisionStatus, accepted_intent,
  BookKey, done, >>=-done,
}

-- What an intent has to meet to become an order.
pub record IsAllowed {F : Type 0} ⦃a : Arith F⦄ (config : ShadowConfig F) (run : String)
    (allow_recovery : Bool) (s : ShadowState F) (orders : List (OrderRow F)) (i : ShadowIntent F)
    : Type 0 where
  pub trades : is_hold i.intent_action ≡ false
  pub lifecycle :
      (s.lifecycle_status ≡ running)
      ⊎ ((allow_recovery ≡ true)
          × (s.lifecycle_status ≡ halted_recovery)
          × (i.intent_action ≡ sell_action))
  pub idle : find_row (is_pending_of run) orders ≡ none
  single :
      i.intent_action ≡ buy_action
      → config.one_position_only ≡ true
      → (config.position_epsilon <? s.base_quantity) ≡ false
  within_limit :
      i.intent_action ≡ buy_action → (config.max_order_quote <? or_zero i.intent_quote) ≡ false
  pub affordable :
      i.intent_action ≡ buy_action
      → (s.cash_quote ⊕ config.position_epsilon
          <? or_zero i.intent_quote ⊗ (one_f ⊕ config.shadow_fee_rate))
        ≡ false
  pub covered :
      i.intent_action ≡ sell_action
      → ((s.base_quantity ⊕ config.position_epsilon <? or_zero i.intent_base) ≡ false)
        × ((s.base_quantity ≤? config.position_epsilon) ≡ false)

module _ {F : Type 0} ⦃a : Arith F⦄ (config : ShadowConfig F) (run : String) (i : ShadowIntent F)
    (allow_recovery : Bool) where
  is_sell_action_iff : (x : ShadowAction) → is_sell_action x ≡ true → x ≡ sell_action
  is_sell_action_iff x h = ground arith

  allowed_lifecycle :
      (s : ShadowState F)
      → (not (same_lifecycle s.lifecycle_status running)
          && not (is_recovery_sell allow_recovery s i))
        ≡ false
      → (s.lifecycle_status ≡ running)
        ⊎ ((allow_recovery ≡ true)
            × (s.lifecycle_status ≡ halted_recovery)
            × (i.intent_action ≡ sell_action))
  allowed_lifecycle s h = elim (Bool-cases (same_lifecycle s.lifecycle_status running)) [
    | inl runs ↦ inl (same_lifecycle_eq s.lifecycle_status running runs)
    | inr not_running ↦ inr (
      ground (arith, not_running),
      same_lifecycle_eq s.lifecycle_status halted_recovery (ground (arith, not_running)),
      is_sell_action_iff i.intent_action (ground (arith, not_running)),
    )
  ]

  rejection_of-IsAllowed :
      (s : ShadowState F) (orders : List (OrderRow F))
      → is_hold i.intent_action ≡ false
      → rejection_of config run allow_recovery s orders i ≡ none
      → IsAllowed config run allow_recovery s orders i
  unfolding rejection_of
  rejection_of-IsAllowed s orders trades h = record {
    trades = trades;
    lifecycle = allowed_lifecycle s (ground arith);
    idle = ground arith;
    single = λ buys one. ground (arith, buys, one);
    within_limit = λ buys. ground (arith, buys);
    affordable = λ buys. ground (arith, buys);
    covered = λ sells. (ground (arith, sells), ground (arith, sells));
  }

module _ {F : Type 0} ⦃a : Arith F⦄ (config : ShadowConfig F) (run : String)
    (book : PublicOrderBook F) (i : ShadowIntent F) (wall : ℕ) (allow_recovery : Bool)
    (due : ℕ) where
  record_order_appends :
      (row : OrderRow F) (l l' : Ledger F) (status : DecisionStatus) (order : Option BookKey)
      → row.order_key.key_run ≡ run
      → find_row (is_pending_of run) l.orders ≡ none
      → record_order run row l ≡ done (l', status, order)
      → (order ≡ some row.order_key)
        × (status ≡ accepted_intent)
        × (l' ≡ record l { orders = l.orders ++ row ∷ [] })
  unfolding record_order insert_exact
  record_order_appends row l l' status order mine idle h =
      elim (Option-cases (find_row (is_order row.order_key) l.orders)) [
        | inl new ↦ (ground (arith, new), ground (arith, new), ground (arith, new))
        | inr (old, found) ↦
            let (same, within) = find_row_test (is_order row.order_key) l.orders old found in
            let other = find_row-none (is_pending_of run) l.orders old idle within in
            let held = eq_iff old.order_key.key_run row.order_key.key_run in
            let key = eq_iff old.order_key.key_run run in
            (
              ground (arith, found, same, other, held, key),
              ground (arith, found, same, other, held, key),
              ground (arith, found, same, other, held, key),
            )
      ]

  -- The tables after an intent, and the order it makes.
  abbrev pub Recorded : Work F → Ledger F → Option BookKey → Type 0
  Recorded w l' order =
      ((order ≡ none) × (l'.orders ≡ w.ledger.orders))
      ⊎ ((order ≡ some (key_of run book))
          × IsAllowed config run allow_recovery w.state w.ledger.orders i
          × (l'.orders ≡ w.ledger.orders ++ order_row run book i due wall ∷ []))

  pub record_intent-Recorded :
      (w : Work F) (l' : Ledger F) (status : DecisionStatus) (order : Option BookKey)
      → record_intent config run book i wall allow_recovery due w ≡ done (l', status, order)
      → (l'.states ≡ w.ledger.states) × Recorded w l' order
  unfolding record_intent
  record_intent-Recorded w l' status order h =
      let rejection = verdict config run allow_recovery w.state w.ledger.orders i in
      let row = decision_row run book i rejection wall in
      let (decisions, inserted, rest) =
        >>=-done
          (insert_exact true (is_decision row.decision_key) (is_decision row.decision_key)
            (same_decision row) row w.ledger.decisions)
          _ h in
      let l = record w.ledger { decisions = decisions } in
      elim (Bool-cases (is_some rejection || is_hold i.intent_action)) [
        | inl stops ↦ (ground (arith, stops), inl (ground (arith, stops), ground (arith, stops)))
        | inr goes ↦
            let trades : is_hold i.intent_action ≡ false = ground (arith, goes) in
            let fine : rejection_of config run allow_recovery w.state w.ledger.orders i ≡ none =
              ground (arith, goes, trades) in
            let allowed =
              rejection_of-IsAllowed config run i allow_recovery w.state w.ledger.orders trades
                fine in
            let (ordered, ok_status, same) =
              record_order_appends (order_row run book i due wall) l l' status order refl
                allowed.idle (ground (arith, goes)) in
            (ap (λ z. z.states) same, inr (ordered, allowed, ap (λ z. z.orders) same))
      ]
