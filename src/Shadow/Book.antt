-- ===== src/Shadow/Book.antt =====
-- src/coinpilot/hft_shadow.py: `process_book`, one transaction for each public order book.
use ai_coin_trading.Prelude.{
  ℕ, ◌+◌, String, Bool, true, false, not, ◌&&◌, Option, none, some, ltb, if◌then◌else◌,
}
use ai_coin_trading.Arith.{Arith, ◌<?◌, ◌≤?◌, zero_f}
use ai_coin_trading.Depth.{PublicOrderBook}
use ai_coin_trading.Outbox.{info, warning, critical}
use ai_coin_trading.Shadow.Feed.{continuity_of}
use ai_coin_trading.Shadow.Intents.{record_intent}
use ai_coin_trading.Shadow.Ledger.{expired, expire_pending, set_run, alert}
use ai_coin_trading.Shadow.Orders.{resolve_pending}
use ai_coin_trading.Shadow.Rows.{Notice, ShadowState, continuity_payload, warmup_payload}
use ai_coin_trading.Shadow.Same.{same_lifecycle}
use ai_coin_trading.Shadow.Settle.{ShadowConfig, ShadowIntent, Work, recovery_reason, key_of}
use ai_coin_trading.Shadow.Types.{
  ◌>>=◌, Step, Lifecycle, warmup, running, halted_recovery, sell_action, ContinuityReason,
  HaltReason, open_position_break, restart_with_open_position, continuity_expiry, DecisionStatus,
  recovery_features, BookKey, FillKey, continuity_alert, warmup_alert, done,
}

pub record ShadowStepResult (F : Type 0) : Type 0 where
  pub result_lifecycle : Lifecycle
  pub decision_id : Option BookKey
  pub decision_outcome : Option DecisionStatus
  pub order_id : Option BookKey
  pub resolved_order_id : Option BookKey
  pub fill_id : Option FillKey
  pub duplicate_event : Bool
  pub continuity_reason : Option ContinuityReason
  pub result_cash : F
  pub result_base : F
  pub result_equity : F

-- The results that `process_book` collects on its way.
pub record Events : Type 0 where
  pub resolved : Option BookKey
  pub filled : Option FillKey
  pub decided : Option BookKey
  pub decided_status : Option DecisionStatus
  pub ordered : Option BookKey
  pub recovering : Bool

abbrev pub no_events : Events
no_events = record {
  resolved = none;
  filled = none;
  decided = none;
  decided_status = none;
  ordered = none;
  recovering = false;
}

-- `_is_automatic_recovery_halt`
abbrev pub is_automatic : Option HaltReason → Bool
is_automatic (some (open_position_break r)) = true
is_automatic (some restart_with_open_position) = true
is_automatic _ = false

module _ {F : Type 0} ⦃a : Arith F⦄ where
  abbrev pub is_open : ShadowConfig F → ShadowState F → Bool
  is_open config s = config.position_epsilon <? s.base_quantity

  abbrev continuity_notice :
      String → PublicOrderBook F → ContinuityReason → ℕ → Lifecycle → ℕ → Notice F
  continuity_notice run book why expired lifecycle wall = record {
    alert_key = continuity_alert (key_of run book);
    notice_run = run;
    severity = if same_lifecycle lifecycle halted_recovery then critical else warning;
    payload = continuity_payload why expired lifecycle;
    created_wall_ns = wall;
  }

  -- The account after a break of the feed.
  abbrev pub broken_state : ShadowConfig F → ContinuityReason → ShadowState F → ShadowState F
  broken_state config why s = record s {
    warmup_books_seen = 0;
    lifecycle_status = if is_open config s then halted_recovery else warmup;
    halt_reason = if is_open config s then some (open_position_break why) else none;
  }

  -- A book after a break: what waits expires, and the account warms up or halts.
  unfoldable pub break_feed :
      ShadowConfig F → String → PublicOrderBook F → ContinuityReason → ℕ → Work F → Step (Work F)
  break_feed config run book why wall w = do
    let (orders, count) = expire_pending run (continuity_expiry why) wall w.ledger.orders
    let s = broken_state config why w.state
    let l = set_run run s.lifecycle_status s.halt_reason (record w.ledger { orders = orders })
    l' ← alert (continuity_notice run book why count s.lifecycle_status wall) l
    done (record { ledger = l'; state = s })

  abbrev pub recovery_intent : ShadowState F → ShadowIntent F
  recovery_intent s = record {
    intent_action = sell_action;
    intent_reason = recovery_reason;
    intent_policy = "system-recovery-v1";
    intent_signal = none;
    intent_quote = none;
    intent_base = some s.base_quantity;
    intent_features = recovery_features s.halt_reason;
  }

  abbrev recovered_state : ShadowState F → ShadowState F
  recovered_state s = record s {
    base_quantity = zero_f;
    average_cost_quote = zero_f;
    lifecycle_status = warmup;
    warmup_books_seen = 0;
    halt_reason = none;
  }

  -- The end of a halt, once the position is sold.
  unfoldable pub settle_recovery : ShadowConfig F → String → Work F → Work F
  settle_recovery config run w =
      if w.state.base_quantity ≤? config.position_epsilon
      then record { ledger = set_run run warmup none w.ledger; state = recovered_state w.state }
      else w

  -- The sale of the position that a break or a restart has left open, at this book.
  unfoldable pub recover :
      ShadowConfig F → String → PublicOrderBook F → ℕ → Work F → Step (Work F × Events)
  recover config run book wall w = do
    (l, status, order) ←
        record_intent config run book (recovery_intent w.state) wall true book.received_monotonic_ns
          w
    (w', resolved, fill) ← resolve_pending config run book wall (record w { ledger = l })
    done (
      settle_recovery config run w',
      record {
        resolved = resolved;
        filled = fill;
        decided = some (key_of run book);
        decided_status = some status;
        ordered = order;
        recovering = true;
      },
    )

  abbrev pub must_recover : ShadowConfig F → ShadowState F → Bool
  must_recover config s =
      same_lifecycle s.lifecycle_status halted_recovery
      && is_automatic s.halt_reason
      && is_open config s

  abbrev warmup_notice : ShadowConfig F → String → PublicOrderBook F → ℕ → Notice F
  warmup_notice config run book wall = record {
    alert_key = warmup_alert (key_of run book);
    notice_run = run;
    severity = info;
    payload = warmup_payload config.warmup_books;
    created_wall_ns = wall;
  }

  -- One more book of the warm-up, the last of which starts the trading.
  unfoldable pub warm_up : ShadowConfig F → String → PublicOrderBook F → ℕ → Work F → Step (Work F)
  warm_up config run book wall w =
      let s = record w.state { warmup_books_seen = w.state.warmup_books_seen + 1 } in
      if not (same_lifecycle w.state.lifecycle_status warmup)
      then done w
      else if ltb s.warmup_books_seen config.warmup_books
      then done (record w { state = s })
      else alert (warmup_notice config run book wall) (set_run run running none w.ledger) >>= λ l.
          done (record {
            ledger = l;
            state = record s { lifecycle_status = running; halt_reason = none };
          })

  -- A book that continues the feed.
  unfoldable pub continue_feed :
      ShadowConfig F → String → PublicOrderBook F → ℕ → Work F → Step (Work F × Events)
  continue_feed config run book wall w = do
    (w', resolved, fill) ← resolve_pending config run book wall w
    (if must_recover config w'.state
        then recover config run book wall w'
        else warm_up config run book wall w' >>= λ w''.
            done (w'', record no_events { resolved = resolved; filled = fill }))

  unfoldable pub apply_book :
      ShadowConfig F → String → PublicOrderBook F → ℕ → Work F → Step (Work F × Events)
  apply_book config run book wall w = elim (continuity_of w.state book) [
    | some why ↦ break_feed config run book why wall w >>= λ w'. done (w', no_events)
    | none ↦ continue_feed config run book wall w
  ]

  -- The caller's intent, unless this book has served a recovery.
  unfoldable pub apply_intent :
      ShadowConfig F
      → String
      → PublicOrderBook F
      → Option (ShadowIntent F)
      → ℕ
      → Work F × Events
      → Step (Work F × Events)
  apply_intent config run book none wall (w, e) = done (w, e)
  apply_intent config run book (some i) wall (w, e) =
      if e.recovering
      then done (w, e)
      else record_intent config run book i wall false
          (book.received_monotonic_ns + config.shadow_latency_ns) w
        >>= λ recorded. done (
          record w { ledger = recorded.0 },
          record e {
            decided = some (key_of run book);
            decided_status = some recorded.1;
            ordered = recorded.2;
          },
        )
