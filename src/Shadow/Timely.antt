-- ===== src/Shadow/Timely.antt =====
-- src/coinpilot/hft_shadow.py: the due times of the orders that wait, after each part of
-- `process_book`.
use mathlib.Core.Path.{subst}
use ai_coin_trading.Prelude.{
  ℕ, ◌+◌, String, ◌≡◌, sym, ap, ◌∙◌, ◌⊎◌, inl, inr, Bool, true, false, Option, none, some, List,
  arith, Bool-cases,
}
use ai_coin_trading.Arith.{Arith}
use ai_coin_trading.Depth.{PublicOrderBook}
use ai_coin_trading.Shadow.Book.{ShadowStepResult, Events, warm_up, apply_intent}
use ai_coin_trading.Shadow.Close.{close_book}
use ai_coin_trading.Shadow.Counts.{find_row_zero}
use ai_coin_trading.Shadow.Engine.{process_book}
use ai_coin_trading.Shadow.Feed.{event_wall_ns, continuity_of}
use ai_coin_trading.Shadow.Intents.{order_row, record_intent}
use ai_coin_trading.Shadow.Ledger.{find_row, is_decision, is_pending_of, set_run, save_state}
use ai_coin_trading.Shadow.Passage.{Applied, broke, recovered, went_on, recover-Recovery}
use ai_coin_trading.Shadow.Pending.{warm_up-orders, close_book-orders}
use ai_coin_trading.Shadow.Processed.{process_book-Processed}
use ai_coin_trading.Shadow.Recorded.{Recorded, record_intent-Recorded}
use ai_coin_trading.Shadow.Resolved.{Resolved, resolve_pending-Resolved}
use ai_coin_trading.Shadow.Rows.{DecisionRow, OrderRow, Ledger}
use ai_coin_trading.Shadow.Sale.{record_intent_decides, record_intent_keeps, recover_idle}
use ai_coin_trading.Shadow.Same.{is_pending, same_lifecycle_eq}
use ai_coin_trading.Shadow.Sampling.{sample_equity, sample_health}
use ai_coin_trading.Shadow.Settle.{ShadowConfig, ShadowIntent, Work}
use ai_coin_trading.Shadow.Tables.{Within, update_rows-Within, find_row-none, Within-append}
use ai_coin_trading.Shadow.Types.{
  halted_recovery, ContinuityReason, DecisionStatus, BookKey, done, Step-cases,
}
use ai_coin_trading.Shadow.Waiting.{IsQuiet, HasSoundOrders, Resolved-IsQuiet, break_feed_idle}

module _ {F : Type 0} ⦃a : Arith F⦄ (config : ShadowConfig F) where
  -- The order is due when the latency has passed since its decision.
  pub record IsOnTime (decisions : List (DecisionRow F)) (o : OrderRow F) : Type 0 where
    pub decision : DecisionRow F
    pub decided : find_row (is_decision o.order_key) decisions ≡ some decision
    pub latency : o.due_monotonic_ns ≡ decision.decision_monotonic_ns + config.shadow_latency_ns

module _ {F : Type 0} ⦃a : Arith F⦄ (config : ShadowConfig F) (run : String) where
  -- So are all orders of the run that wait in the ledger.
  pub record IsTimed (l : Ledger F) : Type 0 where
    pub timed :
        (o : OrderRow F)
        → Within o l.orders
        → is_pending_of run o ≡ true
        → IsOnTime config l.decisions o

  idle-IsTimed : (l : Ledger F) → find_row (is_pending_of run) l.orders ≡ none → IsTimed l
  idle-IsTimed l idle = record {
    timed = λ o within waits.
        let over = find_row-none (is_pending_of run) l.orders o idle within in
        absurd (ground (arith, over, waits));
  }

  kept-IsTimed :
      (l l' : Ledger F) → l'.orders ≡ l.orders → l'.decisions ≡ l.decisions → IsTimed l → IsTimed l'
  kept-IsTimed l l' orders decisions t = record {
    timed = λ o within waits.
        subst (λ z. IsOnTime config z o) (sym decisions)
          (t.timed o (subst (Within o) orders within) waits);
  }

module _ {F : Type 0} ⦃a : Arith F⦄ (config : ShadowConfig F) (run : String)
    (book : PublicOrderBook F) where
  -- An order that still waits after an update of ended orders has waited before.
  pub Resolved-Within :
      (w w' : Work F) (o : OrderRow F)
      → Resolved w w'
      → is_pending o.order_status ≡ true
      → Within o w'.ledger.orders
      → Within o w.ledger.orders
  Resolved-Within w w' o r waits within = elim r.orders [
    | inl same ↦ subst (Within o) same within
    | inr (test, change, ends, same) ↦
        update_rows-Within test (λ x. is_pending x.order_status) change w.ledger.orders o ends waits
          (subst (Within o) same within)
  ]

  pub Recorded-Within :
      (i : ShadowIntent F) (wall due : ℕ) (allow_recovery : Bool) (w : Work F) (l' : Ledger F)
      (order : Option BookKey) (o : OrderRow F)
      → Recorded config run book i wall allow_recovery due w l' order
      → Within o l'.orders
      → Within o w.ledger.orders ⊎ (order_row run book i due wall ≡ o)
  Recorded-Within i wall due allow_recovery w l' order o (inl (_, same)) within =
      inl (subst (Within o) same within)
  Recorded-Within i wall due allow_recovery w l' order o (inr (_, _, same)) within =
      Within-append w.ledger.orders (order_row run book i due wall) o (subst (Within o) same within)

  Resolved-IsTimed :
      (w w' : Work F) → Resolved w w' → IsTimed config run w.ledger → IsTimed config run w'.ledger
  Resolved-IsTimed w w' r t = record {
    timed = λ o within waits.
        subst (λ z. IsOnTime config z o) (sym r.decisions)
          (t.timed o (Resolved-Within w w' o r (ground (arith, waits)) within) waits);
  }

  -- The order of the caller's intent waits for the latency.
  record_intent-IsTimed :
      (i : ShadowIntent F) (wall : ℕ) (w : Work F) (l' : Ledger F) (status : DecisionStatus)
      (order : Option BookKey)
      → record_intent config run book i wall false
          (book.received_monotonic_ns + config.shadow_latency_ns)
          w
        ≡ done (l', status, order)
      → IsTimed config run w.ledger
      → IsTimed config run l'
  record_intent-IsTimed i wall w l' status order h t =
      let due = book.received_monotonic_ns + config.shadow_latency_ns in
      let (_, recorded) =
        record_intent-Recorded config run book i wall false due w l' status order h in
      record {
        timed = λ o within waits.
            elim (Recorded-Within i wall due false w l' order o recorded within) [
              | inl old ↦
                  let was = t.timed o old waits in
                  record {
                    decision = was.decision;
                    decided =
                        record_intent_keeps config run book wall i false due w l' status order
                          o.order_key was.decision h was.decided;
                    latency = was.latency;
                  }
              | inr new ↦
                  let (d, decided, time) =
                    record_intent_decides config run book wall i false due w l' status order h in
                  record {
                    decision = d;
                    decided =
                        subst (λ z. find_row (is_decision z) l'.decisions ≡ some d)
                          (ap (λ z. z.order_key) new) decided;
                    latency =
                        sym (ap (λ z. z.due_monotonic_ns) new)
                        ∙ sym (ap (λ z. z + config.shadow_latency_ns) time);
                  }
            ];
      }

  apply_intent-IsTimed :
      (i : Option (ShadowIntent F)) (wall : ℕ) (x y : Work F × Events)
      → apply_intent config run book i wall x ≡ done y
      → IsTimed config run x.0.ledger
      → IsTimed config run y.0.ledger
  unfolding apply_intent
  apply_intent-IsTimed none wall (w, e) y h t =
      let same : w.ledger ≡ y.0.ledger = ground arith in subst (IsTimed config run) same t
  apply_intent-IsTimed (some i) wall (w, e) y h t = elim (Bool-cases e.recovering) [
    | inl serves ↦
        let same : w.ledger ≡ y.0.ledger = ground (arith, serves) in
        subst (IsTimed config run) same t
    | inr free ↦
        let due = book.received_monotonic_ns + config.shadow_latency_ns in
        elim (Step-cases (record_intent config run book i wall false due w)) [
          | inl (_, fails) ↦ absurd (ground (arith, free, fails))
          | inr ((l, status, order), records) ↦
              let same : l ≡ y.0.ledger = ground (arith, free, records) in
              subst (IsTimed config run) same
                (record_intent-IsTimed i wall w l status order records t)
        ]
  ]

  warm_up-decisions :
      (wall : ℕ) (w w' : Work F)
      → warm_up config run book wall w ≡ done w'
      → w'.ledger.decisions ≡ w.ledger.decisions
  unfolding warm_up set_run
  warm_up-decisions wall w w' h = ground arith

  close_book-decisions :
      (wall : ℕ) (broken : Option ContinuityReason) (x : Work F × Events) (l : Ledger F)
      (r : ShadowStepResult F)
      → close_book config run book wall broken x ≡ done (l, r)
      → l.decisions ≡ x.0.ledger.decisions
  unfolding close_book sample_equity sample_health save_state
  close_book-decisions wall broken (w, e) l r h = ground arith

  Applied-IsTimed :
      (wall : ℕ) (w w' : Work F) (e : Events)
      → Applied config run book wall w w' e
      → IsQuiet run w.state w.ledger.orders
      → IsTimed config run w.ledger
      → IsTimed config run w'.ledger
  Applied-IsTimed wall w w' e (broke why breaks ends same) quiet t =
      idle-IsTimed config run w'.ledger (
        find_row_zero (is_pending_of run) w'.ledger.orders
          (break_feed_idle config run book why wall w w' ends))
  Applied-IsTimed wall w w' e (recovered w₁ res fill goes first must ends) quiet t =
      let r = resolve_pending-Resolved config run book wall w w₁ res fill first in
      let halted = same_lifecycle_eq w₁.state.lifecycle_status halted_recovery (ground arith) in
      let none_waits = Resolved-IsQuiet config run book w w₁ r quiet (ground (arith, halted)) in
      idle-IsTimed config run w'.ledger (
        find_row_zero (is_pending_of run) w'.ledger.orders (
          recover_idle config run book wall w₁ w' e
            (recover-Recovery config run book wall w₁ w' e ends)
            (find_row_zero (is_pending_of run) w₁.ledger.orders none_waits)))
  Applied-IsTimed wall w w' e (went_on w₁ res fill goes first no_sale warms same) quiet t =
      kept-IsTimed config run w₁.ledger w'.ledger (warm_up-orders config run book wall w₁ w' warms)
        (warm_up-decisions wall w₁ w' warms)
        (Resolved-IsTimed w w₁ (resolve_pending-Resolved config run book wall w w₁ res fill first)
          t)

  -- If the run's waiting orders are timed, so they are after a book.
  pub process_book-IsTimed :
      (intent : Option (ShadowIntent F)) (l l' : Ledger F) (r : ShadowStepResult F)
      → HasSoundOrders run l
      → IsTimed config run l
      → process_book config run book intent l ≡ done (l', r)
      → r.duplicate_event ≡ false
      → IsTimed config run l'
  process_book-IsTimed intent l l' r sound t h new =
      let wall = event_wall_ns book in
      let p = process_book-Processed config run book intent l l' r h new in
      let broken = continuity_of p.before book in
      kept-IsTimed config run p.intended.0.ledger l'
        (close_book-orders config run book wall broken p.intended l' r p.closes)
        (close_book-decisions wall broken p.intended l' r p.closes)
        (apply_intent-IsTimed p.intent wall (p.worked, p.events) p.intended p.intends
          (Applied-IsTimed wall (record { ledger = l; state = p.before }) p.worked p.events
            p.applied (sound.quiet p.before p.found) t))
