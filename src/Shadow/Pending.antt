-- ===== src/Shadow/Pending.antt =====
-- src/coinpilot/hft_shadow.py: how many orders of a run wait after each part of `process_book`.
use mathlib.Core.Path.{subst}
use ai_coin_trading.Prelude.{
  ℕ, ◌+◌, ◌≤◌, String, ◌≡◌, refl, sym, ap, ◌∙◌, inl, inr, Bool, true, false, Option, none, some,
  List, arith, Bool-cases,
}
use ai_coin_trading.Arith.{Arith}
use ai_coin_trading.Depth.{PublicOrderBook}
use ai_coin_trading.Shadow.Book.{
  ShadowStepResult, Events, break_feed, recovery_intent, settle_recovery, warm_up, apply_intent,
}
use ai_coin_trading.Shadow.Close.{close_book}
use ai_coin_trading.Shadow.Counts.{count_rows-update_rows, count_rows-none, count_rows-append}
use ai_coin_trading.Shadow.Engine.{process_book}
use ai_coin_trading.Shadow.Feed.{event_wall_ns, continuity_of}
use ai_coin_trading.Shadow.Intents.{order_row, record_intent}
use ai_coin_trading.Shadow.Ledger.{
  update_rows, count_rows, is_pending_of, expired, expire_pending, set_run, save_state,
}
use ai_coin_trading.Shadow.Passage.{Applied, broke, recovered, went_on, Recovery, recover-Recovery}
use ai_coin_trading.Shadow.Processed.{process_book-Processed, process_book_repeats}
use ai_coin_trading.Shadow.Recorded.{Recorded, record_intent-Recorded}
use ai_coin_trading.Shadow.Resolved.{Ends, Resolved, resolve_pending-Resolved}
use ai_coin_trading.Shadow.Rows.{OrderRow, Ledger}
use ai_coin_trading.Shadow.Same.{is_pending}
use ai_coin_trading.Shadow.Sampling.{sample_equity, sample_health}
use ai_coin_trading.Shadow.Settle.{ShadowConfig, ShadowIntent, Work}
use ai_coin_trading.Shadow.Types.{ContinuityReason, continuity_expiry, BookKey, done, Step-cases}

module _ {F : Type 0} ⦃a : Arith F⦄ (config : ShadowConfig F) (run : String)
    (book : PublicOrderBook F) where
  -- The run has at most one pending order.
  abbrev HasOnePending : List (OrderRow F) → Type 0
  HasOnePending orders = count_rows (is_pending_of run) orders ≤ 1

  pub ends_pending :
      (change : OrderRow F → OrderRow F) (o : OrderRow F)
      → is_pending (change o).order_status ≡ false
      → is_pending_of run (change o) ≡ false
  ends_pending change o h = ground arith

  update_rows-HasOnePending :
      (test : OrderRow F → Bool) (change : OrderRow F → OrderRow F) (orders : List (OrderRow F))
      → Ends change
      → HasOnePending orders
      → HasOnePending (update_rows test change orders)
  update_rows-HasOnePending test change orders ends one =
      let fewer =
        count_rows-update_rows test (is_pending_of run) change orders
          (λ o. ends_pending change o (ends o)) in
      ground (arith, fewer, one)

  Resolved-HasOnePending :
      (w w' : Work F)
      → Resolved w w'
      → HasOnePending w.ledger.orders
      → HasOnePending w'.ledger.orders
  Resolved-HasOnePending w w' r one = elim r.orders [
    | inl same ↦ subst HasOnePending (sym same) one
    | inr (test, change, ends, same) ↦
        subst HasOnePending (sym same)
          (update_rows-HasOnePending test change w.ledger.orders ends one)
  ]

  Recorded-HasOnePending :
      (i : ShadowIntent F) (wall due : ℕ) (allow_recovery : Bool) (w : Work F) (l' : Ledger F)
      (order : Option BookKey)
      → Recorded config run book i wall allow_recovery due w l' order
      → HasOnePending w.ledger.orders
      → HasOnePending l'.orders
  Recorded-HasOnePending i wall due allow_recovery w l' order (inl (_, same)) one =
      subst HasOnePending (sym same) one
  Recorded-HasOnePending i wall due allow_recovery w l' order (inr (_, allowed, same)) one =
      let no_pending = count_rows-none (is_pending_of run) w.ledger.orders allowed.idle in
      let more =
        count_rows-append (is_pending_of run) w.ledger.orders (order_row run book i due wall) in
      subst HasOnePending (sym same) (ground (arith, no_pending, more))

  break_feed-HasOnePending :
      (why : ContinuityReason) (wall : ℕ) (w w' : Work F)
      → break_feed config run book why wall w ≡ done w'
      → HasOnePending w.ledger.orders
      → HasOnePending w'.ledger.orders
  unfolding break_feed set_run expire_pending
  break_feed-HasOnePending why wall w w' h one =
      let same : w'.ledger.orders
          ≡ update_rows (is_pending_of run) (expired (continuity_expiry why) wall) w.ledger.orders =
        ground arith in
      subst HasOnePending (sym same) (
        update_rows-HasOnePending (is_pending_of run) (expired (continuity_expiry why) wall)
          w.ledger.orders (λ o. refl) one)

  pub warm_up-orders :
      (wall : ℕ) (w w' : Work F)
      → warm_up config run book wall w ≡ done w'
      → w'.ledger.orders ≡ w.ledger.orders
  unfolding warm_up set_run
  warm_up-orders wall w w' h = ground arith

  pub settle_recovery-orders :
      (w : Work F) → (settle_recovery config run w).ledger.orders ≡ w.ledger.orders
  unfolding settle_recovery set_run
  settle_recovery-orders w = ground arith

  recover-HasOnePending :
      (wall : ℕ) (w w' : Work F) (e : Events)
      → Recovery config run book wall w w' e
      → HasOnePending w.ledger.orders
      → HasOnePending w'.ledger.orders
  recover-HasOnePending wall w w' e r one =
      let i = recovery_intent w.state in
      let w₁ : Work F = record w { ledger = r.recorded } in
      let (_, recorded) =
        record_intent-Recorded config run book i wall true book.received_monotonic_ns w r.recorded
          r.status r.order r.records in
      let placed =
        Recorded-HasOnePending i wall book.received_monotonic_ns true w r.recorded r.order recorded
          one in
      let sale =
        resolve_pending-Resolved config run book wall w₁ r.sold r.result e.filled r.resolves in
      let same = ap (λ z. z.ledger.orders) r.settles ∙ settle_recovery-orders r.sold in
      subst HasOnePending (sym same) (Resolved-HasOnePending w₁ r.sold sale placed)

  Applied-HasOnePending :
      (wall : ℕ) (w w' : Work F) (e : Events)
      → Applied config run book wall w w' e
      → HasOnePending w.ledger.orders
      → HasOnePending w'.ledger.orders
  Applied-HasOnePending wall w w' e (broke why breaks ends same) one =
      break_feed-HasOnePending why wall w w' ends one
  Applied-HasOnePending wall w w' e (recovered w₁ res fill goes first must ends) one =
      recover-HasOnePending wall w₁ w' e (recover-Recovery config run book wall w₁ w' e ends) (
        Resolved-HasOnePending w w₁
          (resolve_pending-Resolved config run book wall w w₁ res fill first) one)
  Applied-HasOnePending wall w w' e (went_on w₁ res fill goes first idle warms same) one =
      subst HasOnePending (sym (warm_up-orders wall w₁ w' warms)) (
        Resolved-HasOnePending w w₁
          (resolve_pending-Resolved config run book wall w w₁ res fill first) one)

  apply_intent-HasOnePending :
      (i : Option (ShadowIntent F)) (wall : ℕ) (x y : Work F × Events)
      → apply_intent config run book i wall x ≡ done y
      → HasOnePending x.0.ledger.orders
      → HasOnePending y.0.ledger.orders
  unfolding apply_intent
  apply_intent-HasOnePending none wall (w, e) y h one = ground (arith, one)
  apply_intent-HasOnePending (some i) wall (w, e) y h one = elim (Bool-cases e.recovering) [
    | inl serves ↦ ground (arith, serves, one)
    | inr free ↦
        let due = book.received_monotonic_ns + config.shadow_latency_ns in
        elim (Step-cases (record_intent config run book i wall false due w)) [
          | inl (_, fails) ↦ absurd (ground (arith, free, fails))
          | inr ((l, status, order), records) ↦
              let (_, recorded) =
                record_intent-Recorded config run book i wall false due w l status order records in
              let placed = Recorded-HasOnePending i wall due false w l order recorded one in
              ground (arith, free, records, placed)
        ]
  ]

  pub close_book-orders :
      (wall : ℕ) (broken : Option ContinuityReason) (x : Work F × Events) (l : Ledger F)
      (r : ShadowStepResult F)
      → close_book config run book wall broken x ≡ done (l, r)
      → l.orders ≡ x.0.ledger.orders
  unfolding close_book sample_equity sample_health save_state
  close_book-orders wall broken (w, e) l r h = ground arith

  -- If the run has at most one pending order in the ledger, so it has after every call of
  -- `process_book` that returns.
  pub process_book-HasOnePending :
      (intent : Option (ShadowIntent F)) (l l' : Ledger F) (r : ShadowStepResult F)
      → HasOnePending l.orders
      → process_book config run book intent l ≡ done (l', r)
      → HasOnePending l'.orders
  process_book-HasOnePending intent l l' r one h = elim (Bool-cases r.duplicate_event) [
    | inl again ↦
        let same = process_book_repeats config run book intent l l' r h again in
        subst (λ z. HasOnePending z.orders) (sym same) one
    | inr new ↦
        let wall = event_wall_ns book in
        let p = process_book-Processed config run book intent l l' r h new in
        let closed =
          close_book-orders wall (continuity_of p.before book) p.intended l' r p.closes in
        subst HasOnePending (sym closed) (
          apply_intent-HasOnePending p.intent wall (p.worked, p.events) p.intended p.intends
            (Applied-HasOnePending wall (record { ledger = l; state = p.before }) p.worked p.events
              p.applied one))
  ]
