-- ===== src/Shadow/Served.antt =====
-- src/coinpilot/hft_shadow.py: the order of a fill, followed through the parts of
-- `process_book`.
use mathlib.Core.Path.{subst}
use ai_coin_trading.Prelude.{
  ℕ, String, ◌≡◌, sym, ap, ◌∙◌, ◌⊎◌, inl, inr, true, Option, none, some, arith, eq_iff,
}
use ai_coin_trading.Arith.{Arith}
use ai_coin_trading.Depth.{PublicOrderBook}
use ai_coin_trading.Shadow.Book.{
  ShadowStepResult, Events, is_automatic, recovery_intent, must_recover, apply_intent,
}
use ai_coin_trading.Shadow.Close.{close_book}
use ai_coin_trading.Shadow.Feed.{continuity_of}
use ai_coin_trading.Shadow.Fills.{IsDue, resolve_pending_fill}
use ai_coin_trading.Shadow.Ledger.{is_pending_of}
use ai_coin_trading.Shadow.Orders.{resolve_pending}
use ai_coin_trading.Shadow.Passage.{Applied, broke, recovered, went_on, Recovery, recover-Recovery}
use ai_coin_trading.Shadow.Recorded.{record_intent-Recorded}
use ai_coin_trading.Shadow.Resolved.{Resolved, resolve_pending-Resolved}
use ai_coin_trading.Shadow.Rows.{ShadowState, OrderRow, Ledger}
use ai_coin_trading.Shadow.Same.{same_lifecycle_eq}
use ai_coin_trading.Shadow.Settle.{ShadowConfig, ShadowIntent, Work, key_of}
use ai_coin_trading.Shadow.Tables.{Within, find_row_test}
use ai_coin_trading.Shadow.Timely.{Resolved-Within, Recorded-Within}
use ai_coin_trading.Shadow.Types.{halted_recovery, ContinuityReason, BookKey, FillKey, done}

module _ {F : Type 0} ⦃a : Arith F⦄ (config : ShadowConfig F) (run : String)
    (book : PublicOrderBook F) where
  -- The order of a fill: one that waited in the ledger, or the recovery's own sale, which is due at
  -- this book.
  pub record Served (l : Ledger F) (s : ShadowState F) (f : FillKey) : Type 0 where
    pub order : OrderRow F
    pub named : f.fill_order ≡ order.order_key
    pub own : order.order_key.key_run ≡ run
    pub due : IsDue config book order
    pub placed :
        Within order l.orders
        ⊎ ((s.lifecycle_status ≡ halted_recovery)
            × (is_automatic s.halt_reason ≡ true)
            × (order.order_key ≡ key_of run book)
            × (order.due_monotonic_ns ≡ book.received_monotonic_ns))

  resolve_pending-Served :
      (wall : ℕ) (s : ShadowState F) (w w' : Work F) (res : Option BookKey) (f : FillKey)
      → resolve_pending config run book wall w ≡ done (w', res, some f)
      → Served w.ledger s f
  resolve_pending-Served wall s w w' res f h =
      let (o, found, due, named) = resolve_pending_fill config run book wall w w' res f h in
      let (same, within) = find_row_test (is_pending_of run) w.ledger.orders o found in
      record {
        order = o;
        named = named;
        own = (eq_iff o.order_key.key_run run).0 (ground (arith, same));
        due = due;
        placed = inl within;
      }

  recover-Served :
      (wall : ℕ) (w w' : Work F) (e : Events) (f : FillKey)
      → must_recover config w.state ≡ true
      → Recovery config run book wall w w' e
      → e.filled ≡ some f
      → Served w.ledger w.state f
  recover-Served wall w w' e f must r fills =
      let w₁ : Work F = record w { ledger = r.recorded } in
      let served = resolve_pending-Served wall w.state w₁ r.sold r.result f (
        subst (λ z. resolve_pending config run book wall w₁ ≡ done (r.sold, r.result, z)) fills
          r.resolves) in
      let (states, recorded) =
        record_intent-Recorded config run book (recovery_intent w.state) wall true
          book.received_monotonic_ns w r.recorded r.status r.order r.records in
      let old =
        Recorded-Within config run book (recovery_intent w.state) wall book.received_monotonic_ns
          true w r.recorded r.order served.order recorded in
      let halted = same_lifecycle_eq w.state.lifecycle_status halted_recovery (ground arith) in
      let automatic : is_automatic w.state.halt_reason ≡ true = ground arith in
      record {
        order = served.order;
        named = served.named;
        own = served.own;
        due = served.due;
        placed = elim served.placed [
          | inl within ↦ elim (old within) [
            | inl was ↦ inl was
            | inr own ↦ inr (
              halted,
              automatic,
              sym (ap (λ z. z.order_key) own),
              sym (ap (λ z. z.due_monotonic_ns) own),
            )
          ]
          | inr sale ↦ inr sale
        ];
      }

  -- A pending order that is served after the account's own orders were resolved.
  after_resolving :
      (w w' : Work F) (f : FillKey)
      → Resolved w w'
      → Served w'.ledger w'.state f
      → Served w.ledger w.state f
  after_resolving w w' f r served = record {
    order = served.order;
    named = served.named;
    own = served.own;
    due = served.due;
    placed = elim served.placed [
      | inl within ↦
          inl (Resolved-Within config run book w w' served.order r served.due.waiting within)
      | inr (halted, automatic, own, at_once) ↦ inr (
        sym r.lifecycle ∙ halted,
        subst (λ z. is_automatic z ≡ true) r.halt_kept automatic,
        own,
        at_once,
      )
    ];
  }

  pub Applied-Served :
      (wall : ℕ) (w w' : Work F) (e : Events) (f : FillKey)
      → Applied config run book wall w w' e
      → e.filled ≡ some f
      → (continuity_of w.state book ≡ none) × Served w.ledger w.state f
  Applied-Served wall w w' e f (broke why breaks ends same) fills = absurd (ground arith)
  Applied-Served wall w w' e f (recovered w₁ res fill goes first must ends) fills = (
    goes,
    after_resolving w w₁ f (resolve_pending-Resolved config run book wall w w₁ res fill first) (
        recover-Served wall w₁ w' e f must (recover-Recovery config run book wall w₁ w' e ends)
          fills),
  )
  Applied-Served wall w w' e f (went_on w₁ res fill goes first idle warms same) fills =
      let filled : fill ≡ some f = ground arith in
      (
        goes,
        resolve_pending-Served wall w.state w w₁ res f
            (subst (λ z. resolve_pending config run book wall w ≡ done (w₁, res, z)) filled first),
      )

  pub apply_intent-filled :
      (i : Option (ShadowIntent F)) (wall : ℕ) (x y : Work F × Events)
      → apply_intent config run book i wall x ≡ done y
      → (y.1.filled ≡ x.1.filled) × (y.0.state ≡ x.0.state)
  unfolding apply_intent
  apply_intent-filled none wall (w, e) y h = ground arith
  apply_intent-filled (some i) wall (w, e) y h = ground arith

  pub close_book-filled :
      (wall : ℕ) (broken : Option ContinuityReason) (x : Work F × Events) (l : Ledger F)
      (r : ShadowStepResult F)
      → close_book config run book wall broken x ≡ done (l, r)
      → (r.fill_id ≡ x.1.filled)
  unfolding close_book
  close_book-filled wall broken x l r h = ground arith
