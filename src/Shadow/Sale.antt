-- ===== src/Shadow/Sale.antt =====
-- src/coinpilot/hft_shadow.py: the order with which `process_book` recovers an account, and its end.
use ai_coin_trading.Prelude.{
  ℕ, String, ◌≡◌, refl, sym, ap, ◌∙◌, inl, inr, Bool, true, false, Option, none, some, List, [],
  ◌∷◌, ◌++◌, arith, eq_iff,
}
use ai_coin_trading.Arith.{Arith}
use ai_coin_trading.Depth.{PublicOrderBook}
use ai_coin_trading.Depth.Sweep.{VisibleDepthExecution, sweep_visible_depth}
use ai_coin_trading.Shadow.Book.{Events, recovery_intent}
use ai_coin_trading.Shadow.Counts.{count_rows-none, count_rows-end}
use ai_coin_trading.Shadow.Intents.{verdict, decision_row, order_row, record_order, record_intent}
use ai_coin_trading.Shadow.Ledger.{
  find_row, update_rows, count_rows, insert_exact, is_decision, is_pending_of, is_pending_order,
}
use ai_coin_trading.Shadow.Orders.{
  taker_order, completed, fill_order_row, resolve_order, resolve_pending,
}
use ai_coin_trading.Shadow.Passage.{Recovery}
use ai_coin_trading.Shadow.Pending.{settle_recovery-orders}
use ai_coin_trading.Shadow.Recorded.{record_intent-Recorded}
use ai_coin_trading.Shadow.Rows.{DecisionRow, OrderRow, Ledger}
use ai_coin_trading.Shadow.Same.{same_key, same_decision}
use ai_coin_trading.Shadow.Settle.{ShadowConfig, ShadowIntent, Work, key_of}
use ai_coin_trading.Shadow.Tables.{find_row-append, insert_exact_there, insert_exact_keeps}
use ai_coin_trading.Shadow.Types.{
  DecisionStatus, pending_order, BookKey, FillKey, done, from_depth, >>=-done,
}

module _ {F : Type 0} ⦃a : Arith F⦄ (config : ShadowConfig F) (run : String)
    (book : PublicOrderBook F) (wall : ℕ) where
  fill_order_row-orders :
      (o : OrderRow F) (d : DecisionRow F) (w w' : Work F) (res : Option BookKey)
      (fill : Option FillKey)
      → fill_order_row config run book wall o d w ≡ done (w', res, fill)
      → (e : VisibleDepthExecution F) × (w'.ledger.orders
          ≡ update_rows (is_pending_order o.order_key) (completed e wall) w.ledger.orders)
  unfolding fill_order_row
  fill_order_row-orders o d w w' res fill h =
      let (e, swept, after) =
        >>=-done
          (from_depth (sweep_visible_depth book (taker_order o d book) config.shadow_fee_rate)) _
          h in
      (e, ground arith)

  -- An order that is due at its own book is filled there.
  resolve_order_own :
      (o : OrderRow F) (d : DecisionRow F) (w : Work F)
      → o.order_key ≡ key_of run book
      → o.due_monotonic_ns ≡ book.received_monotonic_ns
      → resolve_order config run book wall o d w ≡ fill_order_row config run book wall o d w
  unfolding resolve_order
  resolve_order_own o d w own due =
      let capture =
        (eq_iff o.order_key.key_capture book.capture_id).1 (ap (λ k. k.key_capture) own) in
      let connection =
        (eq_iff o.order_key.key_connection book.connection_id).1 (ap (λ k. k.key_connection) own) in
      ground (arith, capture, connection, due)

  same_key_refl : (key : BookKey) → same_key key key ≡ true
  same_key_refl key =
      let run' = (eq_iff key.key_run key.key_run).1 refl in
      let capture = (eq_iff key.key_capture key.key_capture).1 refl in
      let connection = (eq_iff key.key_connection key.key_connection).1 refl in
      ground (arith, run', capture, connection)

  -- The decision of an intent is in the ledger after it, at the time of the book.
  pub record_intent_decides :
      (i : ShadowIntent F) (allow_recovery : Bool) (due : ℕ) (w : Work F) (l' : Ledger F)
      (status : DecisionStatus) (order : Option BookKey)
      → record_intent config run book i wall allow_recovery due w ≡ done (l', status, order)
      → (d : DecisionRow F) × (find_row (is_decision (key_of run book)) l'.decisions ≡ some d)
        × (d.decision_monotonic_ns ≡ book.received_monotonic_ns)
  unfolding record_intent record_order
  record_intent_decides i allow_recovery due w l' status order h =
      let rejection = verdict config run allow_recovery w.state w.ledger.orders i in
      let row = decision_row run book i rejection wall in
      let (decisions, inserted, rest) =
        >>=-done
          (insert_exact true (is_decision row.decision_key) (is_decision row.decision_key)
            (same_decision row) row w.ledger.decisions)
          _ h in
      let (d, there, alike) =
        insert_exact_there (is_decision row.decision_key) (same_decision row) row w.ledger.decisions
          decisions (same_key_refl row.decision_key) inserted in
      let same : l'.decisions ≡ decisions = ground arith in
      let time : d.decision_monotonic_ns ≡ book.received_monotonic_ns = elim alike [
        | inl own ↦ sym (ap (λ z. z.decision_monotonic_ns) own)
        | inr old ↦ ground (arith, old)
      ] in
      (d, ap (find_row (is_decision (key_of run book))) same ∙ there, time)

  -- The earlier decisions are still there.
  pub record_intent_keeps :
      (i : ShadowIntent F) (allow_recovery : Bool) (due : ℕ) (w : Work F) (l' : Ledger F)
      (status : DecisionStatus) (order : Option BookKey) (key : BookKey) (d : DecisionRow F)
      → record_intent config run book i wall allow_recovery due w ≡ done (l', status, order)
      → find_row (is_decision key) w.ledger.decisions ≡ some d
      → find_row (is_decision key) l'.decisions ≡ some d
  unfolding record_intent record_order
  record_intent_keeps i allow_recovery due w l' status order key d h there =
      let rejection = verdict config run allow_recovery w.state w.ledger.orders i in
      let row = decision_row run book i rejection wall in
      let (decisions, inserted, rest) =
        >>=-done
          (insert_exact true (is_decision row.decision_key) (is_decision row.decision_key)
            (same_decision row) row w.ledger.decisions)
          _ h in
      let same : l'.decisions ≡ decisions = ground arith in
      ap (find_row (is_decision key)) same
      ∙ insert_exact_keeps (is_decision key) (is_decision row.decision_key) (same_decision row) row
          d w.ledger.decisions decisions inserted there

  resolve_pending_idle :
      (w w' : Work F) (res : Option BookKey) (fill : Option FillKey)
      → find_row (is_pending_of run) w.ledger.orders ≡ none
      → resolve_pending config run book wall w ≡ done (w', res, fill)
      → w'.ledger.orders ≡ w.ledger.orders
  unfolding resolve_pending
  resolve_pending_idle w w' res fill idle h = ground (arith, idle)

  completed-idle :
      (e : VisibleDepthExecution F) (o : OrderRow F)
      → is_pending_of run (completed e wall o) ≡ false
  completed-idle e o = ground arith

  -- The only order that waits is over when it is due at its own book.
  resolve_pending_own :
      (o : OrderRow F) (d : DecisionRow F) (orders : List (OrderRow F)) (w w' : Work F)
      (res : Option BookKey) (fill : Option FillKey)
      → find_row (is_pending_of run) orders ≡ none
      → w.ledger.orders ≡ orders ++ o ∷ []
      → find_row (is_decision (key_of run book)) w.ledger.decisions ≡ some d
      → o.order_key ≡ key_of run book
      → o.due_monotonic_ns ≡ book.received_monotonic_ns
      → o.order_status ≡ pending_order
      → resolve_pending config run book wall w ≡ done (w', res, fill)
      → count_rows (is_pending_of run) w'.ledger.orders ≡ 0
  unfolding resolve_pending
  resolve_pending_own o d orders w w' res fill idle grown decided own due waits h =
      let mine = (eq_iff o.order_key.key_run run).1 (ap (λ k. k.key_run) own) in
      let pending : is_pending_of run o ≡ true = ground (arith, mine, waits) in
      let found =
        ap (find_row (is_pending_of run)) grown
        ∙ find_row-append (is_pending_of run) orders o idle pending in
      let known : find_row (is_decision o.order_key) w.ledger.decisions ≡ some d =
        ap (λ k. find_row (is_decision k) w.ledger.decisions) own ∙ decided in
      let fills : fill_order_row config run book wall o d w ≡ done (w', res, fill) =
        sym (resolve_order_own o d w own due) ∙ ground (arith, found, known) in
      let (e, after) = fill_order_row-orders o d w w' res fill fills in
      let hit : is_pending_order o.order_key o ≡ true =
        ground (arith, same_key_refl o.order_key, waits) in
      ap (count_rows (is_pending_of run))
        (after ∙ ap (update_rows (is_pending_order o.order_key) (completed e wall)) grown)
      ∙ count_rows-end (is_pending_order o.order_key) (is_pending_of run) (completed e wall) orders
          o (completed-idle e) hit idle

  -- If no order waits before a recovery, none waits after it.
  pub recover_idle :
      (w w' : Work F) (e : Events)
      → Recovery config run book wall w w' e
      → find_row (is_pending_of run) w.ledger.orders ≡ none
      → count_rows (is_pending_of run) w'.ledger.orders ≡ 0
  recover_idle w w' e r idle =
      let i = recovery_intent w.state in
      let w₁ : Work F = record w { ledger = r.recorded } in
      let (d, decided, _) =
        record_intent_decides i true book.received_monotonic_ns w r.recorded r.status r.order
          r.records in
      let (_, recorded) =
        record_intent-Recorded config run book i wall true book.received_monotonic_ns w r.recorded
          r.status r.order r.records in
      let over : count_rows (is_pending_of run) r.sold.ledger.orders ≡ 0 = elim recorded [
        | inl (_, same) ↦
            let still =
              resolve_pending_idle w₁ r.sold r.result e.filled
                (ap (find_row (is_pending_of run)) same ∙ idle) r.resolves in
            count_rows-none (is_pending_of run) r.sold.ledger.orders
              (ap (find_row (is_pending_of run)) (still ∙ same) ∙ idle)
        | inr (_, _, same) ↦
            resolve_pending_own (order_row run book i book.received_monotonic_ns wall) d
              w.ledger.orders w₁ r.sold r.result e.filled idle same decided refl refl refl
              r.resolves
      ] in
      let ends =
        ap (λ z. z.ledger.orders) r.settles ∙ settle_recovery-orders config run book r.sold in
      ap (count_rows (is_pending_of run)) ends ∙ over
