-- ===== src/Shadow/Trades.antt =====
-- src/coinpilot/hft_shadow.py: which order `process_book` fills, and when.
use mathlib.Core.Path.{subst}
use ai_coin_trading.Prelude.{
  ◌+◌, ◌≤◌, String, ◌≡◌, sym, ◌∙◌, ◌⊎◌, inl, inr, true, false, Option, none, some, arith, eq_iff,
  Option-cases,
}
use ai_coin_trading.Arith.{Arith}
use ai_coin_trading.Depth.{PublicOrderBook}
use ai_coin_trading.Shadow.Book.{ShadowStepResult, is_automatic}
use ai_coin_trading.Shadow.Engine.{process_book}
use ai_coin_trading.Shadow.Feed.{event_wall_ns, continuity_of}
use ai_coin_trading.Shadow.Fills.{IsDue}
use ai_coin_trading.Shadow.Ledger.{find_row, is_state_of, is_decision}
use ai_coin_trading.Shadow.Processed.{process_book-Processed}
use ai_coin_trading.Shadow.Rows.{ShadowState, DecisionRow, OrderRow, Ledger}
use ai_coin_trading.Shadow.Served.{Served, Applied-Served, apply_intent-filled, close_book-filled}
use ai_coin_trading.Shadow.Settle.{ShadowConfig, ShadowIntent, key_of}
use ai_coin_trading.Shadow.Tables.{Within}
use ai_coin_trading.Shadow.Timely.{IsTimed, process_book-IsTimed}
use ai_coin_trading.Shadow.Types.{halted_recovery, FillKey, done}
use ai_coin_trading.Shadow.Waiting.{HasSoundOrders}

module _ {F : Type 0} ⦃a : Arith F⦄ (config : ShadowConfig F) (run : String)
    (book : PublicOrderBook F) where
  -- The order has waited in the ledger since its decision, and the latency has passed.
  pub record HasWaited (l : Ledger F) (o : OrderRow F) : Type 0 where
    within : Within o l.orders
    decision : DecisionRow F
    decided : find_row (is_decision o.order_key) l.decisions ≡ some decision
    latency : decision.decision_monotonic_ns + config.shadow_latency_ns ≤ book.received_monotonic_ns

  -- The sale that recovers the account `s`: decided and due at this book.
  pub record IsRecoverySale (s : ShadowState F) (o : OrderRow F) : Type 0 where
    halted : s.lifecycle_status ≡ halted_recovery
    automatic : is_automatic s.halt_reason ≡ true
    key : o.order_key ≡ key_of run book
    at_once : o.due_monotonic_ns ≡ book.received_monotonic_ns

  -- The fill `f` of this book, on the ledger before it.
  pub record IsFilled (l : Ledger F) (f : FillKey) : Type 0 where
    account : ShadowState F
    found : find_row (is_state_of run) l.states ≡ some account
    goes : continuity_of account book ≡ none
    order : OrderRow F
    named : f.fill_order ≡ order.order_key
    own : order.order_key.key_run ≡ run
    due : IsDue config book order
    origin : HasWaited l order ⊎ IsRecoverySale account order

  Served-IsFilled :
      (l : Ledger F) (s : ShadowState F) (f : FillKey)
      → IsTimed config run l
      → find_row (is_state_of run) l.states ≡ some s
      → continuity_of s book ≡ none
      → Served config run book l s f
      → IsFilled l f
  Served-IsFilled l s f t found goes served = record {
    account = s;
    found = found;
    goes = goes;
    order = served.order;
    named = served.named;
    own = served.own;
    due = served.due;
    origin = elim served.placed [
      | inl within ↦
          let mine = (eq_iff served.order.order_key.key_run run).1 served.own in
          let time = t.timed served.order within (ground (arith, mine, served.due.waiting)) in
          inl (record {
            within = within;
            decision = time.decision;
            decided = time.decided;
            latency = subst (λ z. z ≤ book.received_monotonic_ns) time.latency served.due.due;
          })
      | inr (halted, automatic, key, at_once) ↦
          inr (record { halted = halted; automatic = automatic; key = key; at_once = at_once })
    ];
  }

  new_fill :
      (intent : Option (ShadowIntent F)) (l l' : Ledger F) (r : ShadowStepResult F) (f : FillKey)
      → IsTimed config run l
      → process_book config run book intent l ≡ done (l', r)
      → r.duplicate_event ≡ false
      → r.fill_id ≡ some f
      → IsFilled l f
  new_fill intent l l' r f t h new fills =
      let p = process_book-Processed config run book intent l l' r h new in
      let closed =
        close_book-filled config run book (event_wall_ns book) (continuity_of p.before book)
          p.intended l' r p.closes in
      let kept =
        apply_intent-filled config run book p.intent (event_wall_ns book) (p.worked, p.events)
          p.intended p.intends in
      let (goes, served) =
        Applied-Served config run book (event_wall_ns book)
          (record { ledger = l; state = p.before }) p.worked p.events f p.applied
          (sym kept.0 ∙ sym closed ∙ fills) in
      Served-IsFilled l p.before f t p.found goes served

  -- Let the run have at most one order that waits, and none while its account does not trade, and let
  -- each order that waits be due when the latency has passed since its decision in the ledger. After
  -- a new book that `process_book` takes, each order that waits is again due when the latency has
  -- passed since its decision; and if the book has filled an order, it continues the feed, the order
  -- was made on its capture and connection and has not waited for longer than the gap allows since it
  -- was due, and either the order waited in the ledger and the latency has passed since its decision,
  -- or it is the sale with which this book recovers an account that a break or a restart has halted.
  pub process_book_fills :
      (intent : Option (ShadowIntent F)) (l l' : Ledger F) (r : ShadowStepResult F)
      → HasSoundOrders run l
      → IsTimed config run l
      → process_book config run book intent l ≡ done (l', r)
      → r.duplicate_event ≡ false
      → IsTimed config run l'
        × ((r.fill_id ≡ none) ⊎ ((f : FillKey) × (r.fill_id ≡ some f) × IsFilled l f))
  process_book_fills intent l l' r sound t h new = (
    process_book-IsTimed config run book intent l l' r sound t h new,
    elim (Option-cases r.fill_id) [
      | inl unfilled ↦ inl unfilled
      | inr (f, fills) ↦ inr (f, fills, new_fill intent l l' r f t h new fills)
    ],
  )
