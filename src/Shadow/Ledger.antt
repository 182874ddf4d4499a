-- ===== src/Shadow/Ledger.antt =====
-- src/coinpilot/hft_shadow_store.py: the inserts and updates that the shadow engine makes.
use ai_coin_trading.Prelude.{
  ℕ, ◌+◌, String, Bool, not, ◌&&◌, Option, none, some, List, [], ◌∷◌, ◌++◌, str_eq, ◌==◌,
  if◌then◌else◌, is_some,
}
use ai_coin_trading.Arith.{Arith, ◌≤?◌, zero_f, one_f}
use ai_coin_trading.Shadow.Rows.{Notice, RunRow, ShadowState, DecisionRow, OrderRow, Ledger}
use ai_coin_trading.Shadow.Same.{is_pending, same_key, same_alert_key, same_float, same_notice}
use ai_coin_trading.Shadow.Types.{
  ◌>>=◌, Step, id_collision, refused, Lifecycle, HaltReason, TerminalReason, expired_order, BookKey,
  AlertKey, ignored_without_id, notice_collision, order_changed, check_failed, done,
}

unfoldable pub find_row : {R : Type 0} → (R → Bool) → List R → Option R
find_row test [] = none
find_row test (row ∷ rows) = if test row then some row else find_row test rows

unfoldable pub update_rows : {R : Type 0} → (R → Bool) → (R → R) → List R → List R
update_rows test change [] = []
update_rows test change (row ∷ rows) =
    (if test row then change row else row) ∷ update_rows test change rows

unfoldable pub count_rows : {R : Type 0} → (R → Bool) → List R → ℕ
count_rows test [] = 0
count_rows test (row ∷ rows) = (if test row then 1 else 0) + count_rows test rows

-- `insert_exact`: a row that violates no constraint is inserted; one that `INSERT OR IGNORE` has
-- ignored has to be there already, with the same data. `fits` is the table's CHECKs, and `conflicts`
-- its UNIQUE constraints, the id's among them.
unfoldable pub insert_exact :
    {R : Type 0} → Bool → (R → Bool) → (R → Bool) → (R → Bool) → R → List R → Step (List R)
insert_exact fits conflicts same_id same row rows =
    if fits && not (is_some (find_row conflicts rows))
    then done (rows ++ row ∷ [])
    else elim (find_row same_id rows) [
      | none ↦ refused ignored_without_id
      | some old ↦ if same old then done rows else refused id_collision
    ]

abbrev pub is_run : String → RunRow → Bool
is_run run r = str_eq r.run_id run

abbrev with_run_status : Lifecycle → Option HaltReason → RunRow → RunRow
with_run_status status why r = record r { run_status = status; run_halt_reason = why }

module _ {F : Type 0} ⦃a : Arith F⦄ where
  abbrev is_notice : AlertKey → Notice F → Bool
  is_notice key n = same_alert_key key n.alert_key

  -- `enqueue_notification`, within a transaction.
  unfoldable pub enqueue_notification : Notice F → List (Notice F) → Step (List (Notice F))
  enqueue_notification notice rows = elim (find_row (is_notice notice.alert_key) rows) [
    | none ↦ done (rows ++ notice ∷ [])
    | some old ↦ if same_notice old notice then done rows else refused notice_collision
  ]

  abbrev pub is_state_of : String → ShadowState F → Bool
  is_state_of run s = str_eq s.state_run run

  abbrev pub is_decision : BookKey → DecisionRow F → Bool
  is_decision key d = same_key d.decision_key key

  abbrev pub is_pending_of : String → OrderRow F → Bool
  is_pending_of run o = str_eq o.order_key.key_run run && is_pending o.order_status

  abbrev pub is_order : BookKey → OrderRow F → Bool
  is_order key o = same_key o.order_key key

  abbrev pub expired : TerminalReason → ℕ → OrderRow F → OrderRow F
  expired why completed o = record o {
    order_status = expired_order;
    terminal_reason = some why;
    order_completed = some completed;
  }

  -- `_expire_pending`, with its row count.
  unfoldable pub expire_pending :
      String → TerminalReason → ℕ → List (OrderRow F) → List (OrderRow F) × ℕ
  expire_pending run why completed orders = (
    update_rows (is_pending_of run) (expired why completed) orders,
    count_rows (is_pending_of run) orders,
  )

  -- `WHERE order_id = ? AND status = 'pending'`
  abbrev pub is_pending_order : BookKey → OrderRow F → Bool
  is_pending_order key o = is_order key o && is_pending o.order_status

  -- `_expire_order`
  unfoldable pub expire_order :
      BookKey → TerminalReason → ℕ → List (OrderRow F) → Step (List (OrderRow F))
  expire_order key why completed orders =
      if count_rows (is_pending_order key) orders == 1
      then done (update_rows (is_pending_order key) (expired why completed) orders)
      else refused order_changed

  unfoldable pub set_run : String → Lifecycle → Option HaltReason → Ledger F → Ledger F
  set_run run status why l = record l {
    runs = update_rows (is_run run) (with_run_status status why) l.runs;
  }

  abbrev pub alert : Notice F → Ledger F → Step (Ledger F)
  alert notice l =
      enqueue_notification notice l.outbox >>= λ outbox. done (record l { outbox = outbox })

  -- The CHECKs of `shadow_state`; a NaN is stored as a NULL, which NOT NULL refuses.
  unfoldable pub state_fits : ShadowState F → Bool
  state_fits s =
      (zero_f ≤? s.cash_quote)
      && (zero_f ≤? s.base_quantity)
      && (zero_f ≤? s.average_cost_quote)
      && same_float s.realized_pnl_quote s.realized_pnl_quote
      && (zero_f ≤? s.cumulative_fees_quote)
      && (zero_f ≤? s.last_equity_quote)
      && (zero_f ≤? s.peak_equity_quote)
      && (zero_f ≤? s.max_drawdown)
      && (s.max_drawdown ≤? one_f)

  -- `UPDATE shadow_state`, with all columns of the dict.
  unfoldable pub save_state : ShadowState F → Ledger F → Step (Ledger F)
  save_state s l =
      if state_fits s
      then done (record l { states = update_rows (is_state_of s.state_run) (λ _. s) l.states })
      else refused check_failed
