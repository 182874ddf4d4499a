-- ===== src/Shadow/Predecessor.antt =====
-- src/coinpilot/hft_shadow_store.py, `start_run`: the last run of the market, its end, and what a new
-- run takes over from it.
use ai_coin_trading.Prelude.{
  ℕ, String, Bool, true, false, not, ◌&&◌, ◌||◌, Option, none, some, List, [], ◌∷◌, str_eq, ltb,
  if◌then◌else◌, is_some,
}
use ai_coin_trading.Arith.{Arith, ◌<?◌, zero_f}
use ai_coin_trading.Shadow.Control.{is_latched, with_status}
use ai_coin_trading.Shadow.Ledger.{find_row, update_rows, is_run, is_state_of, expire_pending}
use ai_coin_trading.Shadow.Rows.{RunRow, ShadowState, Ledger}
use ai_coin_trading.Shadow.Types.{
  Lifecycle, warmup, running, halted_recovery, stopped, interrupted, HaltReason,
  restart_with_open_position, restart_fingerprint_changed, process_restart, restart_expiry,
}

-- The arguments of `start_run`, the config as its canonical JSON text. `upper` is `str.upper`.
pub record StartRequest (F : Type 0) : Type 0 where
  pub upper : String → String
  pub new_run : String
  pub new_market : String
  pub initial_cash : F
  pub new_config_json : String
  pub new_config_hash : String
  pub new_code_version : String
  pub started_at : ℕ
  pub start_epsilon : F

-- ACTIVE_RUN_STATUSES
abbrev pub is_active_run : Lifecycle → Bool
is_active_run warmup = true
is_active_run running = true
is_active_run halted_recovery = true
is_active_run _ = false

-- RECOVERABLE_RUN_STATUSES
abbrev is_recoverable : Lifecycle → Bool
is_recoverable interrupted = false
is_recoverable _ = true

abbrev pub is_predecessor : String → RunRow → Bool
is_predecessor market r = str_eq r.run_market market && is_recoverable r.run_status

abbrev interrupted_by : ℕ → RunRow → RunRow
interrupted_by wall r = record r {
  run_status = interrupted;
  ended_wall_ns = some wall;
  run_halt_reason = some process_restart;
}

module _ {F : Type 0} ⦃a : Arith F⦄ where
  -- The last run of the market, joined with its account. SQLite leaves open which of two runs that
  -- started at once it takes; here it is the first.
  unfoldable pub find_predecessor :
      String → List (ShadowState F) → List RunRow → Option (RunRow × ShadowState F)
  find_predecessor market states [] = none
  find_predecessor market states (r ∷ runs) =
      let rest = find_predecessor market states runs in
      if is_predecessor market r
      then elim (find_row (is_state_of r.run_id) states) [
        | none ↦ rest
        | some s ↦ elim rest [
          | none ↦ some (r, s)
          | some later ↦
              if ltb r.started_wall_ns later.0.started_wall_ns then some later else some (r, s)
        ]
      ]
      else rest

  abbrev pub fresh_state : StartRequest F → String → ShadowState F
  fresh_state q run = record {
    state_run = run;
    revision = 1;
    lifecycle_status = warmup;
    cash_quote = q.initial_cash;
    base_quantity = zero_f;
    average_cost_quote = zero_f;
    realized_pnl_quote = zero_f;
    cumulative_fees_quote = zero_f;
    last_equity_quote = q.initial_cash;
    peak_equity_quote = q.initial_cash;
    max_drawdown = zero_f;
    warmup_books_seen = 0;
    last_capture_id = none;
    last_connection_id = none;
    last_book_ordinal = none;
    last_book_monotonic_ns = none;
    last_book_wall_ns = none;
    halt_reason = none;
    updated_wall_ns = q.started_at;
  }

  -- Why the new run is halted at its start, if it is.
  unfoldable pub start_halt :
      StartRequest F → String → String → RunRow → ShadowState F → Option HaltReason
  start_halt q hash code r s =
      if is_latched s.halt_reason
      then s.halt_reason
      else if not (str_eq r.config_hash hash) || not (str_eq r.code_version code)
      then some restart_fingerprint_changed
      else if q.start_epsilon <? s.base_quantity
      then some restart_with_open_position
      else none

  -- The account of a new run, with the money and the position of the last one.
  abbrev pub carried_state :
      StartRequest F → String → Option HaltReason → ShadowState F → ShadowState F
  carried_state q run why s = record s {
    state_run = run;
    revision = 1;
    lifecycle_status = if is_some why then halted_recovery else warmup;
    warmup_books_seen = 0;
    last_capture_id = none;
    last_connection_id = none;
    last_book_ordinal = none;
    last_book_monotonic_ns = none;
    last_book_wall_ns = none;
    halt_reason = why;
    updated_wall_ns = q.started_at;
  }

  -- The end of the last run: its orders expire, and what was active is interrupted.
  unfoldable pub end_predecessor : ℕ → RunRow → Ledger F → Ledger F
  end_predecessor wall r l =
      let orders = (expire_pending r.run_id restart_expiry wall l.orders).0 in
      if is_active_run r.run_status
      then record l {
        orders = orders;
        runs = update_rows (is_run r.run_id) (interrupted_by wall) l.runs;
        states =
            update_rows (is_state_of r.run_id) (with_status stopped process_restart wall) l.states;
      }
      else record l { orders = orders }
