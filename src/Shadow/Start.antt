-- ===== src/Shadow/Start.antt =====
-- src/coinpilot/hft_shadow_store.py: `start_run`.
use ai_coin_trading.Prelude.{
  ℕ, String, Bool, true, false, not, ◌&&◌, Option, none, some, [], ◌∷◌, ◌++◌, str_eq, ltb,
  if◌then◌else◌, is_some,
}
use ai_coin_trading.Arith.{Arith, ◌<?◌, zero_f}
use ai_coin_trading.Outbox.{info, warning, critical}
use ai_coin_trading.Shadow.Control.{stripped_text}
use ai_coin_trading.Shadow.Ledger.{
  find_row, count_rows, is_run, is_state_of, is_pending_of, alert, state_fits,
}
use ai_coin_trading.Shadow.Predecessor.{
  StartRequest, find_predecessor, fresh_state, start_halt, carried_state, end_predecessor,
}
use ai_coin_trading.Shadow.Rows.{
  Notice, RunRow, ShadowState, start_payload, restart_payload, Ledger,
}
use ai_coin_trading.Shadow.Same.{same_lifecycle}
use ai_coin_trading.Shadow.Types.{
  ◌>>=◌, Step, refused, ◌>>◌, Lifecycle, halted_recovery, start_alert, recovery_alert, check_failed,
  bad_time, different_run, existing_without_state, bad_cash, done, ensure,
}

pub record ShadowRunStart : Type 0 where
  pub start_run_id : String
  pub start_lifecycle : Lifecycle
  pub restarted_from : Option String
  pub expired_orders : ℕ
  pub already_started : Bool

abbrev same_run_data : RunRow → RunRow → Bool
same_run_data x y =
    str_eq x.run_market y.run_market
    && str_eq x.config_hash y.config_hash
    && str_eq x.config_json y.config_json
    && str_eq x.code_version y.code_version

module _ {F : Type 0} ⦃a : Arith F⦄ where
  abbrev pub new_run_row :
      StartRequest F → String → String → String → String → Option String → ShadowState F → RunRow
  new_run_row q run market hash code restart_of s = record {
    run_id = run;
    run_market = market;
    run_status = s.lifecycle_status;
    started_wall_ns = q.started_at;
    ended_wall_ns = none;
    restart_of_run_id = restart_of;
    config_hash = hash;
    config_json = q.new_config_json;
    code_version = code;
    run_halt_reason = s.halt_reason;
  }

  abbrev start_notice : RunRow → ℕ → Notice F
  start_notice r count = record {
    alert_key = start_alert r.run_id;
    notice_run = r.run_id;
    severity = if same_lifecycle r.run_status halted_recovery then critical else info;
    payload = start_payload r.run_market r.run_status r.restart_of_run_id count;
    created_wall_ns = r.started_wall_ns;
  }

  abbrev restart_notice : RunRow → String → ℕ → F → Notice F
  restart_notice r previous count base = record {
    alert_key = recovery_alert r.run_id previous;
    notice_run = r.run_id;
    severity = if same_lifecycle r.run_status halted_recovery then critical else warning;
    payload = restart_payload previous count base r.run_status;
    created_wall_ns = r.started_wall_ns;
  }

  abbrev notify_restart : RunRow → ℕ → F → Ledger F → Step (Ledger F)
  notify_restart r count base l = elim r.restart_of_run_id [
    | none ↦ done l
    | some previous ↦ alert (restart_notice r previous count base) l
  ]

  -- The rows of the new run, with the alerts.
  unfoldable pub insert_run :
      RunRow → ShadowState F → ℕ → Ledger F → Step (Ledger F × ShadowRunStart)
  insert_run r s count l = do
    ensure (state_fits s && not (is_some (find_row (is_state_of s.state_run) l.states)))
        check_failed
    l₁ ←
        alert (start_notice r count)
          (record l { runs = l.runs ++ r ∷ []; states = l.states ++ s ∷ [] })
    l₂ ← notify_restart r count s.base_quantity l₁
    done (
      l₂,
      record {
        start_run_id = r.run_id;
        start_lifecycle = r.run_status;
        restarted_from = r.restart_of_run_id;
        expired_orders = count;
        already_started = false;
      },
    )

  unfoldable pub start_existing :
      String → RunRow → RunRow → Ledger F → Step (Ledger F × ShadowRunStart)
  start_existing run r asked l =
      if not (same_run_data r asked)
      then refused different_run
      else elim (find_row (is_state_of run) l.states) [
        | none ↦ refused existing_without_state
        | some s ↦ done (
          l,
          record {
            start_run_id = run;
            start_lifecycle = s.lifecycle_status;
            restarted_from = none;
            expired_orders = 0;
            already_started = true;
          },
        )
      ]

  unfoldable pub start_new :
      StartRequest F
      → String
      → String
      → String
      → String
      → Ledger F
      → Step (Ledger F × ShadowRunStart)
  start_new q run market hash code l = elim (find_predecessor market l.states l.runs) [
    | none ↦
        let s = fresh_state q run in insert_run (new_run_row q run market hash code none s) s 0 l
    | some (r, old) ↦
        let s = carried_state q run (start_halt q hash code r old) old in
        insert_run (new_run_row q run market hash code (some r.run_id) s) s
          (count_rows (is_pending_of r.run_id) l.orders) (end_predecessor q.started_at r l)
  ]

  unfoldable pub start_run : StartRequest F → Ledger F → Step (Ledger F × ShadowRunStart)
  start_run q l = do
    run ← stripped_text q.new_run
    market' ← stripped_text q.new_market
    ensure (a.finite q.initial_cash && (zero_f <? q.initial_cash)) bad_cash
    ensure (ltb 0 q.started_at) bad_time
    hash ← stripped_text q.new_config_hash
    code ← stripped_text q.new_code_version
    let market = q.upper market'
    elim (find_row (is_run run) l.runs) [
      | some r ↦
          start_existing run r (new_run_row q run market hash code none (fresh_state q run)) l
      | none ↦ start_new q run market hash code l
    ]
