-- ===== src/Shadow/Control.antt =====
-- src/coinpilot/hft_shadow.py: `halt`. hft_shadow_store.py: `stop_run`.
use ai_coin_trading.Prelude.{
  ℕ, ◌+◌, String, Bool, true, false, Option, none, some, ltb, if◌then◌else◌, is_some,
}
use ai_coin_trading.Arith.{Arith}
use ai_coin_trading.Outbox.{info, critical, required_text}
use ai_coin_trading.Shadow.Ledger.{
  find_row, update_rows, is_run, is_state_of, expired, expire_pending, set_run, alert,
}
use ai_coin_trading.Shadow.Rows.{Notice, RunRow, ShadowState, halt_payload, stop_payload, Ledger}
use ai_coin_trading.Shadow.Types.{
  ◌>>=◌, Step, refused, ◌>>◌, Lifecycle, halted_recovery, stopped, HaltReason,
  restart_fingerprint_changed, external_halt, graceful, graceful_stop, halt_expiry, halt_alert,
  stop_alert, state_disappeared, blank_text, bad_time, done, ensure,
}

-- A halt that no restart lifts.
abbrev pub is_latched : Option HaltReason → Bool
is_latched (some (external_halt r)) = true
is_latched (some restart_fingerprint_changed) = true
is_latched _ = false

abbrev pub stripped_text : String → Step String
stripped_text t = elim (required_text t) [ none ↦ refused blank_text | some t' ↦ done t' ]

abbrev pub ended : ℕ → HaltReason → RunRow → RunRow
ended wall why r = record r {
  run_status = stopped;
  ended_wall_ns = some wall;
  run_halt_reason = some why;
}

abbrev pub kept_reason : Option HaltReason → String → HaltReason
kept_reason (some why) reason = if is_latched (some why) then why else graceful reason
kept_reason none reason = graceful reason

module _ {F : Type 0} ⦃a : Arith F⦄ where
  abbrev halt_notice : String → String → ℕ → ℕ → Notice F
  halt_notice run reason expired wall = record {
    alert_key = halt_alert run reason;
    notice_run = run;
    severity = critical;
    payload = halt_payload reason expired;
    created_wall_ns = wall;
  }

  -- A status with its reason, as `halt` and `stop_run` write it to the account.
  abbrev pub with_status : Lifecycle → HaltReason → ℕ → ShadowState F → ShadowState F
  with_status status why wall s = record s {
    lifecycle_status = status;
    revision = s.revision + 1;
    halt_reason = some why;
    updated_wall_ns = wall;
  }

  unfoldable pub halt : String → String → ℕ → Ledger F → Step (Ledger F × ℕ)
  halt run reason observed l = do
    reason' ← stripped_text reason
    ensure (ltb 0 observed) bad_time
    ensure (is_some (find_row (is_state_of run) l.states)) state_disappeared
    let (orders, expired) = expire_pending run (halt_expiry reason') observed l.orders
    let why = external_halt reason'
    let l₁ = set_run run halted_recovery (some why) (record l { orders = orders })
    let states = update_rows (is_state_of run) (with_status halted_recovery why observed) l₁.states
    l₂ ← alert (halt_notice run reason' expired observed) (record l₁ { states = states })
    done (l₂, expired)

  abbrev stop_notice : String → String → ℕ → ℕ → Notice F
  stop_notice run reason expired wall = record {
    alert_key = stop_alert run wall;
    notice_run = run;
    severity = info;
    payload = stop_payload reason expired;
    created_wall_ns = wall;
  }

  unfoldable pub stop_run : String → String → ℕ → Ledger F → Step (Ledger F × ℕ)
  stop_run run reason wall l = do
    reason' ← stripped_text reason
    ensure (ltb 0 wall) bad_time
    elim (find_row (is_state_of run) l.states) [
      | none ↦ refused state_disappeared
      | some s ↦ do
        let (orders, expired) = expire_pending run graceful_stop wall l.orders
        let why = kept_reason s.halt_reason reason'
        l' ← alert (stop_notice run reason' expired wall) (record l {
          orders = orders;
          runs = update_rows (is_run run) (ended wall why) l.runs;
          states = update_rows (is_state_of run) (with_status stopped why wall) l.states;
        })
        done (l', expired)
    ]
