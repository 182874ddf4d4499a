-- ===== src/Shadow/Health.antt =====
-- src/coinpilot/hft_shadow_store.py: `update_heartbeat`. hft_shadow.py: `record_health`.
use ai_coin_trading.Prelude.{
  ℕ, String, Bool, true, not, ◌&&◌, Option, none, some, str_eq, ltb, if◌then◌else◌,
}
use ai_coin_trading.Arith.{Arith}
use ai_coin_trading.Outbox.{warning, critical}
use ai_coin_trading.Shadow.Control.{stripped_text}
use ai_coin_trading.Shadow.Ledger.{alert}
use ai_coin_trading.Shadow.Rows.{Notice, given_details, HealthRow, health_payload, Ledger}
use ai_coin_trading.Shadow.Same.{same_health_status}
use ai_coin_trading.Shadow.Sampling.{insert_health}
use ai_coin_trading.Shadow.Types.{
  ◌>>=◌, Step, ◌>>◌, HealthStatus, healthy, unhealthy, HealthKey, keyed_health, timed_health,
  health_alert, bad_time, done, ensure,
}

-- `event_key or observed_wall_ns`
abbrev heartbeat_key : String → String → Option String → ℕ → HealthKey
heartbeat_key run component none observed = timed_health run component observed
heartbeat_key run component (some event) observed =
    if str_eq event ""
    then timed_health run component observed
    else keyed_health run component event

abbrev heartbeat_row : String → String → HealthStatus → ℕ → String → Option String → HealthRow
heartbeat_row run component status observed details event = record {
  health_key = heartbeat_key run component event observed;
  health_run = run;
  health_component = component;
  health_status = status;
  observed_wall_ns = observed;
  details = given_details details;
}

module _ {F : Type 0} ⦃a : Arith F⦄ where
  abbrev health_notice : HealthRow → Notice F
  health_notice row = record {
    alert_key = health_alert row.health_key;
    notice_run = row.health_run;
    severity = if same_health_status row.health_status unhealthy then critical else warning;
    payload = health_payload row;
    created_wall_ns = row.observed_wall_ns;
  }

  -- The row of a heartbeat, with its alert.
  unfoldable pub write_heartbeat : HealthRow → Bool → Ledger F → Step (Ledger F × HealthKey)
  write_heartbeat row alerts l = do
    health ← insert_health row l.health
    let l₁ = record l { health = health }
    l₂ ←
        (if alerts && not (same_health_status row.health_status healthy)
          then alert (health_notice row) l₁
          else done l₁)
    done (l₂, row.health_key)

  -- The status is one of its constructors, and the details are their canonical JSON text.
  unfoldable pub update_heartbeat :
      String
      → String
      → HealthStatus
      → ℕ
      → String
      → Option String
      → Bool
      → Ledger F
      → Step (Ledger F × HealthKey)
  update_heartbeat run component status observed details event alerts l = do
    run' ← stripped_text run
    component' ← stripped_text component
    ensure (ltb 0 observed) bad_time
    write_heartbeat (heartbeat_row run' component' status observed details event) alerts l

  -- The run is the engine's own.
  unfoldable pub record_health :
      String
      → String
      → HealthStatus
      → ℕ
      → String
      → Option String
      → Ledger F
      → Step (Ledger F × HealthKey)
  record_health run component status observed details event l = do
    component' ← stripped_text component
    ensure (ltb 0 observed) bad_time
    write_heartbeat (heartbeat_row run component' status observed details event) true l
