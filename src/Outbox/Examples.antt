-- ===== src/Outbox/Examples.antt =====
-- Runs of the outbox on a table of two notifications, and the theorems about it at these runs.
use ai_coin_trading.Prelude.{
  ℕ, String, ◌≡◌, refl, ◌≢◌, inl, false, none, List, [], ◌∷◌, arith, eq_iff,
}
use ai_coin_trading.Outbox.{
  pending, warning, Notification, lease_absent, written, refused, ready_rows, insert_by_time,
  by_time, limit_rows, has_id, leased, lease_rows, rows_among, select_ready, claim_notifications,
  find_held, update_held, update_named, as_delivered, mark_notification_delivered, as_failed,
  record_notification_failure,
}
use ai_coin_trading.Outbox.Ids.{any_ready}
use ai_coin_trading.Outbox.Leases.{claim_notifications_exclusive, claim_notifications_fences}
use ai_coin_trading.Outbox.Retries.{
  mark_delivered_final, record_failure_waits, record_failure_gives_up,
}
use ai_coin_trading.Outbox.Text.{required_text}

abbrev alert : String → ℕ → Notification
alert id created = record {
  notification_id = id;
  run_id = none;
  alert_key = id;
  topic = "shadow";
  severity = warning;
  payload_json = "{}";
  status = pending;
  attempt_count = 0;
  available_wall_ns = created;
  lease_owner = none;
  lease_expires_wall_ns = none;
  created_wall_ns = created;
  delivered_wall_ns = none;
  last_error = none;
}

-- The newer row comes first in the table.
abbrev table : List Notification
table = alert "n2" 20 ∷ alert "n1" 10 ∷ []

abbrev redact : String → String
redact error = error

abbrev outbox_runs : ℕ
unfolding claim_notifications select_ready ready_rows by_time insert_by_time limit_rows lease_rows
    rows_among has_id required_text find_held update_held update_named mark_notification_delivered
    record_notification_failure any_ready
outbox_runs = 0

abbrev claimed_table : List Notification
claimed_table = alert "n2" 20 ∷ leased "mailer" 130 (alert "n1" 10) ∷ []

abbrev claimed_rows : List Notification
claimed_rows = leased "mailer" 130 (alert "n1" 10) ∷ []

first_claim : claim_notifications " mailer" 100 30 1 table ≡ written (claimed_table, claimed_rows)
unfolding outbox_runs
first_claim = refl

abbrev other_rows : List Notification
other_rows = leased "second" 150 (alert "n2" 20) ∷ []

claim_notifications_exclusive_example : has_id "n1" other_rows ≡ false
unfolding outbox_runs
claim_notifications_exclusive_example =
    claim_notifications_exclusive "n1" " mailer" "mailer" "second" "second" 100 30 1 120 30 5 table
      claimed_table claimed_rows
      (leased "second" 150 (alert "n2" 20) ∷ leased "mailer" 130 (alert "n1" 10) ∷ []) other_rows
      refl first_claim refl (omega arith) refl refl

mailer_differs : ◌≢◌ {A = String} "mailer" "second"
mailer_differs = λ same. ground (arith, (eq_iff "mailer" "second").1 same)

claim_notifications_fences_example :
    (mark_notification_delivered "n1" "second" 140 claimed_table ≡ refused lease_absent)
    × (record_notification_failure redact "n1" "second" 140 150 "late" 3 claimed_table
        ≡ refused lease_absent)
unfolding outbox_runs
claim_notifications_fences_example =
    claim_notifications_fences redact "n1" " mailer" "mailer" "second" "second" "late" 100 30 1 140
      140 150 3 table claimed_table claimed_rows refl first_claim refl refl refl mailer_differs
      (omega arith)

abbrev delivered_table : List Notification
delivered_table = alert "n2" 20 ∷ as_delivered 110 (leased "mailer" 130 (alert "n1" 10)) ∷ []

mark_delivered_final_example : has_id "n1" other_rows ≡ false
unfolding outbox_runs
mark_delivered_final_example =
    mark_delivered_final "n1" "n1" "mailer" "mailer" claimed_table delivered_table refl refl
      (refl, (refl, tt)) 110 120 30 5 "second" "second"
      (leased "second" 150 (alert "n2" 20)
        ∷ as_delivered 110 (leased "mailer" 130 (alert "n1" 10))
        ∷ [])
      other_rows refl refl refl

abbrev failed_table : ℕ → List Notification
failed_table max_attempts =
    alert "n2" 20
    ∷ as_failed 110 140 max_attempts "refused" 1 (leased "mailer" 130 (alert "n1" 10))
    ∷ []

record_failure_waits_example : has_id "n1" other_rows ≡ false
unfolding outbox_runs
record_failure_waits_example =
    record_failure_waits redact "n1" "mailer" 110 140 3 120 30 5 "refused" "second" "second"
      claimed_table (failed_table 3)
      (leased "second" 150 (alert "n2" 20)
        ∷ as_failed 110 140 3 "refused" 1 (leased "mailer" 130 (alert "n1" 10))
        ∷ [])
      other_rows refl (inl (omega arith)) refl refl

record_failure_gives_up_example : has_id "n1" other_rows ≡ false
unfolding outbox_runs
record_failure_gives_up_example =
    record_failure_gives_up redact "n1" "mailer" "mailer" (leased "mailer" 130 (alert "n1" 10)) 110
      115 1 120 30 5 "refused" "second" "second" claimed_table
      (alert "n2" 20 ∷ as_failed 110 115 1 "refused" 1 (leased "mailer" 130 (alert "n1" 10)) ∷ [])
      (leased "second" 150 (alert "n2" 20)
        ∷ as_failed 110 115 1 "refused" 1 (leased "mailer" 130 (alert "n1" 10))
        ∷ [])
      other_rows refl refl refl (omega arith) refl refl refl
