-- ===== src/Outbox/Leases.antt =====
-- src/coinpilot/hft_shadow_store.py: the leases that `claim_notifications` leaves in the table, for
-- the claim that comes next and for the reports of the workers.
use mathlib.Core.Path.{subst}
use ai_coin_trading.Prelude.{
  ℕ, ◌+◌, ◌<◌, String, ◌≡◌, refl, sym, ap, ◌∙◌, ◌≢◌, inl, inr, true, false, none, some, List, [],
  ◌∷◌, arith, eq_iff, Bool-cases,
}
use ai_coin_trading.Outbox.{
  sending, Notification, lease_absent, written, refused, insert_by_time, by_time, has_id,
  lease_rows, rows_among, select_ready, claim_notifications, find_held, mark_notification_delivered,
  record_notification_failure,
}
use ai_coin_trading.Outbox.Ids.{
  any_ready, has_id-by_time, has_id-rows_among, select_ready-any_ready,
}
use ai_coin_trading.Outbox.Text.{required_text}

leased_not_ready :
    (id worker : String) (expires now : ℕ) (selected rows : List Notification)
    → has_id id selected ≡ true
    → now < expires
    → any_ready now id (lease_rows selected worker expires rows) ≡ false
unfolding any_ready lease_rows
leased_not_ready id worker expires now selected [] h early = refl
leased_not_ready id worker expires now selected (n ∷ rows) h early = ground (
  arith,
  leased_not_ready id worker expires now selected rows h early,
  eq_iff n.notification_id id,
)

find_held-lease_rows_ne :
    (id worker other : String) (expires : ℕ) (selected rows : List Notification)
    → has_id id selected ≡ true
    → worker ≢ other
    → find_held id other (lease_rows selected worker expires rows) ≡ none
unfolding find_held lease_rows
find_held-lease_rows_ne id worker other expires selected [] h ne = refl
find_held-lease_rows_ne id worker other expires selected (n ∷ rows) h ne = ground (
  arith,
  find_held-lease_rows_ne id worker other expires selected rows h ne,
  eq_iff n.notification_id id,
  eq_iff worker other,
)

-- Every row is leased to this worker until this time.
abbrev pub AllLeased : String → ℕ → List Notification → Type 0
AllLeased worker expires [] = Unit
AllLeased worker expires (n ∷ rows) =
    (n.status ≡ sending)
    × (n.lease_owner ≡ some worker)
    × (n.lease_expires_wall_ns ≡ some expires)
    × AllLeased worker expires rows

insert_by_time-AllLeased :
    (worker : String) (expires : ℕ) (n : Notification) (rows : List Notification)
    → AllLeased worker expires (n ∷ [])
    → AllLeased worker expires rows
    → AllLeased worker expires (insert_by_time n rows)
unfolding insert_by_time
insert_by_time-AllLeased worker expires n [] h k = h
insert_by_time-AllLeased worker expires n (m ∷ rows) h k =
    ground (arith, insert_by_time-AllLeased worker expires n rows h k.3)

by_time-AllLeased :
    (worker : String) (expires : ℕ) (rows : List Notification)
    → AllLeased worker expires rows
    → AllLeased worker expires (by_time rows)
unfolding by_time
by_time-AllLeased worker expires [] h = tt
by_time-AllLeased worker expires (n ∷ rows) h =
    insert_by_time-AllLeased worker expires n (by_time rows) (h.0, h.1, h.2, tt)
      (by_time-AllLeased worker expires rows h.3)

rows_among-AllLeased :
    (worker : String) (expires : ℕ) (selected rows : List Notification)
    → AllLeased worker expires (rows_among selected (lease_rows selected worker expires rows))
unfolding rows_among lease_rows
rows_among-AllLeased worker expires selected [] = tt
rows_among-AllLeased worker expires selected (n ∷ rows) =
    ground (arith, rows_among-AllLeased worker expires selected rows)

module _ (worker_id worker : String) (now lease limit : ℕ) (rows rows' claimed : List Notification)
    (named : required_text worker_id ≡ some worker)
    (claim : claim_notifications worker_id now lease limit rows ≡ written (rows', claimed)) where
  claim_parts :
      (rows' ≡ lease_rows (select_ready now limit rows) worker (now + lease) rows)
      × (claimed
          ≡ by_time (
              rows_among
                (select_ready now limit rows)
                (lease_rows (select_ready now limit rows) worker (now + lease) rows)))
  unfolding claim_notifications
  claim_parts = ground arith

  claimed_selected :
      (id : String) → has_id id claimed ≡ true → has_id id (select_ready now limit rows) ≡ true
  claimed_selected id h =
      let selected = select_ready now limit rows in
      let leases = lease_rows selected worker (now + lease) rows in
      has_id-rows_among id selected leases (
        sym (has_id-by_time id (rows_among selected leases))
        ∙ ap (has_id id) (sym (claim_parts.1))
        ∙ h)

  -- Every notification that a claim returns is being sent under a lease of the worker, until `lease`
  -- nanoseconds after the claim.
  claim_notifications-AllLeased : AllLeased worker (now + lease) claimed
  claim_notifications-AllLeased = subst (AllLeased worker (now + lease)) (sym (claim_parts.1)) (
      by_time-AllLeased worker (now + lease) _
        (rows_among-AllLeased worker (now + lease) (select_ready now limit rows) rows))

  -- Every notification that a claim returns was ready in the table.
  pub claimed_ready : (id : String) → has_id id claimed ≡ true → any_ready now id rows ≡ true
  claimed_ready id h = select_ready-any_ready now limit id rows (claimed_selected id h)

-- A claim that is made on the table that another claim has left, before the lease of that claim has
-- expired, does not return a notification that the other has returned, whichever workers make them.
pub claim_notifications_exclusive :
    (id w₁ worker₁ w₂ worker₂ : String) (now₁ lease₁ limit₁ now₂ lease₂ limit₂ : ℕ)
    (rows rows₁ claimed₁ rows₂ claimed₂ : List Notification)
    → required_text w₁ ≡ some worker₁
    → claim_notifications w₁ now₁ lease₁ limit₁ rows ≡ written (rows₁, claimed₁)
    → has_id id claimed₁ ≡ true
    → now₂ < now₁ + lease₁
    → required_text w₂ ≡ some worker₂
    → claim_notifications w₂ now₂ lease₂ limit₂ rows₁ ≡ written (rows₂, claimed₂)
    → has_id id claimed₂ ≡ false
claim_notifications_exclusive id w₁ worker₁ w₂ worker₂ now₁ lease₁ limit₁ now₂ lease₂ limit₂ rows
      rows₁ claimed₁ rows₂ claimed₂ named₁ claim₁ mine early named₂ claim₂ =
    let taken =
      claimed_selected w₁ worker₁ now₁ lease₁ limit₁ rows rows₁ claimed₁ named₁ claim₁ id mine in
    let parts = claim_parts w₁ worker₁ now₁ lease₁ limit₁ rows rows₁ claimed₁ named₁ claim₁ in
    let unready =
      leased_not_ready id worker₁ (now₁ + lease₁) now₂ (select_ready now₁ limit₁ rows) rows taken
        early in
    elim (Bool-cases (has_id id claimed₂)) [
      | inr none_taken ↦ none_taken
      | inl again ↦
          let ready =
            claimed_ready w₂ worker₂ now₂ lease₂ limit₂ rows₁ rows₂ claimed₂ named₂ claim₂ id
              again in
          absurd (ground (arith, parts.0))
    ]

-- A worker that does not hold the lease of a notification, because another has claimed it, can
-- neither mark it delivered nor record a failure of it: both are refused.
pub claim_notifications_fences :
    (redact : String → String) (id w₁ worker w₂ other error : String)
    (now lease limit delivered_at failed_at retry_at max_attempts : ℕ)
    (rows rows' claimed : List Notification)
    → required_text w₁ ≡ some worker
    → claim_notifications w₁ now lease limit rows ≡ written (rows', claimed)
    → has_id id claimed ≡ true
    → required_text id ≡ some id
    → required_text w₂ ≡ some other
    → worker ≢ other
    → 0 < max_attempts
    → (mark_notification_delivered id w₂ delivered_at rows' ≡ refused lease_absent)
      × (record_notification_failure redact id w₂ failed_at retry_at error max_attempts rows'
          ≡ refused lease_absent)
unfolding mark_notification_delivered record_notification_failure
claim_notifications_fences redact id w₁ worker w₂ other error now lease limit delivered_at failed_at
      retry_at max_attempts rows rows' claimed named claim mine known named₂ ne some_try =
    let taken = claimed_selected w₁ worker now lease limit rows rows' claimed named claim id mine in
    let parts = claim_parts w₁ worker now lease limit rows rows' claimed named claim in
    let unheld =
      find_held-lease_rows_ne id worker other (now + lease) (select_ready now limit rows) rows taken
        ne in
    let absent : find_held id other rows' ≡ none = rw (parts.0) unheld in
    (ground (arith, known, named₂, absent), ground (arith, known, named₂, absent))
