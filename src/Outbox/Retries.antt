-- ===== src/Outbox/Retries.antt =====
-- The life of a notification after a worker has reported on it.
use ai_coin_trading.Prelude.{
  ℕ, ◌+◌, ◌≤◌, ◌<◌, String, ◌≡◌, refl, ◌⊎◌, inl, inr, false, none, some, List, [], ◌∷◌, arith,
  eq_iff, Bool-cases, Option-cases,
}
use ai_coin_trading.Outbox.{
  Notification, written, is_ready, has_id, claim_notifications, find_held, update_held,
  update_named, as_delivered, mark_notification_delivered, as_failed, record_notification_failure,
}
use ai_coin_trading.Outbox.Ids.{any_ready, any_ready_absent}
use ai_coin_trading.Outbox.Leases.{claimed_ready}
use ai_coin_trading.Outbox.Text.{required_text}

-- No two rows have one id: `notification_id` is the primary key.
abbrev pub IsKeyed : List Notification → Type 0
IsKeyed [] = Unit
IsKeyed (n ∷ rows) = (has_id n.notification_id rows ≡ false) × IsKeyed rows

find_held_absent :
    (id worker : String) (rows : List Notification)
    → has_id id rows ≡ false
    → find_held id worker rows ≡ none
unfolding find_held has_id
find_held_absent id worker [] h = refl
find_held_absent id worker (n ∷ rows) h = ground (arith, find_held_absent id worker rows)

-- A change that keeps the ids.
abbrev KeepsIds : (Notification → Notification) → Type 0
KeepsIds change = (m : Notification) → (change m).notification_id ≡ m.notification_id

has_id-update_held :
    (i id worker : String) (change : Notification → Notification) (rows : List Notification)
    → KeepsIds change
    → has_id i (update_held id worker change rows) ≡ has_id i rows
unfolding update_held has_id
has_id-update_held i id worker change [] keeps = refl
has_id-update_held i id worker change (n ∷ rows) keeps =
    ground (arith, has_id-update_held i id worker change rows keeps, keeps n)

-- A change that makes the held row of an id not ready leaves no row of the id ready.
update_held-any_ready :
    (id worker : String) (change : Notification → Notification) (now : ℕ) (rows : List Notification)
    (n : Notification)
    → KeepsIds change
    → ((m : Notification) → is_ready now (change m) ≡ false)
    → IsKeyed rows
    → find_held id worker rows ≡ some n
    → any_ready now id (update_held id worker change rows) ≡ false
unfolding any_ready update_held find_held has_id
update_held-any_ready id worker change now [] n keeps done keyed found = cc
update_held-any_ready id worker change now (m ∷ rows) n keeps done keyed found = ground (
  arith,
  keeps m,
  done m,
  update_held-any_ready id worker change now rows n keeps done keyed.1,
  eq_iff m.notification_id id,
  any_ready_absent now id (update_held id worker change rows),
  has_id-update_held id id worker change rows keeps,
  find_held_absent id worker rows,
)

as_delivered_done : (t now : ℕ) (m : Notification) → is_ready now (as_delivered t m) ≡ false
as_delivered_done t now m = ground arith

as_failed_waits :
    (now retry_at max_attempts : ℕ) (error : String) (attempts t : ℕ)
    → (t < retry_at) ⊎ (t < now)
    → (m : Notification) → is_ready t (as_failed now retry_at max_attempts error attempts m) ≡ false
as_failed_waits now retry_at max_attempts error attempts t (inl early) m = ground arith
as_failed_waits now retry_at max_attempts error attempts t (inr early) m = ground arith

update_named-any_ready :
    (id : String) (change : Notification → Notification) (now : ℕ) (rows : List Notification)
    → KeepsIds change
    → ((m : Notification) → is_ready now (change m) ≡ false)
    → any_ready now id (update_named id change rows) ≡ false
unfolding any_ready update_named
update_named-any_ready id change now [] keeps done = refl
update_named-any_ready id change now (m ∷ rows) keeps done = ground (
  arith,
  keeps m,
  done m,
  update_named-any_ready id change now rows keeps done,
  eq_iff m.notification_id id,
)

not_claimed :
    (worker_id worker : String) (now lease limit : ℕ) (rows rows' claimed : List Notification)
    → required_text worker_id ≡ some worker
    → claim_notifications worker_id now lease limit rows ≡ written (rows', claimed)
    → (id : String) → any_ready now id rows ≡ false
    → has_id id claimed ≡ false
not_claimed worker_id worker now lease limit rows rows' claimed named claim id unready =
    elim (Bool-cases (has_id id claimed)) [
      | inr none_taken ↦ none_taken
      | inl taken ↦
          let ready =
            claimed_ready worker_id worker now lease limit rows rows' claimed named claim id
              taken in
          absurd (ground arith)
    ]

module _ (id id' worker_id worker : String) (rows rows' : List Notification)
    (named : required_text worker_id ≡ some worker) (known : required_text id' ≡ some id)
    (keyed : IsKeyed rows) where
  delivered_parts :
      (at : ℕ)
      → mark_notification_delivered id' worker_id at rows ≡ written rows'
      → (n : Notification) × (find_held id worker rows ≡ some n)
        × (rows' ≡ update_held id worker (as_delivered at) rows)
  unfolding mark_notification_delivered
  delivered_parts at h = elim (Option-cases (find_held id worker rows)) [
    | inl unheld ↦ absurd (ground (arith, named, known))
    | inr (n, held) ↦ (n, held, ground (arith, named, known, held))
  ]

  -- A notification that has been marked delivered is not ready in the table that this leaves, at any
  -- time.
  mark_delivered-any_ready :
      (at now : ℕ)
      → mark_notification_delivered id' worker_id at rows ≡ written rows'
      → any_ready now id rows' ≡ false
  mark_delivered-any_ready at now h =
      let (n, held, same) = delivered_parts at h in
      rw same (
        update_held-any_ready id worker (as_delivered at) now rows n (λ m. refl)
          (as_delivered_done at now) keyed held)

  -- In a table without two rows of one id, a notification that has been marked delivered under that
  -- id, given with or without white space around it, is not returned by the next claim, of any
  -- worker at any time.
  pub mark_delivered_final :
      (at now lease limit : ℕ) (claimer claimer_name : String) (rows₂ claimed : List Notification)
      → mark_notification_delivered id' worker_id at rows ≡ written rows'
      → required_text claimer ≡ some claimer_name
      → claim_notifications claimer now lease limit rows' ≡ written (rows₂, claimed)
      → has_id id claimed ≡ false
  mark_delivered_final at now lease limit claimer claimer_name rows₂ claimed h claimant claim =
      not_claimed claimer claimer_name now lease limit rows' rows₂ claimed claimant claim id
        (mark_delivered-any_ready at now h)

failed_parts :
    (redact : String → String) (id worker_id : String) (now retry_at max_attempts : ℕ)
    (error : String) (rows rows' : List Notification)
    → record_notification_failure redact id worker_id now retry_at error max_attempts rows
      ≡ written rows'
    → (key : String) × (worker : String) × (n : Notification) × (e : String) × (required_text id
        ≡ some key)
      × (required_text worker_id ≡ some worker)
      × (find_held key worker rows ≡ some n)
      × (rows' ≡ update_named id (as_failed now retry_at max_attempts e (n.attempt_count + 1)) rows)
unfolding record_notification_failure
failed_parts redact id worker_id now retry_at max_attempts error rows rows' h =
    elim (Option-cases (required_text id)) [
      | inl nameless ↦ absurd (ground (arith, nameless))
      | inr (key, known) ↦ elim (Option-cases (required_text worker_id)) [
        | inl nobody ↦ absurd (ground (arith, known, nobody))
        | inr (worker, named) ↦ elim (Option-cases (find_held key worker rows)) [
          | inl unheld ↦ absurd (ground (arith, named, known, unheld))
          | inr (n, held) ↦ elim (Option-cases (required_text error)) [
            | inl blank ↦ absurd (ground (arith, named, known, held, blank))
            | inr (e, said) ↦ (
              key,
              worker,
              n,
              redact e,
              known,
              named,
              held,
              ground (arith, named, known, held, said),
            )
          ]
        ]
      ]
    ]

-- A notification whose failed delivery has been recorded under its id is not returned by the next
-- claim if that is made before the retry time, or before the failure.
pub record_failure_waits :
    (redact : String → String) (id worker_id : String) (now retry_at max_attempts t lease limit : ℕ)
    (error claimer claimer_name : String) (rows rows' rows₂ claimed : List Notification)
    → record_notification_failure redact id worker_id now retry_at error max_attempts rows
      ≡ written rows'
    → (t < retry_at) ⊎ (t < now)
    → required_text claimer ≡ some claimer_name
    → claim_notifications claimer t lease limit rows' ≡ written (rows₂, claimed)
    → has_id id claimed ≡ false
record_failure_waits redact id worker_id now retry_at max_attempts t lease limit error claimer
      claimer_name rows rows' rows₂ claimed h early claimant claim =
    let (key, worker, n, e, known, named, held, same) =
      failed_parts redact id worker_id now retry_at max_attempts error rows rows' h in
    let attempts = n.attempt_count + 1 in
    not_claimed claimer claimer_name t lease limit rows' rows₂ claimed claimant claim id (
      rw same (
        update_named-any_ready id (as_failed now retry_at max_attempts e attempts) t rows
          (λ m. refl) (as_failed_waits now retry_at max_attempts e attempts t early)))

as_failed_dead :
    (now retry_at max_attempts : ℕ) (error : String) (attempts t : ℕ)
    → max_attempts ≤ attempts
    → (m : Notification) → is_ready t (as_failed now retry_at max_attempts error attempts m) ≡ false
as_failed_dead now retry_at max_attempts error attempts t spent m = ground arith

-- A notification whose failed delivery, recorded under an id that has no white space around it, was
-- its last allowed attempt is not returned by the next claim, of any worker at any time.
pub record_failure_gives_up :
    (redact : String → String) (id worker_id worker : String) (n : Notification)
    (now retry_at max_attempts t lease limit : ℕ) (error claimer claimer_name : String)
    (rows rows' rows₂ claimed : List Notification)
    → required_text id ≡ some id
    → required_text worker_id ≡ some worker
    → find_held id worker rows ≡ some n
    → max_attempts ≤ n.attempt_count + 1
    → record_notification_failure redact id worker_id now retry_at error max_attempts rows
      ≡ written rows'
    → required_text claimer ≡ some claimer_name
    → claim_notifications claimer t lease limit rows' ≡ written (rows₂, claimed)
    → has_id id claimed ≡ false
record_failure_gives_up redact id worker_id worker n now retry_at max_attempts t lease limit error
      claimer claimer_name rows rows' rows₂ claimed known named held spent h claimant claim =
    let (key', worker', n', e, known', named', held', same) =
      failed_parts redact id worker_id now retry_at max_attempts error rows rows' h in
    let found : n' ≡ n = grind (arith, known, known', named, named', held, held') in
    let attempts = n'.attempt_count + 1 in
    not_claimed claimer claimer_name t lease limit rows' rows₂ claimed claimant claim id (
      rw same (
        update_named-any_ready id (as_failed now retry_at max_attempts e attempts) t rows
          (λ m. refl) (as_failed_dead now retry_at max_attempts e attempts t (rw found spent))))
