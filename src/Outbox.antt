-- ===== src/Outbox.antt =====
-- src/coinpilot/hft_shadow_store.py: the outbox of notifications, which several notifiers drain under
-- leases. A transaction that raises is rolled back.
mod Text
pub mod Ids
pub mod Leases
pub mod Retries
mod Examples
unfoldable pub use Text.{required_text}
use ai_coin_trading.Prelude.{
  ℕ, zero, suc, ◌+◌, String, Bool, true, false, ◌&&◌, ◌||◌, Option, none, some, List, [], ◌∷◌,
  str_eq, ltb, leb, ◌==◌, if◌then◌else◌,
}
use ai_coin_trading.Outbox.Text.{required_text}

pub data Status : Type 0 where
  pending sending delivered dead_letter : Status

pub data Severity : Type 0 where
  info warning critical : Severity

-- A row of `notification_outbox`.
pub record Notification : Type 0 where
  pub notification_id : String
  pub run_id : Option String
  pub alert_key : String
  pub topic : String
  pub severity : Severity
  pub payload_json : String
  pub status : Status
  pub attempt_count : ℕ
  pub available_wall_ns : ℕ
  pub lease_owner : Option String
  pub lease_expires_wall_ns : Option ℕ
  pub created_wall_ns : ℕ
  pub delivered_wall_ns : Option ℕ
  pub last_error : Option String

pub data StoreError : Type 0 where
  not_positive empty_text id_collision lease_absent : StoreError

pub data Written (A : Type 0) : Type 0 where
  written : A → Written A
  refused : StoreError → Written A

infixl 5 ◌>>=◌ ◌>>◌
abbrev pub ◌>>=◌ : {A B : Type 0} → Written A → (A → Written B) → Written B
refused e >>= rest = refused e
written x >>= rest = rest x

abbrev pub ◌>>◌ : {B : Type 0} → Written (Unit {0}) → Written B → Written B
first >> rest = first >>= λ _. rest

-- `_required_text` and `_positive_int`, as far as naturals and texts can fail them.
abbrev pub text : String → Written String
text value = elim (required_text value) [ none ↦ refused empty_text | some t ↦ written t ]

abbrev pub positive : ℕ → Written (Unit {0})
positive n = if n == 0 then refused not_positive else written tt

abbrev pub is_pending : Status → Bool
is_pending pending = true
is_pending _ = false

abbrev pub is_sending : Status → Bool
is_sending sending = true
is_sending _ = false

-- `lease_expires_wall_ns <= ?`, which a NULL never satisfies.
abbrev pub expired_by : Option ℕ → ℕ → Bool
expired_by none now = false
expired_by (some t) now = leb t now

-- The rows that a claim at this time may take.
abbrev pub is_ready : ℕ → Notification → Bool
is_ready now n =
    leb n.available_wall_ns now
    && (is_pending n.status || is_sending n.status && expired_by n.lease_expires_wall_ns now)

unfoldable pub ready_rows : ℕ → List Notification → List Notification
ready_rows now [] = []
ready_rows now (n ∷ rows) =
    let rest = ready_rows now rows in if is_ready now n then n ∷ rest else rest

-- `ORDER BY created_wall_ns ASC`; rows of one time keep the table's order.
unfoldable pub insert_by_time : Notification → List Notification → List Notification
insert_by_time n [] = n ∷ []
insert_by_time n (m ∷ rows) =
    if leb n.created_wall_ns m.created_wall_ns then n ∷ m ∷ rows else m ∷ insert_by_time n rows

unfoldable pub by_time : List Notification → List Notification
by_time [] = []
by_time (n ∷ rows) = insert_by_time n (by_time rows)

-- `LIMIT ?`
unfoldable pub limit_rows : ℕ → List Notification → List Notification
limit_rows zero rows = []
limit_rows (suc k) [] = []
limit_rows (suc k) (n ∷ rows) = n ∷ limit_rows k rows

unfoldable pub has_id : String → List Notification → Bool
has_id id [] = false
has_id id (n ∷ rows) = str_eq n.notification_id id || has_id id rows

abbrev pub leased : String → ℕ → Notification → Notification
leased worker expires n = record n {
  status = sending;
  lease_owner = some worker;
  lease_expires_wall_ns = some expires;
}

-- The updates of a claim, one for each row that it has selected.
unfoldable pub lease_rows : List Notification → String → ℕ → List Notification → List Notification
lease_rows selected worker expires [] = []
lease_rows selected worker expires (n ∷ rows) =
    (if has_id n.notification_id selected then leased worker expires n else n)
    ∷ lease_rows selected worker expires rows

-- `WHERE notification_id IN (…)`
unfoldable pub rows_among : List Notification → List Notification → List Notification
rows_among selected [] = []
rows_among selected (n ∷ rows) =
    let rest = rows_among selected rows in
    if has_id n.notification_id selected then n ∷ rest else rest

unfoldable pub select_ready : ℕ → ℕ → List Notification → List Notification
select_ready now limit rows = limit_rows limit (by_time (ready_rows now rows))

unfoldable pub claim_notifications :
    String → ℕ → ℕ → ℕ → List Notification → Written (List Notification × List Notification)
claim_notifications worker_id now_wall_ns lease_ns limit rows = do
  worker ← text worker_id
  positive now_wall_ns
  positive lease_ns
  positive limit
  let selected = select_ready now_wall_ns limit rows
  let rows' = lease_rows selected worker (now_wall_ns + lease_ns) rows
  written (rows', by_time (rows_among selected rows'))

-- `status = 'sending' AND lease_owner = ?`
abbrev pub is_leased_to : String → Notification → Bool
is_leased_to worker n =
    is_sending n.status && elim n.lease_owner [ none ↦ false | some owner ↦ str_eq owner worker ]

abbrev pub is_held_by : String → String → Notification → Bool
is_held_by id worker n = str_eq n.notification_id id && is_leased_to worker n

unfoldable pub find_held : String → String → List Notification → Option Notification
find_held id worker [] = none
find_held id worker (n ∷ rows) = if is_held_by id worker n then some n else find_held id worker rows

-- `UPDATE … WHERE` over the rows of this id that the worker holds.
unfoldable pub update_held :
    String → String → (Notification → Notification) → List Notification → List Notification
update_held id worker change [] = []
update_held id worker change (n ∷ rows) =
    (if is_held_by id worker n then change n else n) ∷ update_held id worker change rows

-- `UPDATE … WHERE notification_id = ?`
unfoldable pub update_named :
    String → (Notification → Notification) → List Notification → List Notification
update_named id change [] = []
update_named id change (n ∷ rows) =
    (if str_eq n.notification_id id then change n else n) ∷ update_named id change rows

abbrev pub as_delivered : ℕ → Notification → Notification
as_delivered delivered_wall_ns n = record n {
  status = delivered;
  delivered_wall_ns = some delivered_wall_ns;
  lease_owner = none;
  lease_expires_wall_ns = none;
  last_error = none;
}

-- The id is the primary key, so the row count is 1 exactly if a held row is found.
unfoldable pub mark_notification_delivered :
    String → String → ℕ → List Notification → Written (List Notification)
mark_notification_delivered notification_id worker_id delivered_wall_ns rows = do
  id ← text notification_id
  worker ← text worker_id
  elim (find_held id worker rows) [
    | none ↦ refused lease_absent
    | some n ↦ written (update_held id worker (as_delivered delivered_wall_ns) rows)
  ]

-- The updated row, of which only the count of attempts comes from the row that was found.
abbrev pub as_failed : ℕ → ℕ → ℕ → String → ℕ → Notification → Notification
as_failed now retry_at max_attempts error attempts n = record n {
  status = if leb max_attempts attempts then dead_letter else pending;
  attempt_count = attempts;
  available_wall_ns = if ltb now retry_at then retry_at else now;
  lease_owner = none;
  lease_expires_wall_ns = none;
  last_error = some error;
}

-- `redact` is `_redact_error`, a substitution by regular expressions. The row is found by the
-- stripped id, and updated by the id as given.
unfoldable pub record_notification_failure :
    (String → String)
    → String
    → String
    → ℕ
    → ℕ
    → String
    → ℕ
    → List Notification
    → Written (List Notification)
record_notification_failure redact notification_id worker_id now_wall_ns retry_at_wall_ns error
      max_attempts rows =
    do
      positive max_attempts
      id ← text notification_id
      worker ← text worker_id
      elim (find_held id worker rows) [
        | none ↦ refused lease_absent
        | some n ↦ do
          e ← text error
          written (
              update_named notification_id
                (as_failed now_wall_ns retry_at_wall_ns max_attempts (redact e)
                  (n.attempt_count + 1))
                rows)
      ]
