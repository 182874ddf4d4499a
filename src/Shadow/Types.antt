-- ===== src/Shadow/Types.antt =====
-- The words of the shadow engine and of its ledger: statuses, reasons, keys, alerts. A text that the
-- code formats stands as its parts, and so does an id, which is a digest of its parts.
use ai_coin_trading.Prelude.{
  ℕ, String, ◌≡◌, refl, ◌⊎◌, inl, inr, Bool, true, false, Option, arith, if◌then◌else◌,
}
use ai_coin_trading.Depth.Sweep.{DepthError, Replayed, replayed, failed}

-- The statuses of a run and of its account; only a run is `interrupted`.
pub data Lifecycle : Type 0 where
  warmup running halted_recovery stopped interrupted : Lifecycle

pub data ShadowAction : Type 0 where
  buy_action sell_action hold_action : ShadowAction

pub data ContinuityReason : Type 0 where
  regression_marker capture_changed connection_changed : ContinuityReason
  gap_marker : Option String → ContinuityReason

pub data HaltReason : Type 0 where
  -- "continuity_with_open_position:…"
  open_position_break : ContinuityReason → HaltReason
  restart_with_open_position restart_fingerprint_changed process_restart : HaltReason
  -- "external_halt:…" and "graceful:…"
  external_halt graceful : String → HaltReason

pub data TerminalReason : Type 0 where
  order_filled remainder_cancelled connection_boundary_expiry : TerminalReason
  no_fresh_book restart_expiry graceful_stop : TerminalReason
  continuity_expiry : ContinuityReason → TerminalReason
  halt_expiry : String → TerminalReason

pub data Rejection : Type 0 where
  wrong_lifecycle : Lifecycle → Rejection
  pending_order_exists position_already_open exceeds_max_order : Rejection
  insufficient_cash insufficient_position no_position : Rejection

pub data DecisionStatus : Type 0 where
  accepted_intent held_intent rejected_intent : DecisionStatus

pub data OrderStatus : Type 0 where
  pending_order filled_order partial_order expired_order : OrderStatus

-- "ok", "degraded" and "critical".
pub data HealthStatus : Type 0 where
  healthy degraded unhealthy : HealthStatus

-- The features of an intent: the caller's, as their canonical JSON text, or those of a recovery.
pub data Features : Type 0 where
  given_features : String → Features
  recovery_features : Option HaltReason → Features

-- What `deterministic_shadow_id` digests for a decision, and again for its order, a mark of equity and
-- the health of the feed: the run and the book.
pub record BookKey : Type 0 where
  pub key_run : String
  pub key_capture : String
  pub key_connection : String
  pub key_ordinal : ℕ

-- The parts of a fill's id: its order's, and the book that filled it.
pub record FillKey : Type 0 where
  pub fill_order : BookKey
  pub fill_book : BookKey

-- The parts of a health id.
pub data HealthKey : Type 0 where
  feed_health : BookKey → HealthKey
  keyed_health : String → String → String → HealthKey
  timed_health : String → String → ℕ → HealthKey

pub data AlertKey : Type 0 where
  continuity_alert warmup_alert stale_alert : BookKey → AlertKey
  fill_alert : FillKey → AlertKey
  halt_alert : String → String → AlertKey
  health_alert : HealthKey → AlertKey
  stop_alert : String → ℕ → AlertKey
  start_alert : String → AlertKey
  recovery_alert : String → String → AlertKey

-- What the engine raises: ShadowInvariantError, ValueError, the errors of the depth, and
-- sqlite3.IntegrityError for a CHECK of the schema.
pub data ShadowError : Type 0 where
  wrong_market invalid_intent state_disappeared run_stopped : ShadowError
  ordinal_regressed time_regressed new_intent_on_duplicate different_intent : ShadowError
  ignored_without_id id_collision notice_collision : ShadowError
  cash_exceeded position_exceeded order_changed : ShadowError
  check_failed not_strict_json blank_text bad_time : ShadowError
  different_run existing_without_state bad_cash : ShadowError
  depth_failed : DepthError → ShadowError

-- A step of a transaction. What raises is rolled back, so it leaves nothing.
pub data Step (A : Type 0) : Type 0 where
  done : A → Step A
  refused : ShadowError → Step A

infixl 5 ◌>>=◌ ◌>>◌
abbrev pub ◌>>=◌ : {A B : Type 0} → Step A → (A → Step B) → Step B
refused e >>= rest = refused e
done x >>= rest = rest x

abbrev pub ◌>>◌ : {B : Type 0} → Step (Unit {0}) → Step B → Step B
first >> rest = first >>= λ _. rest

abbrev pub ensure : Bool → ShadowError → Step (Unit {0})
ensure test e = if test then done tt else refused e

abbrev pub from_depth : {A : Type 0} → Replayed A → Step A
from_depth (replayed x) = done x
from_depth (failed e) = refused (depth_failed e)

-- A chain that has ended got through its first step and through the rest after it.
pub >>=-done :
    {A B : Type 0} {y : B} (first : Step A) (rest : A → Step B)
    → (first >>= rest) ≡ done y
    → (x : A) × (first ≡ done x) × (rest x ≡ done y)
>>=-done (refused _) rest h = absurd (ground arith)
>>=-done (done x) rest h = (x, refl, h)

pub ensure-done :
    {B : Type 0} {y : B} (test : Bool) (e : ShadowError) (rest : Step B)
    → (ensure test e >> rest) ≡ done y
    → (test ≡ true) × (rest ≡ done y)
ensure-done true e rest h = (refl, h)
ensure-done false e rest h = absurd (ground arith)

-- A chain that only adds a value to what its first step yields.
pub paired-done :
    {A B : Type 0} (first : Step A) (b z : B) (y : A)
    → ◌>>=◌ {B = A × B} first (λ x. done (x, b)) ≡ done (y, z)
    → (first ≡ done y) × (z ≡ b)
paired-done (refused _) b z y h = absurd (ground arith)
paired-done (done x) b z y h = (ground arith, ground arith)

pub Step-cases :
    {A : Type 0} (x : Step A) → ((e : ShadowError) × (x ≡ refused e)) ⊎ ((y : A) × (x ≡ done y))
Step-cases (refused e) = inl (e, refl)
Step-cases (done y) = inr (y, refl)
