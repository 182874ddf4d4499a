-- ===== src/PaperStore.antt =====
-- src/coinpilot/store.py: the tables of the paper accounts and of their events, and the transaction
-- that saves one step. JSON texts stand for the values that they encode. A transaction that raises
-- is rolled back, so its exception comes with the tables as they were.
pub mod Laws
pub mod Revisions
mod Examples
use ai_coin_trading.Prelude.{
  ℕ, ◌+◌, String, append, Bool, not, ◌&&◌, Option, none, some, List, [], ◌∷◌, ◌++◌, str_eq, ◌==◌,
  if◌then◌else◌,
}

-- A row of `paper_events`.
pub record EventRow : Type 0 where
  pub event_id : String
  pub account_key : String
  pub timestamp : String
  pub event_type : String
  pub payload_json : String

-- An event as the engines hand it over.
pub record EventData : Type 0 where
  pub event_id : String
  pub timestamp : String
  pub event_type : String
  pub payload : String

-- A row of `paper_state`; the state's revision stands beside the rest of it.
pub record StateRow (S : Type 0) : Type 0 where
  pub account_key : String
  pub revision : ℕ
  pub state : S
  pub updated_at : String

pub record Database (S : Type 0) : Type 0 where
  pub paper_state : List (StateRow S)
  pub paper_events : List EventRow

pub data SaveError : Type 0 where
  concurrent_update event_collision : SaveError

pub data Saved (A : Type 0) : Type 0 where
  committed : A → Saved A
  rolled_back : SaveError → Saved A

infixl 5 ◌>>=◌
abbrev pub ◌>>=◌ : {A B : Type 0} → Saved A → (A → Saved B) → Saved B
rolled_back e >>= rest = rolled_back e
committed x >>= rest = rest x

abbrev pub scoped_event_id : String → String → String
scoped_event_id account_key event_id = append account_key (append ":" event_id)

abbrev pub to_row : String → EventData → EventRow
to_row account_key e = record {
  event_id = scoped_event_id account_key e.event_id;
  account_key = account_key;
  timestamp = e.timestamp;
  event_type = e.event_type;
  payload_json = e.payload;
}

-- `actual != expected`, on the columns that the code compares.
abbrev pub same_data : EventRow → EventRow → Bool
same_data x y =
    str_eq x.account_key y.account_key
    && str_eq x.timestamp y.timestamp
    && str_eq x.event_type y.event_type
    && str_eq x.payload_json y.payload_json

unfoldable pub find_event : String → List EventRow → Option EventRow
find_event id [] = none
find_event id (row ∷ rows) = if str_eq row.event_id id then some row else find_event id rows

-- `INSERT OR IGNORE`, and the comparison with the prior row if there is one.
unfoldable pub insert_event : EventRow → List EventRow → Saved (List EventRow)
insert_event row rows = elim (find_event row.event_id rows) [
  | none ↦ committed (rows ++ row ∷ [])
  | some prior ↦ if same_data prior row then committed rows else rolled_back event_collision
]

unfoldable pub insert_events : String → List EventData → List EventRow → Saved (List EventRow)
insert_events account_key [] rows = committed rows
insert_events account_key (e ∷ events) rows =
    insert_event (to_row account_key e) rows >>= insert_events account_key events

module _ {S : Type 0} where
  unfoldable pub find_state : String → List (StateRow S) → Option (StateRow S)
  find_state key [] = none
  find_state key (row ∷ rows) = if str_eq row.account_key key then some row else find_state key rows

  -- `ON CONFLICT(account_key) DO UPDATE`
  unfoldable pub upsert_state : StateRow S → List (StateRow S) → List (StateRow S)
  upsert_state new [] = new ∷ []
  upsert_state new (row ∷ rows) =
      if str_eq row.account_key new.account_key then new ∷ rows else row ∷ upsert_state new rows

  unfoldable pub current_revision : String → Database S → ℕ
  current_revision key db = elim (find_state key db.paper_state) [
    | none ↦ 0
    | some row ↦ row.revision
  ]

  -- The transaction. `updated_at` is the state's own time, or the clock's if it has none.
  unfoldable pub save_paper_step :
      String → S → String → List EventData → ℕ → Database S → Saved (Database S × ℕ)
  save_paper_step account_key state updated_at events expected_revision db =
      let next_revision = expected_revision + 1 in
      let row : StateRow S = record {
        account_key = account_key;
        revision = next_revision;
        state = state;
        updated_at = updated_at;
      } in
      if not (current_revision account_key db == expected_revision)
      then rolled_back concurrent_update
      else insert_events account_key events db.paper_events >>= λ rows. committed (
        record { paper_state = upsert_state row db.paper_state; paper_events = rows },
        next_revision,
      )

  -- The saved state of an account with its revision.
  unfoldable pub load_paper_state : String → Database S → Option (S × ℕ)
  load_paper_state key db = elim (find_state key db.paper_state) [
    | none ↦ none
    | some row ↦ some (row.state, row.revision)
  ]
