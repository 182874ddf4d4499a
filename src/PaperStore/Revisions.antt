-- ===== src/PaperStore/Revisions.antt =====
-- What a committed step has done to the tables, and what a concurrent or repeated one meets.
use text.Mathlib.TextPositions.{eq_refl}
use ai_coin_trading.Prelude.{ℕ, ◌+◌, String, ◌≡◌, ◌≢◌, some, List, [], ◌∷◌, arith, eq_iff}
use ai_coin_trading.PaperStore.{
  EventRow, EventData, StateRow, Database, concurrent_update, committed, rolled_back, insert_events,
  find_state, upsert_state, current_revision, save_paper_step, load_paper_state,
}
use ai_coin_trading.PaperStore.Laws.{
  IsLogged, AllLogged, insert_events_keeps, insert_events-AllLogged, insert_events_again,
}

module _ {S : Type 0} where
  find_state-upsert_self :
      (row : StateRow S) (rows : List (StateRow S))
      → find_state row.account_key (upsert_state row rows) ≡ some row
  unfolding find_state upsert_state
  find_state-upsert_self row [] = rw (eq_refl row.account_key)
  find_state-upsert_self row (x ∷ rows) =
      ground (arith, find_state-upsert_self row rows, eq_refl row.account_key)

  find_state-upsert_ne :
      (row : StateRow S) (other : String) (rows : List (StateRow S))
      → row.account_key ≢ other
      → find_state other (upsert_state row rows) ≡ find_state other rows
  unfolding find_state upsert_state
  find_state-upsert_ne row other [] h = ground (arith, eq_iff row.account_key other)
  find_state-upsert_ne row other (x ∷ rows) h = ground (
    arith,
    find_state-upsert_ne row other rows h,
    eq_iff row.account_key other,
    eq_iff x.account_key other,
    eq_iff x.account_key row.account_key,
  )

  module _ (key : String) (state : S) (updated_at : String) (events : List EventData) (r : ℕ)
      (db db' : Database S) (n : ℕ)
      (saved : save_paper_step key state updated_at events r db ≡ committed (db', n)) where
    saved_parts :
        (current_revision key db ≡ r)
        × (n ≡ r + 1)
        × (insert_events key events db.paper_events ≡ committed db'.paper_events)
        × (db'.paper_state
            ≡ upsert_state
                (record {
                  account_key = key;
                  revision = r + 1;
                  state = state;
                  updated_at = updated_at;
                })
                db.paper_state)
    unfolding save_paper_step
    saved_parts = ground arith

    saved_row :
        find_state key db'.paper_state
        ≡ some
            (record { account_key = key; revision = r + 1; state = state; updated_at = updated_at })
    saved_row = rw (saved_parts.3) (
        find_state-upsert_self
          (record { account_key = key; revision = r + 1; state = state; updated_at = updated_at })
          db.paper_state)

    -- A step that commits had the account's current revision; it leaves the account with the given
    -- state at the next revision, and every event of the step in the ledger.
    pub save_paper_step_commits :
        (current_revision key db ≡ r)
        × (n ≡ r + 1)
        × (load_paper_state key db' ≡ some (state, n))
        × AllLogged key events db'.paper_events
    unfolding load_paper_state
    save_paper_step_commits = (
      saved_parts.0,
      saved_parts.1,
      ground (arith, saved_row, saved_parts.1),
      insert_events-AllLogged key events db.paper_events db'.paper_events saved_parts.2,
    )

    -- A step that commits leaves the state of every other account, and every event that was in the
    -- ledger.
    pub save_paper_step_keeps :
        (other : String) (row : EventRow)
        → key ≢ other
        → IsLogged row db.paper_events
        → (load_paper_state other db' ≡ load_paper_state other db) × IsLogged row db'.paper_events
    unfolding load_paper_state
    save_paper_step_keeps other row ne logged = (
      ground (
        arith,
        saved_parts.3,
        find_state-upsert_ne
            (record { account_key = key; revision = r + 1; state = state; updated_at = updated_at })
            other db.paper_state ne,
      ),
      insert_events_keeps key events row db.paper_events db'.paper_events saved_parts.2 logged,
    )

    new_revision : current_revision key db' ≡ r + 1
    unfolding current_revision
    new_revision = ground (arith, saved_row)

    -- Once a step has committed, another step from the same revision is refused: no update is lost.
    pub save_paper_step_excludes :
        (state₂ : S) (updated_at₂ : String) (events₂ : List EventData)
        → save_paper_step key state₂ updated_at₂ events₂ r db' ≡ rolled_back concurrent_update
    unfolding save_paper_step
    save_paper_step_excludes state₂ updated_at₂ events₂ = ground (arith, new_revision)

    -- A later step of the account that hands the same events over again is not refused for them, and
    -- adds no row to the ledger.
    pub save_paper_step_repeats :
        (state₂ : S) (updated_at₂ : String)
        → save_paper_step key state₂ updated_at₂ events n db'
          ≡ committed (
            record {
              paper_state =
                  upsert_state
                    (record {
                      account_key = key;
                      revision = n + 1;
                      state = state₂;
                      updated_at = updated_at₂;
                    })
                    db'.paper_state;
              paper_events = db'.paper_events;
            },
            n + 1,
          )
    unfolding save_paper_step
    save_paper_step_repeats state₂ updated_at₂ = ground (
      arith,
      new_revision,
      saved_parts.1,
      insert_events_again key events db'.paper_events
          (insert_events-AllLogged key events db.paper_events db'.paper_events saved_parts.2),
    )
