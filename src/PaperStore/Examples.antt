-- ===== src/PaperStore/Examples.antt =====
-- A store with two accounts, and the theorems about a step of one of them.
use mathlib.Core.Bool.{false≢true}
use ai_coin_trading.Prelude.{ℕ, ◌+◌, ◌≡◌, refl, some, [], ◌∷◌, eq_iff}
use ai_coin_trading.PaperStore.{
  EventRow, EventData, Database, concurrent_update, event_collision, committed, rolled_back,
  find_event, insert_event, insert_events, find_state, upsert_state, current_revision,
  save_paper_step, load_paper_state,
}
use ai_coin_trading.PaperStore.Laws.{IsLogged, AllLogged}
use ai_coin_trading.PaperStore.Revisions.{
  save_paper_step_commits, save_paper_step_keeps, save_paper_step_excludes, save_paper_step_repeats,
}

abbrev fill_event : EventData
fill_event = record { event_id = "fill-1"; timestamp = "t1"; event_type = "fill"; payload = "{}" }

abbrev empty : Database ℕ
empty = record { paper_state = []; paper_events = [] }

abbrev two_accounts : Database ℕ
two_accounts = record {
  paper_state =
      record { account_key = "b"; revision = 4; state = 40; updated_at = "t0" }
      ∷ record { account_key = "a"; revision = 7; state = 10; updated_at = "t0" }
      ∷ [];
  paper_events =
      record {
        event_id = "b:x";
        account_key = "b";
        timestamp = "t0";
        event_type = "fill";
        payload_json = "{}";
      }
      ∷ [];
}

abbrev logged : EventRow
logged = record {
  event_id = "b:x";
  account_key = "b";
  timestamp = "t0";
  event_type = "fill";
  payload_json = "{}";
}

abbrev stepped : Database ℕ
stepped = record {
  paper_state =
      record { account_key = "b"; revision = 4; state = 40; updated_at = "t0" }
      ∷ record { account_key = "a"; revision = 8; state = 11; updated_at = "t1" }
      ∷ [];
  paper_events =
      logged
      ∷ record {
        event_id = "a:fill-1";
        account_key = "a";
        timestamp = "t1";
        event_type = "fill";
        payload_json = "{}";
      }
      ∷ [];
}

step_commits : save_paper_step "a" 11 "t1" (fill_event ∷ []) 7 two_accounts ≡ committed (stepped, 8)
unfolding save_paper_step insert_events insert_event find_event find_state upsert_state
    current_revision
step_commits = refl

-- The same id with another payload is a collision, and a stale revision is refused.
step_refused :
    (save_paper_step "b" 41 "t1"
        (record { event_id = "x"; timestamp = "t0"; event_type = "fill"; payload = "[]" } ∷ [])
        4
        two_accounts
      ≡ rolled_back event_collision)
    × (save_paper_step "a" 11 "t1" [] 6 two_accounts ≡ rolled_back concurrent_update)
    × (save_paper_step "c" 1 "t1" [] 1 empty ≡ rolled_back concurrent_update)
unfolding save_paper_step insert_events insert_event find_event find_state upsert_state
    current_revision
step_refused = (refl, refl, refl)

save_paper_step_commits_example :
    (current_revision "a" two_accounts ≡ 7)
    × (◌≡◌ {A = ℕ} 8 (7 + 1))
    × (load_paper_state "a" stepped ≡ some (11, 8))
    × AllLogged "a" (fill_event ∷ []) stepped.paper_events
save_paper_step_commits_example =
    save_paper_step_commits "a" 11 "t1" (fill_event ∷ []) 7 two_accounts stepped 8 step_commits

logged-IsLogged : IsLogged logged two_accounts.paper_events
unfolding find_event
logged-IsLogged = refl

save_paper_step_keeps_example :
    (load_paper_state "b" stepped ≡ load_paper_state "b" two_accounts)
    × IsLogged logged stepped.paper_events
save_paper_step_keeps_example =
    save_paper_step_keeps "a" 11 "t1" (fill_event ∷ []) 7 two_accounts stepped 8 step_commits "b"
      logged (λ e. false≢true ((eq_iff "a" "b").1 e)) logged-IsLogged

save_paper_step_excludes_example :
    save_paper_step "a" 99 "t2" [] 7 stepped ≡ rolled_back concurrent_update
save_paper_step_excludes_example =
    save_paper_step_excludes "a" 11 "t1" (fill_event ∷ []) 7 two_accounts stepped 8 step_commits 99
      "t2" []

save_paper_step_repeats_example :
    save_paper_step "a" 12 "t2" (fill_event ∷ []) 8 stepped
    ≡ committed (
      record {
        paper_state =
            upsert_state
              (record { account_key = "a"; revision = 9; state = 12; updated_at = "t2" })
              stepped.paper_state;
        paper_events = stepped.paper_events;
      },
      9,
    )
save_paper_step_repeats_example =
    save_paper_step_repeats "a" 11 "t1" (fill_event ∷ []) 7 two_accounts stepped 8 step_commits 12
      "t2"
