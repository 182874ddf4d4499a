-- ===== src/PaperStore/Laws.antt =====
-- Compare-and-swap on the revision, and an event ledger that only grows and takes a repeated event once.
use text.Mathlib.TextPositions.{eq_refl}
use ai_coin_trading.Prelude.{
  String, ◌≡◌, refl, inl, inr, true, none, some, List, [], ◌∷◌, ◌++◌, arith, eq_iff, Option-cases,
}
use ai_coin_trading.PaperStore.{
  EventRow, EventData, Saved, committed, rolled_back, ◌>>=◌, to_row, same_data, find_event,
  insert_event, insert_events,
}

-- A transaction that has committed got through its first step and through the rest after it.
>>=-committed :
    {A B : Type 0} {y : B} (first : Saved A) (rest : A → Saved B)
    → (first >>= rest) ≡ committed y
    → (x : A) × (first ≡ committed x) × (rest x ≡ committed y)
>>=-committed (rolled_back _) rest h = absurd (ground arith)
>>=-committed (committed x) rest h = (x, refl, h)

-- The row is in the ledger, found under its id.
abbrev pub IsLogged : EventRow → List EventRow → Type 0
IsLogged row rows = find_event row.event_id rows ≡ some row

same_data-eq : (x y : EventRow) → x.event_id ≡ y.event_id → same_data x y ≡ true → x ≡ y
same_data-eq x y id same = ground (
  arith,
  eq_iff x.account_key y.account_key,
  eq_iff x.timestamp y.timestamp,
  eq_iff x.event_type y.event_type,
  eq_iff x.payload_json y.payload_json,
)

find_event-id :
    (id : String) (rows : List EventRow) (row : EventRow)
    → find_event id rows ≡ some row
    → row.event_id ≡ id
unfolding find_event
find_event-id id [] row h = cc
find_event-id id (x ∷ rows) row h = ground (arith, find_event-id id rows row, eq_iff x.event_id id)

find_event-append_some :
    (id : String) (rows new : List EventRow) (row : EventRow)
    → find_event id rows ≡ some row
    → find_event id (rows ++ new) ≡ some row
unfolding find_event
find_event-append_some id [] new row h = cc
find_event-append_some id (x ∷ rows) new row h =
    ground (arith, find_event-append_some id rows new row)

find_event-append_none :
    (id : String) (rows new : List EventRow)
    → find_event id rows ≡ none
    → find_event id (rows ++ new) ≡ find_event id new
unfolding find_event
find_event-append_none id [] new h = refl
find_event-append_none id (x ∷ rows) new h = ground (arith, find_event-append_none id rows new)

find_event-single : (row : EventRow) → find_event row.event_id (row ∷ []) ≡ some row
unfolding find_event
find_event-single row = rw (eq_refl row.event_id)

-- An insert that is accepted keeps every row, and its own row is in the ledger.
pub insert_event-IsLogged :
    (new : EventRow) (rows rows' : List EventRow)
    → insert_event new rows ≡ committed rows'
    → IsLogged new rows'
unfolding insert_event
insert_event-IsLogged new rows rows' h = elim (Option-cases (find_event new.event_id rows)) [
  | inl e ↦
      ground (arith, find_event-append_none new.event_id rows (new ∷ []), find_event-single new)
  | inr (prior, e) ↦ ground (arith, find_event-id new.event_id rows prior e, same_data-eq prior new)
]

pub insert_event_keeps :
    (new old : EventRow) (rows rows' : List EventRow)
    → insert_event new rows ≡ committed rows'
    → IsLogged old rows
    → IsLogged old rows'
unfolding insert_event
insert_event_keeps new old rows rows' h logged =
    ground (arith, find_event-append_some old.event_id rows (new ∷ []) old)

-- A repeated insert is accepted and adds nothing.
pub insert_event_again :
    (row : EventRow) (rows : List EventRow)
    → IsLogged row rows
    → insert_event row rows ≡ committed rows
unfolding insert_event
insert_event_again row rows logged = ground (
  arith,
  eq_refl row.account_key,
  eq_refl row.timestamp,
  eq_refl row.event_type,
  eq_refl row.payload_json,
)

-- Every event of the step is in the ledger.
abbrev pub AllLogged : String → List EventData → List EventRow → Type 0
AllLogged key [] rows = Unit
AllLogged key (e ∷ events) rows = IsLogged (to_row key e) rows × AllLogged key events rows

pub insert_events_keeps :
    (key : String) (events : List EventData) (old : EventRow) (rows rows' : List EventRow)
    → insert_events key events rows ≡ committed rows'
    → IsLogged old rows
    → IsLogged old rows'
unfolding insert_events
insert_events_keeps key [] old rows rows' h logged = ground arith
insert_events_keeps key (e ∷ events) old rows rows' h logged =
    let (rows₁, first, rest) = >>=-committed (insert_event (to_row key e) rows) _ h in
    insert_events_keeps key events old rows₁ rows' rest
      (insert_event_keeps (to_row key e) old rows rows₁ first logged)

pub insert_events-AllLogged :
    (key : String) (events : List EventData) (rows rows' : List EventRow)
    → insert_events key events rows ≡ committed rows'
    → AllLogged key events rows'
unfolding insert_events
insert_events-AllLogged key [] rows rows' h = tt
insert_events-AllLogged key (e ∷ events) rows rows' h =
    let (rows₁, first, rest) = >>=-committed (insert_event (to_row key e) rows) _ h in
    (
      insert_events_keeps key events (to_row key e) rows₁ rows' rest
          (insert_event-IsLogged (to_row key e) rows rows₁ first),
      insert_events-AllLogged key events rows₁ rows' rest,
    )

pub insert_events_again :
    (key : String) (events : List EventData) (rows : List EventRow)
    → AllLogged key events rows
    → insert_events key events rows ≡ committed rows
unfolding insert_events
insert_events_again key [] rows logged = refl
insert_events_again key (e ∷ events) rows logged =
    rw (insert_event_again (to_row key e) rows logged.0)
      (insert_events_again key events rows logged.1)
