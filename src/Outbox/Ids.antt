-- ===== src/Outbox/Ids.antt =====
-- Which ids the queries of the outbox find.
use ai_coin_trading.Prelude.{
  ℕ, zero, suc, String, ◌≡◌, refl, sym, ◌∙◌, Bool, true, false, ◌&&◌, ◌||◌, List, [], ◌∷◌, arith,
  str_eq, eq_iff,
}
use ai_coin_trading.Outbox.{
  Notification, is_ready, ready_rows, insert_by_time, by_time, limit_rows, has_id, rows_among,
  select_ready,
}

-- Some row of this id may be claimed at this time.
unfoldable pub any_ready : ℕ → String → List Notification → Bool
any_ready now id [] = false
any_ready now id (n ∷ rows) = str_eq n.notification_id id && is_ready now n || any_ready now id rows

pub has_id-ready_rows :
    (now : ℕ) (id : String) (rows : List Notification)
    → has_id id (ready_rows now rows) ≡ any_ready now id rows
unfolding has_id ready_rows any_ready
has_id-ready_rows now id [] = refl
has_id-ready_rows now id (n ∷ rows) = ground (arith, has_id-ready_rows now id rows)

pub has_id-insert_by_time :
    (id : String) (n : Notification) (rows : List Notification)
    → has_id id (insert_by_time n rows) ≡ (str_eq n.notification_id id || has_id id rows)
unfolding has_id insert_by_time
has_id-insert_by_time id n [] = refl
has_id-insert_by_time id n (m ∷ rows) = ground (arith, has_id-insert_by_time id n rows)

pub has_id-by_time :
    (id : String) (rows : List Notification) → has_id id (by_time rows) ≡ has_id id rows
unfolding has_id by_time
has_id-by_time id [] = refl
has_id-by_time id (n ∷ rows) =
    ground (arith, has_id-by_time id rows, has_id-insert_by_time id n (by_time rows))

pub has_id-limit_rows :
    (id : String) (k : ℕ) (rows : List Notification)
    → has_id id (limit_rows k rows) ≡ true
    → has_id id rows ≡ true
unfolding has_id limit_rows
has_id-limit_rows id zero rows h = cc
has_id-limit_rows id (suc k) [] h = cc
has_id-limit_rows id (suc k) (n ∷ rows) h = ground (arith, has_id-limit_rows id k rows)

pub has_id-rows_among :
    (id : String) (selected rows : List Notification)
    → has_id id (rows_among selected rows) ≡ true
    → has_id id selected ≡ true
unfolding has_id rows_among
has_id-rows_among id selected [] h = cc
has_id-rows_among id selected (n ∷ rows) h =
    ground (arith, has_id-rows_among id selected rows, eq_iff n.notification_id id)

-- What is selected was ready.
pub select_ready-any_ready :
    (now limit : ℕ) (id : String) (rows : List Notification)
    → has_id id (select_ready now limit rows) ≡ true
    → any_ready now id rows ≡ true
unfolding select_ready
select_ready-any_ready now limit id rows h =
    sym (has_id-ready_rows now id rows)
    ∙ sym (has_id-by_time id (ready_rows now rows))
    ∙ has_id-limit_rows id limit (by_time (ready_rows now rows)) h

pub any_ready_absent :
    (now : ℕ) (id : String) (rows : List Notification)
    → has_id id rows ≡ false
    → any_ready now id rows ≡ false
unfolding has_id any_ready
any_ready_absent now id [] h = refl
any_ready_absent now id (n ∷ rows) h = ground (arith, any_ready_absent now id rows)
