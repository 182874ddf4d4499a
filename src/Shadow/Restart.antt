-- ===== src/Shadow/Restart.antt =====
-- src/coinpilot/hft_shadow_store.py: what `start_run` leaves.
use ai_coin_trading.Prelude.{
  String, ◌≡◌, refl, inl, inr, true, false, ◌&&◌, none, some, arith, ltb, Option-cases,
}
use ai_coin_trading.Arith.{Arith, ◌<?◌, zero_f}
use ai_coin_trading.Outbox.{required_text}
use ai_coin_trading.Shadow.Control.{stripped_text}
use ai_coin_trading.Shadow.Ledger.{find_row, count_rows, is_run, is_state_of, is_pending_of}
use ai_coin_trading.Shadow.Predecessor.{
  StartRequest, find_predecessor, fresh_state, start_halt, carried_state, end_predecessor,
}
use ai_coin_trading.Shadow.Rows.{RunRow, ShadowState, Ledger}
use ai_coin_trading.Shadow.Start.{
  ShadowRunStart, new_run_row, insert_run, start_existing, start_new, start_run,
}
use ai_coin_trading.Shadow.Takeover.{Started, insert_run_found, start_new-TakesOver}
use ai_coin_trading.Shadow.Types.{bad_time, bad_cash, done, >>=-done, ensure-done}

stripped_text-done : (t t' : String) → stripped_text t ≡ done t' → required_text t ≡ some t'
stripped_text-done t t' h = ground arith

module _ {F : Type 0} ⦃a : Arith F⦄ where
  start_new-Started :
      (q : StartRequest F) (run market hash code : String) (l l' : Ledger F)
      (start : ShadowRunStart)
      → start_new q run market hash code l ≡ done (l', start)
      → (s : ShadowState F) × (find_row (is_state_of start.start_run_id) l'.states ≡ some s)
        × Started q run market hash code l l' s
  unfolding start_new
  start_new-Started q run market hash code l l' start h =
      elim (Option-cases (find_predecessor market l.states l.runs)) [
        | inl first ↦
            let s = fresh_state q run in
            let row = new_run_row q run market hash code none s in
            let inserts : insert_run row s 0 l ≡ done (l', start) = ground (arith, first) in
            (s, insert_run_found row s 0 l l' start refl inserts, inl (first, refl))
        | inr ((r, old), last) ↦
            let s = carried_state q run (start_halt q hash code r old) old in
            let row = new_run_row q run market hash code (some r.run_id) s in
            let count = count_rows (is_pending_of r.run_id) l.orders in
            let ended = end_predecessor q.started_at r l in
            let inserts : insert_run row s count ended ≡ done (l', start) = ground (arith, last) in
            (
              s,
              insert_run_found row s count ended l' start refl inserts,
              inr (
                r,
                old,
                last,
                start_new-TakesOver q run market hash code r old row count l l' start last inserts,
              ),
            )
      ]

  start_existing_marks :
      (run : String) (r asked : RunRow) (l l' : Ledger F) (start : ShadowRunStart)
      → start_existing run r asked l ≡ done (l', start)
      → start.already_started ≡ true
  unfolding start_existing
  start_existing_marks run r asked l l' start h = ground arith

  -- When `start_run` has made a new run, its account is in the ledger. If the market has no run to take
  -- over, it is the fresh account of the request. Else it has the cash, the position and the cost of
  -- the last run's account; no order of the last run waits any more, and its account is stopped if the
  -- run was active; and the new account is halted for the first that applies of a halt that restarts
  -- do not lift, another configuration or code version, and an open position, and warms up only if
  -- none of these applies.
  pub start_run-Started :
      (q : StartRequest F) (l l' : Ledger F) (start : ShadowRunStart)
      → start_run q l ≡ done (l', start)
      → start.already_started ≡ false
      → (run : String) × (market : String) × (hash : String) × (code : String) × (required_text
            q.new_run
          ≡ some run)
        × (required_text q.new_market ≡ some market)
        × (required_text q.new_config_hash ≡ some hash)
        × (required_text q.new_code_version ≡ some code)
        × (s : ShadowState F) × (find_row (is_state_of start.start_run_id) l'.states ≡ some s)
        × Started q run (q.upper market) hash code l l' s
  unfolding start_run
  start_run-Started q l l' start h new =
      let (run, named, h₁) = >>=-done (stripped_text q.new_run) _ h in
      let (market, traded, h₂) = >>=-done (stripped_text q.new_market) _ h₁ in
      let (_, h₃) =
        ensure-done (a.finite q.initial_cash && (zero_f <? q.initial_cash)) bad_cash _ h₂ in
      let (_, h₄) = ensure-done (ltb 0 q.started_at) bad_time _ h₃ in
      let (hash, hashed, h₅) = >>=-done (stripped_text q.new_config_hash) _ h₄ in
      let (code, coded, h₆) = >>=-done (stripped_text q.new_code_version) _ h₅ in
      elim (Option-cases (find_row (is_run run) l.runs)) [
        | inr (r, existing) ↦
            let marks =
              start_existing_marks run r
                (new_run_row q run (q.upper market) hash code none (fresh_state q run)) l l'
                start in
            absurd (ground (arith, existing, marks))
        | inl none_yet ↦
            let (s, found, started) =
              start_new-Started q run (q.upper market) hash code l l' start
                (ground (arith, none_yet)) in
            (
              run,
              market,
              hash,
              code,
              stripped_text-done q.new_run run named,
              stripped_text-done q.new_market market traded,
              stripped_text-done q.new_config_hash hash hashed,
              stripped_text-done q.new_code_version code coded,
              s,
              found,
              started,
            )
      ]
