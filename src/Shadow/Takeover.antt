-- ===== src/Shadow/Takeover.antt =====
-- src/coinpilot/hft_shadow_store.py: what a new run takes over from the last one in `start_run`.
use ai_coin_trading.Prelude.{
  ℕ, String, ◌≡◌, refl, sym, ap, ◌∙◌, ◌⊎◌, inl, inr, true, false, ◌&&◌, none, some, List, [], ◌∷◌,
  ◌++◌, arith, str_eq, eq_iff, ltb, Bool-cases, Option-cases,
}
use ai_coin_trading.Arith.{Arith, ◌<?◌}
use ai_coin_trading.Broker.{flat}
use ai_coin_trading.Shadow.Control.{is_latched, with_status}
use ai_coin_trading.Shadow.Ledger.{find_row, count_rows, is_state_of, is_pending_of, expire_pending}
use ai_coin_trading.Shadow.Predecessor.{
  StartRequest, is_active_run, is_predecessor, find_predecessor, fresh_state, start_halt,
  carried_state, end_predecessor,
}
use ai_coin_trading.Shadow.Rows.{RunRow, ShadowState, Ledger}
use ai_coin_trading.Shadow.Start.{ShadowRunStart, insert_run}
use ai_coin_trading.Shadow.Tables.{
  find_row_test, find_row-update_rows, find_row-append, find_row-append_found,
}
use ai_coin_trading.Shadow.Types.{
  warmup, halted_recovery, stopped, restart_with_open_position, restart_fingerprint_changed,
  process_restart, restart_expiry, done,
}
use ai_coin_trading.Shadow.Waiting.{expire_pending-idle}

module _ {F : Type 0} ⦃a : Arith F⦄ where
  -- Whether the new account `s` is halted, after the last run `r` with its account `old`.
  pub data StartsAs (q : StartRequest F) (hash code : String) (r : RunRow) (old s : ShadowState F)
      : Type 0 where
    stays_halted :
        is_latched old.halt_reason ≡ true
        → s.halt_reason ≡ old.halt_reason
        → s.lifecycle_status ≡ halted_recovery
        → StartsAs q hash code r old s
    is_changed :
        is_latched old.halt_reason ≡ false
        → (str_eq r.config_hash hash && str_eq r.code_version code) ≡ false
        → s.halt_reason ≡ some restart_fingerprint_changed
        → s.lifecycle_status ≡ halted_recovery
        → StartsAs q hash code r old s
    is_exposed :
        is_latched old.halt_reason ≡ false
        → r.config_hash ≡ hash
        → r.code_version ≡ code
        → (q.start_epsilon <? old.base_quantity) ≡ true
        → s.halt_reason ≡ some restart_with_open_position
        → s.lifecycle_status ≡ halted_recovery
        → StartsAs q hash code r old s
    warms_up :
        is_latched old.halt_reason ≡ false
        → r.config_hash ≡ hash
        → r.code_version ≡ code
        → (q.start_epsilon <? old.base_quantity) ≡ false
        → s.halt_reason ≡ none
        → s.lifecycle_status ≡ warmup
        → StartsAs q hash code r old s

  pub record TakesOver (q : StartRequest F) (hash code : String) (r : RunRow)
      (old s : ShadowState F) (l' : Ledger F) : Type 0 where
    pub cash : s.cash_quote ≡ old.cash_quote
    pub base : s.base_quantity ≡ old.base_quantity
    pub cost : s.average_cost_quote ≡ old.average_cost_quote
    pub idle : count_rows (is_pending_of r.run_id) l'.orders ≡ 0
    pub starts_as : StartsAs q hash code r old s
    pub ended :
        (is_active_run r.run_status ≡ false)
        ⊎ (find_row (is_state_of r.run_id) l'.states
            ≡ some (with_status stopped process_restart q.started_at old))

  -- The new account, or the first one of the market.
  abbrev pub Started :
      StartRequest F
      → String
      → String
      → String
      → String
      → Ledger F
      → Ledger F
      → ShadowState F
      → Type 0
  Started q run market hash code l l' s =
      ((find_predecessor market l.states l.runs ≡ none) × (s ≡ fresh_state q run))
      ⊎ ((r : RunRow) × (old : ShadowState F) × (find_predecessor market l.states l.runs
            ≡ some (r, old))
          × TakesOver q hash code r old s l')

  insert_run_rows :
      (r : RunRow) (s : ShadowState F) (count : ℕ) (l l' : Ledger F) (start : ShadowRunStart)
      → insert_run r s count l ≡ done (l', start)
      → (l'.orders ≡ l.orders)
        × (l'.states ≡ l.states ++ s ∷ [])
        × (find_row (is_state_of s.state_run) l.states ≡ none)
        × (start.start_run_id ≡ r.run_id)
        × (start.expired_orders ≡ count)
  unfolding insert_run
  insert_run_rows r s count l l' start h =
      (ground arith, ground arith, ground arith, ground arith, ground arith)

  end_predecessor-orders :
      (wall : ℕ) (r : RunRow) (l : Ledger F)
      → (end_predecessor wall r l).orders ≡ (expire_pending r.run_id restart_expiry wall l.orders).0
  unfolding end_predecessor
  end_predecessor-orders wall r l = ground arith

  carried_state-StartsAs :
      (q : StartRequest F) (run hash code : String) (r : RunRow) (old : ShadowState F)
      → StartsAs q hash code r old (carried_state q run (start_halt q hash code r old) old)
  unfolding start_halt
  carried_state-StartsAs q run hash code r old = elim (Bool-cases (is_latched old.halt_reason)) [
    | inl latched ↦ stays_halted latched (ground (arith, latched)) (ground (arith, latched))
    | inr free ↦ elim (Bool-cases (str_eq r.config_hash hash && str_eq r.code_version code)) [
      | inr changed ↦
          is_changed free changed (ground (arith, free, changed)) (ground (arith, free, changed))
      | inl same ↦ elim (Bool-cases (q.start_epsilon <? old.base_quantity)) [
        | inl holds ↦
            is_exposed free ((eq_iff r.config_hash hash).0 (ground (arith, same)))
              ((eq_iff r.code_version code).0 (ground (arith, same))) holds
              (ground (arith, free, same, holds)) (ground (arith, free, same, holds))
        | inr flat ↦
            warms_up free ((eq_iff r.config_hash hash).0 (ground (arith, same)))
              ((eq_iff r.code_version code).0 (ground (arith, same))) flat
              (ground (arith, free, same, flat)) (ground (arith, free, same, flat))
      ]
    ]
  ]

  -- The account of the last run is the one that its id finds.
  find_predecessor-found :
      (market : String) (states : List (ShadowState F)) (runs : List RunRow) (r : RunRow)
      (old : ShadowState F)
      → find_predecessor market states runs ≡ some (r, old)
      → find_row (is_state_of r.run_id) states ≡ some old
  unfolding find_predecessor
  find_predecessor-found market states [] r old h = absurd (ground arith)
  find_predecessor-found market states (x ∷ runs) r old h =
      let rest = find_predecessor-found market states runs r old in
      elim (Option-cases (find_row (is_state_of x.run_id) states)) [
        | inl lost ↦ rest (ground (arith, lost))
        | inr (s, found) ↦
            let own = λ (same_run : x ≡ r) (same : s ≡ old).
              ap (λ z. find_row (is_state_of z.run_id) states) (sym same_run)
              ∙ found
              ∙ ap some same in
            elim (Bool-cases (is_predecessor market x)) [
              | inr other ↦ rest (ground (arith, found, other))
              | inl fits ↦ elim (Option-cases (find_predecessor market states runs)) [
                | inl last ↦
                    own (ground (arith, fits, last, found)) (ground (arith, fits, last, found))
                | inr ((r', s'), later) ↦
                    elim (Bool-cases (ltb x.started_wall_ns r'.started_wall_ns)) [
                      | inl newer ↦ rest (ground (arith, fits, found, later, newer))
                      | inr older ↦
                          own (ground (arith, fits, found, later, older))
                            (ground (arith, fits, found, later, older))
                    ]
              ]
            ]
      ]

  pub insert_run_found :
      (r : RunRow) (s : ShadowState F) (count : ℕ) (l l' : Ledger F) (start : ShadowRunStart)
      → s.state_run ≡ r.run_id
      → insert_run r s count l ≡ done (l', start)
      → find_row (is_state_of start.start_run_id) l'.states ≡ some s
  insert_run_found r s count l l' start own h =
      let (_, states, new, id, _) = insert_run_rows r s count l l' start h in
      let mine = (eq_iff s.state_run s.state_run).1 refl in
      ap (λ n. find_row (is_state_of n) l'.states) (id ∙ sym own)
      ∙ ap (find_row (is_state_of s.state_run)) states
      ∙ find_row-append (is_state_of s.state_run) l.states s new mine

  end_predecessor_state :
      (wall : ℕ) (r : RunRow) (old : ShadowState F) (l : Ledger F)
      → find_row (is_state_of r.run_id) l.states ≡ some old
      → (is_active_run r.run_status ≡ false)
        ⊎ (find_row (is_state_of r.run_id) (end_predecessor wall r l).states
            ≡ some (with_status stopped process_restart wall old))
  unfolding end_predecessor
  end_predecessor_state wall r old l found = elim (Bool-cases (is_active_run r.run_status)) [
    | inr over ↦ inl over
    | inl trades ↦
        let (own, _) = find_row_test (is_state_of r.run_id) l.states old found in
        let kept =
          find_row-update_rows (is_state_of r.run_id) (with_status stopped process_restart wall)
            l.states old own found in
        inr (ground (arith, trades, kept))
  ]

  pub start_new-TakesOver :
      (q : StartRequest F) (run market hash code : String) (r : RunRow) (old : ShadowState F)
      (row : RunRow) (count : ℕ) (l l' : Ledger F) (start : ShadowRunStart)
      → find_predecessor market l.states l.runs ≡ some (r, old)
      → insert_run row
          (carried_state q run (start_halt q hash code r old) old)
          count
          (end_predecessor q.started_at r l)
        ≡ done (l', start)
      → TakesOver q hash code r old (carried_state q run (start_halt q hash code r old) old) l'
  start_new-TakesOver q run market hash code r old row count l l' start last h =
      let s = carried_state q run (start_halt q hash code r old) old in
      let l₁ = end_predecessor q.started_at r l in
      let (orders, states, _, _, _) = insert_run_rows row s count l₁ l' start h in
      let found = find_predecessor-found market l.states l.runs r old last in
      record {
        cash = refl;
        base = refl;
        cost = refl;
        idle =
            ap (count_rows (is_pending_of r.run_id))
              (orders ∙ end_predecessor-orders q.started_at r l)
            ∙ expire_pending-idle r.run_id restart_expiry q.started_at l.orders;
        starts_as = carried_state-StartsAs q run hash code r old;
        ended = elim (end_predecessor_state q.started_at r old l found) [
          | inl over ↦ inl over
          | inr kept ↦ inr (
              ap (find_row (is_state_of r.run_id)) states
              ∙ find_row-append_found (is_state_of r.run_id) l₁.states s _ kept)
        ];
      }
