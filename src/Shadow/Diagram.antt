-- ===== src/Shadow/Diagram.antt =====
-- src/coinpilot/hft_shadow.py: the statuses of an account under `process_book`, on the diagram of
-- Shadow/Moves.
use mathlib.Core.Path.{subst}
use ai_coin_trading.Prelude.{
  ◌≤◌, String, ◌≡◌, sym, ap, ◌∙◌, ◌⊎◌, inl, inr, Bool, false, Option, none, some, arith, eq_iff,
  Bool-cases,
}
use ai_coin_trading.Arith.{Arith}
use ai_coin_trading.Depth.{PublicOrderBook}
use ai_coin_trading.Shadow.Book.{ShadowStepResult, is_open}
use ai_coin_trading.Shadow.Close.{closed_state}
use ai_coin_trading.Shadow.Control.{is_latched}
use ai_coin_trading.Shadow.Engine.{process_book}
use ai_coin_trading.Shadow.Feed.{event_wall_ns, continuity_of}
use ai_coin_trading.Shadow.Ledger.{find_row, update_rows, is_state_of}
use ai_coin_trading.Shadow.Moves.{
  Phase, phase_of, Moves, breaks_flat, breaks_open, stays, counts, starts, recovers_flat, Passes,
  Applied-Moved,
}
use ai_coin_trading.Shadow.Processed.{process_book-Processed, process_book_repeats}
use ai_coin_trading.Shadow.Rows.{ShadowState, Ledger}
use ai_coin_trading.Shadow.Saving.{
  Shows, apply_intent_keeps, close_book_saves, closed_state-seen, closed_state-phase, saved_found,
  Settled,
}
use ai_coin_trading.Shadow.Settle.{ShadowConfig, ShadowIntent, Work}
use ai_coin_trading.Shadow.Tables.{find_row_test}
use ai_coin_trading.Shadow.Types.{running, ContinuityReason, done}

module _ {F : Type 0} ⦃a : Arith F⦄ (config : ShadowConfig F) (run : String)
    (book : PublicOrderBook F) where
  -- What a new book that `process_book` takes makes of the account, whatever its halt.
  pub process_book-Settled :
      (intent : Option (ShadowIntent F)) (l l' : Ledger F) (r : ShadowStepResult F)
      → process_book config run book intent l ≡ done (l', r)
      → r.duplicate_event ≡ false
      → Settled config run book l l' r
  process_book-Settled intent l l' r h new =
      let wall = event_wall_ns book in
      let p = process_book-Processed config run book intent l l' r h new in
      let w : Work F = record { ledger = l; state = p.before } in
      let m = Applied-Moved config run book wall w p.worked p.events p.applied in
      let (state, states) =
        apply_intent_keeps config run book p.intent wall (p.worked, p.events) p.intended
          p.intends in
      let (equity, saved, shows) =
        close_book_saves config run book wall (continuity_of p.before book) p.intended l' r
          p.closes in
      let (own, _) = find_row_test (is_state_of run) l.states p.before p.found in
      let named : p.worked.state.state_run ≡ run =
        m.run_kept ∙ (eq_iff p.before.state_run run).0 own in
      let (phase, run_kept) =
        closed_state-phase config run book wall equity p.worked.state p.intended.0.state state in
      record {
        before = p.before;
        found = p.found;
        after = closed_state book wall equity p.intended.0.state;
        kept =
            saved_found config run book l.states l'.states p.before _ p.intended.0.state.state_run
              (ap (λ z. z.state_run) state ∙ named) (run_kept ∙ named) p.found
              (saved ∙ ap (update_rows _ _) (states ∙ m.states_kept));
        alive = p.alive;
        moves = subst (Passes config.warmup_books _ _ (phase_of p.before)) (sym phase) m.moves;
        shows = shows;
        seen = closed_state-seen config run book wall equity p.intended.0.state;
      }

  -- The account `s` of the ledger has moved along the diagram, and the result shows it.
  pub record Follows (s : ShadowState F) (l' : Ledger F) (r : ShadowStepResult F) : Type 0 where
    after : ShadowState F
    kept : find_row (is_state_of run) l'.states ≡ some after
    moves :
        Moves config.warmup_books
          (continuity_of s book)
          (is_open config s)
          (phase_of s)
          (phase_of after)
    shows : Shows r after

  on_diagram :
      (s after : ShadowState F)
      → (is_latched s.halt_reason ≡ false) ⊎ (continuity_of s book ≡ none)
      → Passes config.warmup_books
          (continuity_of s book)
          (is_open config s)
          (phase_of s)
          (phase_of after)
      → Moves config.warmup_books
          (continuity_of s book)
          (is_open config s)
          (phase_of s)
          (phase_of after)
  on_diagram s after free (inl moves) = moves
  on_diagram s after (inl free) (inr lifts) = absurd (ground (arith, lifts.latched))
  on_diagram s after (inr goes) (inr lifts) = absurd (ground (arith, lifts.breaks))

  -- If the account is not under an external halt or the halt of a changed fingerprint, or the book
  -- continues the feed, a new book that `process_book` takes moves the account along the diagram. A
  -- break of the feed leads to a new warm-up, or to the halt for recovery if the account has an open
  -- position; without a break, the warm-up counts its books and leads to trading with the last that
  -- it needs; a halt ends only if it is one that recovers by itself, and in a new warm-up; and else
  -- nothing moves. The ledger has the moved account after the book, and the result shows it.
  pub process_book-Moves :
      (intent : Option (ShadowIntent F)) (l l' : Ledger F) (s : ShadowState F)
      (r : ShadowStepResult F)
      → find_row (is_state_of run) l.states ≡ some s
      → (is_latched s.halt_reason ≡ false) ⊎ (continuity_of s book ≡ none)
      → process_book config run book intent l ≡ done (l', r)
      → r.duplicate_event ≡ false
      → Follows s l' r
  process_book-Moves intent l l' s r found free h new =
      let saved = process_book-Settled intent l l' r h new in
      let same : saved.before ≡ s = ground (arith, saved.found, found) in
      record {
        after = saved.after;
        kept = saved.kept;
        moves = on_diagram s saved.after free (
            subst
              (λ z.
                Passes config.warmup_books (continuity_of z book) (is_open config z) (phase_of z)
                  (phase_of saved.after))
              same saved.moves);
        shows = saved.shows;
      }

  -- A trading account has seen its books of warm-up.
  pub record IsWarm (l : Ledger F) : Type 0 where
    pub warm :
        (s : ShadowState F)
        → find_row (is_state_of run) l.states ≡ some s
        → s.lifecycle_status ≡ running
        → config.warmup_books ≤ s.warmup_books_seen

  Moves-warm :
      (why : Option ContinuityReason) (holding : Bool) (x y : Phase)
      → Moves config.warmup_books why holding x y
      → (x.phase_status ≡ running → config.warmup_books ≤ x.phase_seen)
      → y.phase_status ≡ running
      → config.warmup_books ≤ y.phase_seen
  Moves-warm why holding x y (breaks_flat _ _ _ same) before runs = absurd (ground (arith, runs))
  Moves-warm why holding x y (breaks_open _ _ _ _ same) before runs = absurd (ground (arith, runs))
  Moves-warm why holding x y (stays _ _ same) before runs = ground (arith, before, runs)
  Moves-warm why holding x y (counts _ warms _ same) before runs = absurd (ground (arith, runs))
  Moves-warm why holding x y (starts _ _ enough same) before runs = ground (arith)
  Moves-warm why holding x y (recovers_flat _ _ _ same) before runs = absurd (ground (arith, runs))

  Passes-warm :
      (why : Option ContinuityReason) (holding : Bool) (x y : Phase)
      → Passes config.warmup_books why holding x y
      → (x.phase_status ≡ running → config.warmup_books ≤ x.phase_seen)
      → y.phase_status ≡ running
      → config.warmup_books ≤ y.phase_seen
  Passes-warm why holding x y (inl moves) before runs = Moves-warm why holding x y moves before runs
  Passes-warm why holding x y (inr lifts) before runs = absurd (ground (arith, runs, lifts.idle))

  -- If the account in the ledger trades only after its books of warm-up, so it does after every call
  -- of `process_book` that returns.
  pub process_book-IsWarm :
      (intent : Option (ShadowIntent F)) (l l' : Ledger F) (r : ShadowStepResult F)
      → IsWarm l
      → process_book config run book intent l ≡ done (l', r)
      → IsWarm l'
  process_book-IsWarm intent l l' r before h = elim (Bool-cases r.duplicate_event) [
    | inl again ↦
        subst IsWarm (sym (process_book_repeats config run book intent l l' r h again)) before
    | inr new ↦ record {
      warm = λ s found runs.
          let saved = process_book-Settled intent l l' r h new in
          let same : saved.after ≡ s = ground (arith, saved.kept, found) in
          let status = ap (λ z. z.lifecycle_status) same in
          subst (λ z. config.warmup_books ≤ z) (ap (λ z. z.warmup_books_seen) same)
            (Passes-warm _ _ _ _ saved.moves (before.warm saved.before saved.found)
              (status ∙ runs));
    }
  ]
