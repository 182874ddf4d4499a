-- ===== src/Shadow/Processed.antt =====
-- The parts of a call of `process_book` that has returned.
use ai_coin_trading.Prelude.{
  String, ◌≡◌, inl, inr, true, false, Option, some, arith, str_eq, Option-cases,
}
use ai_coin_trading.Arith.{Arith}
use ai_coin_trading.Depth.{PublicOrderBook}
use ai_coin_trading.Shadow.Book.{ShadowStepResult, Events, apply_book, apply_intent}
use ai_coin_trading.Shadow.Close.{close_book}
use ai_coin_trading.Shadow.Engine.{
  duplicate_result, process_new, validate_option, process_state, process_book,
}
use ai_coin_trading.Shadow.Feed.{event_wall_ns, is_exact_duplicate, continuity_of}
use ai_coin_trading.Shadow.Ledger.{find_row, is_state_of}
use ai_coin_trading.Shadow.Passage.{Applied, apply_book-Applied}
use ai_coin_trading.Shadow.Rows.{ShadowState, Ledger}
use ai_coin_trading.Shadow.Same.{same_lifecycle}
use ai_coin_trading.Shadow.Settle.{ShadowConfig, ShadowIntent, Work}
use ai_coin_trading.Shadow.Types.{stopped, wrong_market, done, >>=-done, ensure-done}

module _ {F : Type 0} ⦃a : Arith F⦄ (config : ShadowConfig F) (run : String)
    (book : PublicOrderBook F) where
  -- A new book that `process_book` has taken, with what its parts have made of the account.
  pub record Processed (l l' : Ledger F) (r : ShadowStepResult F) : Type 0 where
    pub before : ShadowState F
    pub found : find_row (is_state_of run) l.states ≡ some before
    pub alive : same_lifecycle before.lifecycle_status stopped ≡ false
    pub intent : Option (ShadowIntent F)
    pub worked : Work F
    pub events : Events
    pub applied :
        Applied config run book
          (event_wall_ns book)
          (record { ledger = l; state = before })
          worked
          events
    pub intended : Work F × Events
    pub intends :
        apply_intent config run book intent (event_wall_ns book) (worked, events) ≡ done intended
    pub closes :
        close_book config run book (event_wall_ns book) (continuity_of before book) intended
        ≡ done (l', r)

  process_new-Processed :
      (i : Option (ShadowIntent F)) (l l' : Ledger F) (s : ShadowState F) (r : ShadowStepResult F)
      → find_row (is_state_of run) l.states ≡ some s
      → same_lifecycle s.lifecycle_status stopped ≡ false
      → process_new config run book i (record { ledger = l; state = s }) ≡ done (l', r)
      → Processed l l' r
  unfolding process_new
  process_new-Processed i l l' s r found alive h =
      let ((w, e), applies, rest) =
        >>=-done
          (apply_book config run book (event_wall_ns book) (record { ledger = l; state = s })) _
          h in
      let (both, intends, closes) =
        >>=-done (apply_intent config run book i (event_wall_ns book) (w, e)) _ rest in
      record {
        before = s;
        found = found;
        alive = alive;
        intent = i;
        worked = w;
        events = e;
        applied = apply_book-Applied config run book (event_wall_ns book) _ w e applies;
        intended = both;
        intends = intends;
        closes = closes;
      }

  duplicate_result_marks :
      (i : Option (ShadowIntent F)) (s : ShadowState F) (l : Ledger F) (r : ShadowStepResult F)
      → duplicate_result run book i s l ≡ done r
      → r.duplicate_event ≡ true
  unfolding duplicate_result
  duplicate_result_marks i s l r h = ground arith

  process_state-Processed :
      (i : Option (ShadowIntent F)) (l l' : Ledger F) (s : ShadowState F) (r : ShadowStepResult F)
      → find_row (is_state_of run) l.states ≡ some s
      → process_state config run book i l s ≡ done (l', r)
      → r.duplicate_event ≡ false
      → Processed l l' r
  unfolding process_state
  process_state-Processed i l l' s r found h new =
      let marks = duplicate_result_marks i s l r in
      let alive : same_lifecycle s.lifecycle_status stopped ≡ false = ground arith in
      let newer : is_exact_duplicate s book ≡ false = ground (arith, alive, marks) in
      process_new-Processed i l l' s r found alive (ground (arith, alive, newer))

  pub process_book-Processed :
      (intent : Option (ShadowIntent F)) (l l' : Ledger F) (r : ShadowStepResult F)
      → process_book config run book intent l ≡ done (l', r)
      → r.duplicate_event ≡ false
      → Processed l l' r
  unfolding process_book
  process_book-Processed intent l l' r h new =
      let (market, after) =
        ensure-done (str_eq book.market config.shadow_market) wrong_market _ h in
      let (i, valid, rest) = >>=-done (validate_option intent) _ after in
      elim (Option-cases (find_row (is_state_of run) l.states)) [
        | inl lost ↦ absurd (ground (arith, lost))
        | inr (s, found) ↦ process_state-Processed i l l' s r found (ground (arith, found)) new
      ]

  process_new_marks :
      (i : Option (ShadowIntent F)) (w : Work F) (l' : Ledger F) (r : ShadowStepResult F)
      → process_new config run book i w ≡ done (l', r)
      → r.duplicate_event ≡ false
  unfolding process_new close_book
  process_new_marks i w l' r h = ground arith

  process_state_repeats :
      (i : Option (ShadowIntent F)) (l l' : Ledger F) (s : ShadowState F) (r : ShadowStepResult F)
      → process_state config run book i l s ≡ done (l', r)
      → r.duplicate_event ≡ true
      → l' ≡ l
  unfolding process_state
  process_state_repeats i l l' s r h again =
      let marks = process_new_marks i (record { ledger = l; state = s }) l' r in
      ground (arith, marks)

  -- A book that is seen again changes nothing.
  pub process_book_repeats :
      (intent : Option (ShadowIntent F)) (l l' : Ledger F) (r : ShadowStepResult F)
      → process_book config run book intent l ≡ done (l', r)
      → r.duplicate_event ≡ true
      → l' ≡ l
  unfolding process_book
  process_book_repeats intent l l' r h again =
      let (market, after) =
        ensure-done (str_eq book.market config.shadow_market) wrong_market _ h in
      let (i, valid, rest) = >>=-done (validate_option intent) _ after in
      elim (Option-cases (find_row (is_state_of run) l.states)) [
        | inl lost ↦ absurd (ground (arith, lost))
        | inr (s, found) ↦ process_state_repeats i l l' s r (ground (arith, found)) again
      ]
