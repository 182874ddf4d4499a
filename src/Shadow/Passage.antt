-- ===== src/Shadow/Passage.antt =====
-- The way of a new book through `process_book`: its parts, each of which has ended.
use mathlib.Core.Path.{subst}
use ai_coin_trading.Prelude.{
  ℕ, String, ◌≡◌, inl, inr, true, false, Option, none, some, arith, Bool-cases, Option-cases,
}
use ai_coin_trading.Arith.{Arith}
use ai_coin_trading.Depth.{PublicOrderBook}
use ai_coin_trading.Shadow.Book.{
  Events, no_events, break_feed, recovery_intent, settle_recovery, recover, must_recover, warm_up,
  continue_feed, apply_book,
}
use ai_coin_trading.Shadow.Feed.{continuity_of}
use ai_coin_trading.Shadow.Intents.{record_intent}
use ai_coin_trading.Shadow.Orders.{resolve_pending}
use ai_coin_trading.Shadow.Rows.{Ledger}
use ai_coin_trading.Shadow.Settle.{ShadowConfig, Work}
use ai_coin_trading.Shadow.Types.{
  ContinuityReason, DecisionStatus, BookKey, FillKey, done, >>=-done, paired-done,
}

-- What a book does to the account and the ledger before the caller's intent.
pub data Applied {F : Type 0} ⦃a : Arith F⦄ (config : ShadowConfig F) (run : String)
    (book : PublicOrderBook F) (wall : ℕ) (w w' : Work F) (e : Events) : Type 0 where
  broke :
      (why : ContinuityReason)
      → continuity_of w.state book ≡ some why
      → break_feed config run book why wall w ≡ done w'
      → e ≡ no_events
      → Applied config run book wall w w' e
  recovered :
      (w₁ : Work F) (res : Option BookKey) (fill : Option FillKey)
      → continuity_of w.state book ≡ none
      → resolve_pending config run book wall w ≡ done (w₁, res, fill)
      → must_recover config w₁.state ≡ true
      → recover config run book wall w₁ ≡ done (w', e)
      → Applied config run book wall w w' e
  went_on :
      (w₁ : Work F) (res : Option BookKey) (fill : Option FillKey)
      → continuity_of w.state book ≡ none
      → resolve_pending config run book wall w ≡ done (w₁, res, fill)
      → must_recover config w₁.state ≡ false
      → warm_up config run book wall w₁ ≡ done w'
      → e ≡ record no_events { resolved = res; filled = fill }
      → Applied config run book wall w w' e

module _ {F : Type 0} ⦃a : Arith F⦄ (config : ShadowConfig F) (run : String)
    (book : PublicOrderBook F) where
  continue_feed-Applied :
      (wall : ℕ) (w w' : Work F) (e : Events)
      → continuity_of w.state book ≡ none
      → continue_feed config run book wall w ≡ done (w', e)
      → Applied config run book wall w w' e
  unfolding continue_feed
  continue_feed-Applied wall w w' e goes h =
      let ((w₁, res, fill), first, rest) = >>=-done (resolve_pending config run book wall w) _ h in
      elim (Bool-cases (must_recover config w₁.state)) [
        | inl must ↦ recovered w₁ res fill goes first must (ground (arith, must))
        | inr idle ↦
            let (warms, same) =
              paired-done (warm_up config run book wall w₁)
                (record no_events { resolved = res; filled = fill }) e w' (ground (arith, idle)) in
            went_on w₁ res fill goes first idle warms same
      ]

  pub apply_book-Applied :
      (wall : ℕ) (w w' : Work F) (e : Events)
      → apply_book config run book wall w ≡ done (w', e)
      → Applied config run book wall w w' e
  unfolding apply_book
  apply_book-Applied wall w w' e h = elim (Option-cases (continuity_of w.state book)) [
    | inl goes ↦ continue_feed-Applied wall w w' e goes (ground (arith, goes))
    | inr (why, breaks) ↦
        let (first, same) =
          paired-done (break_feed config run book why wall w) no_events e w'
            (ground (arith, breaks)) in
        broke why breaks first same
  ]

  -- The parts of a recovery.
  pub record Recovery (wall : ℕ) (w w' : Work F) (e : Events) : Type 0 where
    pub recorded : Ledger F
    pub status : DecisionStatus
    pub order : Option BookKey
    pub records :
        record_intent config run book
          (recovery_intent w.state)
          wall
          true
          book.received_monotonic_ns
          w
        ≡ done (recorded, status, order)
    pub sold : Work F
    pub result : Option BookKey
    pub resolves :
        resolve_pending config run book wall (record w { ledger = recorded })
        ≡ done (sold, result, e.filled)
    pub settles : w' ≡ settle_recovery config run sold
    pub orders : e.ordered ≡ order
    pub recovers : e.recovering ≡ true

  pub recover-Recovery :
      (wall : ℕ) (w w' : Work F) (e : Events)
      → recover config run book wall w ≡ done (w', e)
      → Recovery wall w w' e
  unfolding recover
  recover-Recovery wall w w' e h =
      let ((l, status, order), records, after) =
        >>=-done
          (record_intent config run book (recovery_intent w.state) wall true
            book.received_monotonic_ns w)
          _ h in
      let ((w₁, res, fill), resolves, ends) =
        >>=-done (resolve_pending config run book wall (record w { ledger = l })) _ after in
      let same : fill ≡ e.filled = ground arith in
      record {
        recorded = l;
        status = status;
        order = order;
        records = records;
        sold = w₁;
        result = res;
        resolves =
            subst
              (λ z.
                resolve_pending config run book wall (record w { ledger = l }) ≡ done (w₁, res, z))
              same resolves;
        settles = ground arith;
        orders = ground arith;
        recovers = ground arith;
      }
