-- ===== src/Shadow/Engine.antt =====
-- src/coinpilot/hft_shadow.py: `process_book` as a whole, with the book that is seen again.
use ai_coin_trading.Prelude.{
  String, Bool, true, ◌&&◌, Option, none, some, str_eq, if◌then◌else◌, is_some,
}
use ai_coin_trading.Arith.{Arith}
use ai_coin_trading.Depth.{PublicOrderBook}
use ai_coin_trading.Shadow.Book.{ShadowStepResult, apply_book, apply_intent}
use ai_coin_trading.Shadow.Close.{close_book}
use ai_coin_trading.Shadow.Feed.{event_wall_ns, is_exact_duplicate, reject_regressed, continuity_of}
use ai_coin_trading.Shadow.Ledger.{find_row, is_state_of, is_decision, is_order}
use ai_coin_trading.Shadow.Rows.{ShadowState, DecisionRow, FillRow, Ledger}
use ai_coin_trading.Shadow.Same.{
  same_option, same_key, same_lifecycle, same_action, same_features, same_float,
}
use ai_coin_trading.Shadow.Settle.{ShadowConfig, ShadowIntent, Work, validate_intent, key_of}
use ai_coin_trading.Shadow.Types.{
  ◌>>=◌, Step, refused, ◌>>◌, stopped, BookKey, wrong_market, state_disappeared, run_stopped,
  new_intent_on_duplicate, different_intent, done, ensure,
}

abbrev key_if_found : {R : Type 0} → BookKey → Option R → Option BookKey
key_if_found key found = if is_some found then some key else none

module _ {F : Type 0} ⦃a : Arith F⦄ where
  -- The columns of a decision that an intent sets.
  abbrev is_same_intent : DecisionRow F → ShadowIntent F → Bool
  is_same_intent d i =
      same_action d.action i.intent_action
      && same_option same_float d.signal i.intent_signal
      && str_eq d.decision_reason i.intent_reason
      && str_eq d.policy_version i.intent_policy
      && same_features d.features i.intent_features

  unfoldable pub check_repeated : Option (DecisionRow F) → Option (ShadowIntent F) → Step (Unit {0})
  check_repeated d none = done tt
  check_repeated none (some i) = refused new_intent_on_duplicate
  check_repeated (some d) (some i) = ensure (is_same_intent d i) different_intent

  abbrev is_fill_of : BookKey → FillRow F → Bool
  is_fill_of key f = same_key f.fill_key.fill_order key

  -- `_duplicate_result`
  unfoldable pub duplicate_result :
      String
      → PublicOrderBook F
      → Option (ShadowIntent F)
      → ShadowState F
      → Ledger F
      → Step (ShadowStepResult F)
  duplicate_result run book i s l = do
    let key = key_of run book
    let decision = find_row (is_decision key) l.decisions
    let order = find_row (is_order key) l.orders
    check_repeated decision i
    done (record {
      result_lifecycle = s.lifecycle_status;
      decision_id = key_if_found key decision;
      decision_outcome = elim decision [ none ↦ none | some d ↦ some d.decision_status ];
      order_id = key_if_found key order;
      resolved_order_id = none;
      fill_id = elim order [
        | none ↦ none
        | some o ↦ elim (find_row (is_fill_of key) l.fills) [
          | none ↦ none
          | some f ↦ some f.fill_key
        ]
      ];
      duplicate_event = true;
      continuity_reason = none;
      result_cash = s.cash_quote;
      result_base = s.base_quantity;
      result_equity = s.last_equity_quote;
    })

  -- A book that is new.
  unfoldable pub process_new :
      ShadowConfig F
      → String
      → PublicOrderBook F
      → Option (ShadowIntent F)
      → Work F
      → Step (Ledger F × ShadowStepResult F)
  process_new config run book i w = do
    let wall = event_wall_ns book
    applied ← apply_book config run book wall w
    intended ← apply_intent config run book i wall applied
    close_book config run book wall (continuity_of w.state book) intended

  abbrev pub validate_option : Option (ShadowIntent F) → Step (Option (ShadowIntent F))
  validate_option none = done none
  validate_option (some i) = validate_intent i >>= λ i'. done (some i')

  -- The transaction's view of the run's account.
  unfoldable pub process_state :
      ShadowConfig F
      → String
      → PublicOrderBook F
      → Option (ShadowIntent F)
      → Ledger F
      → ShadowState F
      → Step (Ledger F × ShadowStepResult F)
  process_state config run book i l s =
      if same_lifecycle s.lifecycle_status stopped
      then refused run_stopped
      else if is_exact_duplicate s book
      then (duplicate_result run book i s l >>= λ result. done (l, result))
      else (reject_regressed s book
          >> process_new config run book i (record { ledger = l; state = s }))

  unfoldable pub process_book :
      ShadowConfig F
      → String
      → PublicOrderBook F
      → Option (ShadowIntent F)
      → Ledger F
      → Step (Ledger F × ShadowStepResult F)
  process_book config run book intent l = do
    ensure (str_eq book.market config.shadow_market) wrong_market
    i ← validate_option intent
    elim (find_row (is_state_of run) l.states) [
      | none ↦ refused state_disappeared
      | some s ↦ process_state config run book i l s
    ]
